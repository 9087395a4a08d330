-- ===== src/Text.antt =====
-- core/stdlib.cpp and core/string.cpp: bytes, texts and formatted output.
pub mod Defs
pub mod Format
pub mod Strlcpy
pub mod Copies
pub mod Output
pub mod Strings
pub mod Formatting
pub mod Steps
pub mod WideDirective
pub mod Pieces
pub mod Printing
mod Tests
