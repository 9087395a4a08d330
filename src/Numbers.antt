-- ===== src/Numbers.antt =====
-- core/stdlib.cpp: numbers as text, in both directions.
pub mod Defs
pub mod Digits
pub mod Reading
pub mod Hex
pub mod Signed
mod Tests
