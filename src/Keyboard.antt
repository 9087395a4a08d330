-- ===== src/Keyboard.antt =====
-- core/drivers/ps2.cpp: the PS/2 keyboard driver, one scancode at a time.
pub mod Defs
pub mod Modifiers
pub mod Reading
mod Tests
