-- ===== src/Screen.antt =====
-- core/drivers/screen.cpp: the text screen, its cursor and the scrolling.
pub mod Defs
pub mod Bounds
pub mod Printing
mod Tests
