-- ===== src/Syslog.antt =====
-- The kernel's log of core/kernel.cpp: a ring of SYSLOG_LENGTH bytes that keeps the newest ones.
pub mod Defs
pub mod Tails
pub mod Flattening
pub mod Retention
mod Tests
