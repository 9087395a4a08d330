-- ===== src/Storage.antt =====
-- core/drivers/storage.cpp and core/drivers/storage.h: partitions of block devices.
pub mod Defs
pub mod Paths
pub mod Mounting
pub mod Volumes
pub mod Partitions
mod Tests
mod PathTests
