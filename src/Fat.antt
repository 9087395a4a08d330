-- ===== src/Fat.antt =====
-- core/filesystems/fat.cpp and fat.h: FAT12, FAT16 and FAT32 volumes.
pub mod Layout
pub mod Probe
pub mod Checks
pub mod Geometry
pub mod Entries
pub mod NameCopies
pub mod ShortNames
pub mod NameParts
pub mod LongNames
pub mod Clusters
pub mod Table
pub mod Chains
pub mod Files
pub mod Scans
pub mod Lookup
pub mod FileData
pub mod Rounds
pub mod Reads
pub mod Volume
mod NameTests
mod Tests
