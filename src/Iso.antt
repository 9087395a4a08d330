-- ===== src/Iso.antt =====
-- core/filesystems/iso_9660.cpp and core/filesystems/iso_9660.h: the file system of a CD.
pub mod Layout
pub mod Probe
pub mod Names
pub mod Directories
pub mod Support
pub mod Probing
pub mod Listing
pub mod Versions
pub mod FileData
pub mod Contents
mod Tests
