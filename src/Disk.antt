-- ===== src/Disk.antt =====
-- The crate heim-disk.
pub mod FileSystem
pub mod Partitions
pub mod Counters
pub mod Usage
pub mod Drives
pub mod Volumes
