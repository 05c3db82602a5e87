-- ===== src/Cpu.antt =====
-- The crate heim-cpu.
pub mod Count
pub mod Stats
pub mod Times
pub mod Freq
pub mod Usage
pub mod Processors
