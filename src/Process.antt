-- ===== src/Process.antt =====
-- The crate heim-process.
pub mod Env
pub mod Command
pub mod Stat
pub mod Statm
pub mod IoCounters
pub mod Errors
pub mod System
pub mod Signal
pub mod Unix
pub mod Procfs
pub mod Handle
pub mod ProcArgs
pub mod Windows
pub mod Mac
