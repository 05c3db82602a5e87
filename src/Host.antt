-- ===== src/Host.antt =====
-- The crate heim-host.
pub mod BootTime
pub mod Users
pub mod Platform
pub mod Windows
