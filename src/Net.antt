-- ===== src/Net.antt =====
-- The crate heim-net.
pub mod Counters
pub mod Nic
pub mod Routes
pub mod Adapters
