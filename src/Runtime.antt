-- ===== src/Runtime.antt =====
-- The crate heim-runtime.
pub mod Fs
pub mod Roots
pub mod Task
