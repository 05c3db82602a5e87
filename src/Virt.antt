-- ===== src/Virt.antt =====
-- The crate heim-virt, for Linux: heim-virt/src/lib.rs and the probes of src/sys/linux. A probe is
-- its result; the error `()` is `tt`.
pub mod Kinds
pub mod Containers
pub mod Machines
pub mod Names
pub mod InitEnv
pub mod Detect
