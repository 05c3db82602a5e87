-- ===== src/Cpu/Count.antt =====
-- heim-cpu/src/sys/linux/count
pub mod Logical
pub mod Physical
