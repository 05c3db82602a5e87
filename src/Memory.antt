-- ===== src/Memory.antt =====
-- The crate heim-memory. `Information` is the type of the crate uom; its default and the
-- conversion from kilobytes are parameters.
pub mod Value
pub mod Meminfo
pub mod Swap
pub mod Status
pub mod Pages
