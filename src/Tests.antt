-- ===== src/Tests.antt =====
-- Tests and concrete instances.
mod Machine
mod Fields
mod Handle
mod Host
mod Counters
mod Net
mod Common
mod Process
mod ProcArgs
mod Virt
mod Disk
mod Memory
mod Cpu
mod Streams
mod Windows
mod Mac
