-- ===== src/Common.antt =====
-- The crate heim-common: its errors, the fallible iterators, and the stream combinator.
pub mod Errors
pub mod Iter
pub mod ChooseChain
pub mod Int
pub mod CString
pub mod Memory
