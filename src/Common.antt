-- ===== src/Common.antt =====
-- crates/common, the text functions of the standard library that the program uses, and the crates
-- that it calls, as records of the operations that are called.
pub mod Text
pub mod Errors
pub mod Outcome
pub mod Url
pub mod Data
pub mod Queue
pub mod Rpc
