-- ===== src/Worker/Core.antt =====
-- crates/worker_service/src/core/crawler_core.rs
pub mod Loop
pub mod Single
pub mod Links
pub mod Run
pub mod Shutdown
