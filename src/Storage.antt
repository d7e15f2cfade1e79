-- ===== src/Storage.antt =====
-- crates/storage_service: the database, the caches and the deduplication.
pub mod Dedup
pub mod Cache
pub mod Db
pub mod Seen
pub mod Service
pub mod Grpc
pub mod Consumer
