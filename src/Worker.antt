-- ===== src/Worker.antt =====
-- crates/worker_service: the network, the parsers, the client of the storage, and the worker loop.
pub mod RateLimiter
pub mod Fetcher
pub mod Client
pub mod Core
pub mod Html
pub mod Sitemaps
pub mod Simple
