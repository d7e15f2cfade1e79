-- ===== src/Lib.antt =====
-- A verification of the polite web crawler: a worker that fetches pages and a storage service that keeps
-- them.
--
-- The program's parts. The worker (crates/worker_service) takes URLs from a queue in Redis, asks the storage
-- whether a URL may be fetched, keeps its requests to a domain apart, fetches, and sends what it found to the
-- storage as events. The storage service (crates/storage_service) answers from a cache of domains in front of
-- a database, and saves the events; a page whose text is close to a known one is skipped. What both
-- exchange is in crates/common.
--
-- Files, and the code that each models:
--   Prelude                   shared names, tests, lists, association lists (Prelude/Dict)
--   Common/Text, Text/Utf8,   str and char functions of Rust's standard library, on code points
--   Text/Trim                 and on texts
--   Common/Errors, Outcome    crates/common/src/error/crawler_error.rs, and Result with panics
--   Common/Data               crates/common/src/network/url_info.rs, crates/common/src/parsers/parsed_data.rs
--   Common/Url                the crates url and texting_robots as interfaces; Url/Simple has small instances
--   Storage/Dedup             crates/storage_service/src/storage/content_deduplicator.rs: init, insert,
--                             is_duplicate; Dedup/Hash is calculate_hash; Dedup/Index and Dedup/Recall prove
--                             the search by bands; Dedup/Repeat is on texts that come again
--   Storage/Cache             crates/storage_service/src/storage/domain_cache.rs
--   Storage/Db                crates/storage_service/src/storage/db.rs: the tables, the SQL statements, the
--                             loops with backoff; Db/Casts are the casts between u64 and i64; Db/Domains,
--                             Db/Pages and Db/Hashes are on the two tables
--   Storage/Seen              crates/storage_service/src/storage/seen_urls.rs
--   Storage/Service           crates/storage_service/src/storage/crawler_storage.rs: the operations on the
--                             whole storage; Service/Coherence is on the cache, Service/Access on the answers
--                             to the worker, Service/Pages on page events, Service/Stored on what a success
--                             of one means, Service/Obeyed on what an answer means for robots.txt, Service/Restart on what
--                             a start on saved tables knows
--   Storage/Grpc              crates/storage_service/src/grpc/crawler_storage_grpc_service.rs
--   Storage/Consumer          crates/storage_service/src/main.rs: process_stream_entry and the handling of an
--                             entry in run_redis_stream_consumer; Consumer/Group is its loop with the group
--                             in Redis, Consumer/Acknowledged is on what an acknowledgement means
--   Common/Queue              crates/common/src/task_queue/task_queue.rs
--   Common/Rpc                tonic and the code generated from proto/storage.proto, as parameters
--   Worker/RateLimiter        crates/worker_service/src/network/domain_rate_limiter.rs
--   Worker/Fetcher            crates/worker_service/src/network/link_fetcher.rs; Fetcher/Retry is with_retry,
--                             Fetcher/Wire the answers of the HTTP client, Fetcher/Domains is on
--                             what get_domain_data is about
--   Worker/Client             crates/worker_service/src/storage_client; Client/EndToEnd joins it with the service
--   Worker/Html               crates/worker_service/src/parsers/html_parser.rs, over what the selectors find
--   Worker/Sitemaps           crates/worker_service/src/parsers/sitemaps_parser.rs, over the events of the reader;
--                             Sitemaps/Origin joins it with the fetcher
--   Worker/Simple             small instances of what the worker calls, for the tests
--   Worker/Core/Loop          crates/worker_service/src/core/crawler_core.rs: worker_loop, several workers on one
--                             queue and one counter, a run being a list of events in any order
--   Worker/Core/Single        process_single_url, handle_unknown_domain, handle_allowed_domain,
--                             download_and_parse_link, save_results_to_db of the same file; Single/Allowed,
--                             Single/Counted and Single/Learned join it with the storage service
--   Worker/Core/Links         what worker_loop does with the links of a page: sort, dedup, insert_url
--   Worker/Core/Run           how run seeds the queue and the counter, and the coordinator's test
--   Worker/Core/Shutdown      the coordinator with its token, and the workers that look at it; the number of
--                             pops is not kept by the code
--   System                    worker_loop of crawler_core.rs with the handler of insert_url and the push of sitemaps
--                             in crates/storage_service/src/main.rs, as one system of interleaved steps over one
--                             queue and one filter of seen URLs; System/Weights, System/Spends,
--                             System/Sitemaps and System/Ends count what it can still do over a finite web.
--                             System/Strays and System/Refines see it as a run of Worker/Core/Loop;
--                             System/Ledger keeps a record of the URLs found and taken up, which the
--                             code does not
--
-- How the state corresponds. A struct is a record with the source's fields; what it shares behind an Arc, a
-- lock or an atomic is its value, and an operation returns the value afterwards. Operations that await are
-- modelled as a whole, one after the other, but for the worker loop and the coordinator, whose atomic
-- operations interleave.
-- What another crate does (the cache, the Bloom filter, the hash, URLs, robots.txt, floats, HTTP statuses,
-- XML, JSON) is a parameter, a record of functions, with the documented laws that a theorem needs in a
-- second record (IsCache, IsBloom, IsHamming, IsDocumented, IsWireEnum, IsOrder, IsJson). What the database
-- driver does at an attempt is an argument: it works, fails before the statement has run, or fails
-- behind it; what the network answers to an attempt is an argument too.
--
-- Numbers are natural numbers. Hashes are 64 bits wide, windows 16 bits (taken modulo 2 ^ 16), the counter of
-- saved pages wraps at 2 ^ 64; durations and instants are in nanoseconds, and a subtraction of
-- instants below the start of the clock is none, which is the panic. The counter of active tasks wraps
-- at 2 ^ 64 too; beside it, the worker loop counts the URLs that got into the queue uncounted (stray) and
-- the counted ones that were lost (leaked), which the code does not.
--
-- Where the model is simpler. stray, leaked, and the lists of System/Ledger are kept by no code, and stray is
-- never lowered, so that it counts all URLs that have been pushed uncounted. std's sort and dedup are an insertion
-- sort and a pass over it, which agree with them for a total order. A SELECT without ORDER BY answers in the
-- order of insertion. std's Instant panics below the clock's start on some platforms only; theorems on it are
-- about later calls. While the queue is seeded, no other process is taken to change it.
--
-- Loops are structural recursion on the bands, the rows or the attempts left, of which there are as
-- many as the source's ranges have, so that no fuel is needed.
--
-- Not modelled: the entry points with the command line, the environment and the signals, generated code
-- and build scripts, the opening of connections and the spawning of tasks, which hold no logic of the
-- crawler's own. Sleeps are counted in the loops of the database only. Prelude, Common/Text and
-- Common/Url/Simple model no file of the repository.
pub mod Prelude
pub mod Common
pub mod Storage
pub mod Worker
pub mod System
