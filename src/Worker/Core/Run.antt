-- ===== src/Worker/Core/Run.antt =====
-- crawler_core.rs, `run`: how the queue and the counter of active tasks are seeded, and when the coordinator
-- ends the crawl. No other process is taken to change the queue while it is seeded.
pub mod Seeded
pub mod Started
pub mod Drained
pub mod Simple
mod Tests
use polite_web_crawler.Prelude.{
  ℕ, zero, suc, ◌+◌, ◌%◌, ◌^◌, Bool, true, false, ◌||◌, Option, none, some, String, List, [], ◌∷◌,
  ◌==◌, leb, if◌then◌else◌,
}
use polite_web_crawler.Common.Text.Trim.{split_whitespace}
use polite_web_crawler.Common.Outcome.{Outcome, ok, err, panic, ◌>>=◌}
use polite_web_crawler.Common.Url.{Parsed, parsed, refused, UrlApi, parse_outcome}
use polite_web_crawler.Common.Queue.{Link, push, push_bulk, is_empty, queue_len, clean_queue}
use polite_web_crawler.Worker.Core.Loop.{Shared}

-- What the calls answer: those of the queue in their order, `insert_url`, and the file of seeds.
pub record SeedCalls : Type 0 where
  pub links : ℕ → Link
  pub insert : String → Outcome Bool
  pub seed_file : Outcome String

-- `active_tasks.store(n)`: the state in which the workers start. `none`, below, is an early `Ok(())`.
unfoldable pub seeded : ℕ → List String → Shared
seeded n queue = record { queue = queue; active_tasks = n; stray = 0; leaked = 0 }

module _ {Url : Type 0} (api : UrlApi Url) (calls : SeedCalls) where
  open calls use {links, insert, seed_file}

  abbrev pub Start : Type 0
  Start = Outcome (Option Shared)

  start_inserted : Shared → Outcome Bool → Start
  start_inserted s (ok b) = ok (some s)
  start_inserted s (err e) = err e
  start_inserted s panic = panic

  start_pushed : String → Outcome (Unit {0}) × List String → Start
  unfolding start_inserted seeded
  start_pushed url (ok _, queue) = start_inserted (seeded 1 queue) (insert url)
  start_pushed url (err e, queue) = err e
  start_pushed url (panic, queue) = panic

  start_parsed : Outcome Url → List String → Start
  unfolding start_pushed
  start_parsed (ok u) queue = start_pushed (api.as_str u) (push (links 2) (api.as_str u) queue)
  start_parsed (err e) queue = err e
  start_parsed panic queue = panic

  start_cleaned : String → Outcome (Unit {0}) × List String → Start
  unfolding start_parsed
  start_cleaned u (ok _, queue) = start_parsed (parse_outcome (api.parse u)) queue
  start_cleaned u (err e, queue) = err e
  start_cleaned u (panic, queue) = panic

  -- With a URL to start at: a queue that is not empty is cleaned.
  start_checked : String → Outcome Bool × List String → Start
  unfolding start_parsed start_cleaned
  start_checked u (ok true, queue) = start_parsed (parse_outcome (api.parse u)) queue
  start_checked u (ok false, queue) = start_cleaned u (clean_queue (links 1) queue)
  start_checked u (err e, queue) = err e
  start_checked u (panic, queue) = panic

  -- The words of the file of seeds that are URLs. Each is inserted in the seen URLs, and an error of
  -- that is passed over.
  seed_urls : List String → List String
  seed_urls [] = []
  seed_urls (w ∷ ws) =
      let rest = seed_urls ws in elim (api.parse w) [ parsed u ↦ w ∷ rest | refused e ↦ rest ]

  counted_in : Outcome ℕ × List String → Start
  unfolding seeded
  counted_in (ok n, queue) = ok (some (seeded n queue))
  counted_in (err e, queue) = err e
  counted_in (panic, queue) = panic

  seed_filtered : List String → List String → Start
  unfolding counted_in
  seed_filtered [] queue = ok none
  seed_filtered (u ∷ us) queue = counted_in (push_bulk (links 1) (u ∷ us) queue)

  seed_read : Outcome String → List String → Start
  unfolding seed_filtered seed_urls
  seed_read (ok seed) queue = seed_filtered (seed_urls (split_whitespace seed)) queue
  seed_read (err e) queue = err e
  seed_read panic queue = panic

  -- With no URL to start at: the queue of an earlier crawl goes on.
  seed_checked : Outcome Bool × List String → Start
  unfolding seed_read counted_in
  seed_checked (ok true, queue) = seed_read seed_file queue
  seed_checked (ok false, queue) = counted_in (queue_len (links 1) queue)
  seed_checked (err e, queue) = err e
  seed_checked (panic, queue) = panic

  unfoldable pub seed : Option String → List String → Start
  unfolding start_checked seed_checked
  seed (some start_url) queue = start_checked start_url (is_empty (links 0) queue)
  seed none queue = seed_checked (is_empty (links 0) queue)

-- The coordinator's test, once a second: on the counters of active tasks and of pages.
unfoldable pub ends_crawl : Option ℕ → ℕ → ℕ → Bool
ends_crawl none active_tasks pages_crawled = active_tasks == 0
ends_crawl (some l) active_tasks pages_crawled = active_tasks == 0 || leb (l % 2 ^ 64) pages_crawled
