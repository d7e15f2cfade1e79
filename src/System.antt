-- ===== src/System.antt =====
-- crawler_core.rs, `worker_loop`, and storage_service/src/main.rs, the push of sitemaps, as one system: several
-- workers and the storage service over one queue and one filter of seen URLs. A step is one operation on
-- what they share, so that the calls for the links of several pages interleave.
pub mod Finite
pub mod Weights
pub mod Spends
pub mod Sitemaps
pub mod Ends
pub mod Strays
pub mod Refines
pub mod Ledger
mod Tests
use polite_web_crawler.Prelude.{
  ℕ, replicate, zero, suc, ◌+◌, Bool, true, false, String, List, [], ◌∷◌, ◌++◌,
}
use polite_web_crawler.Common.Outcome.{Outcome, ok, err, panic}
use polite_web_crawler.Common.Url.{Parsed}
use polite_web_crawler.Common.Queue.{Link}
use polite_web_crawler.Storage.Service.{Env, CrawlerStorage}
use polite_web_crawler.Storage.Consumer.{push_new}
use polite_web_crawler.Worker.Core.Loop.{
  Phase, idle, guarded, Shared, Event, processed, unwinds, strays_in, worker_step,
}
use polite_web_crawler.Worker.Core.Links.{Contact, insert_url, sort, dedup}

-- Where a worker stands: in the loop, or, behind the processing of a URL, in the loop over its links, with
-- those that are left and those that are kept.
pub data Place (Url : Type 0) : Type 0 where
  looping : Phase Url → Place Url
  filtering : List Url → List String → Place Url

-- What a worker does next: an operation of the loop; the end of `process_single_url`, with its outcome; the
-- call of `insert_url` for the next link, or, with none left, the step behind the loop over them.
pub data Act (Url : Type 0) : Type 0 where
  operates : Event → Act Url
  finds : Outcome (List Url) → Act Url
  asks : Contact → Act Url

-- A worker acts; the consumer handles a sitemap of a domain; any other call of the storage service, which
-- leaves the seen URLs.
pub data Step (Url F32 Filter Store : Type 0) : Type 0 where
  acts : ℕ → Act Url → Step Url F32 Filter Store
  sitemap : Parsed Url → (ℕ → Link) → Step Url F32 Filter Store
  elsewhere : CrawlerStorage F32 Filter Store → Step Url F32 Filter Store

module _ {Url Robot F32 Filter Store : Type 0} (env : Env Url Robot F32 Filter Store) where
  -- `returns`, the number of calls of `process_single_url` that are over, is not in the code.
  pub record World : Type 0 where
    pub storage : CrawlerStorage F32 Filter Store
    pub shared : Shared
    pub places : List (Place Url)
    pub returns : ℕ

  abbrev pub Moved : Type 0
  Moved = CrawlerStorage F32 Filter Store × Shared × Place Url

  looped : CrawlerStorage F32 Filter Store → Shared × Phase Url → Moved
  looped st (s, p) = (st, s, looping p)

  -- Behind `process_single_url`.
  found : CrawlerStorage F32 Filter Store → Shared → Outcome (List Url) → Moved
  unfolding looped worker_step
  found st s (ok outbound_links) =
      (st, s, filtering (dedup env.urls (sort env.urls outbound_links)) [])
  found st s (err e) = looped st (worker_step env.urls s guarded (processed []))
  found st s panic = looped st (worker_step env.urls s guarded unwinds)

  -- Behind the call of `insert_url` for a link.
  asked :
      Shared
      → String
      → List Url
      → List String
      → Outcome Bool × CrawlerStorage F32 Filter Store
      → Moved
  unfolding looped worker_step
  asked s u us kept (ok true, st) = (st, s, filtering us kept)
  asked s u us kept (ok false, st) = (st, s, filtering us (kept ++ u ∷ []))
  asked s u us kept (err e, st) = (st, s, filtering us kept)
  asked s u us kept (panic, st) = looped st (worker_step env.urls s guarded unwinds)

  -- An act that does not fit the worker's place changes nothing.
  unfoldable pub act : CrawlerStorage F32 Filter Store → Shared → Place Url → Act Url → Moved
  unfolding looped found asked insert_url
  act st s (looping guarded) (finds outcome) = found st s outcome
  act st s (looping guarded) a = (st, s, looping guarded)
  act st s (looping p) (operates e) = looped st (worker_step env.urls s p e)
  act st s (filtering (u ∷ us) kept) (asks c) =
      asked s (env.urls.as_str u) us kept (insert_url env st c (env.urls.as_str u))
  act st s (filtering [] kept) (asks c) =
      looped st (worker_step env.urls s guarded (processed kept))
  act st s p a = (st, s, p)

  -- 1 where a call of `process_single_url` returns or panics.
  pub returned : Place Url → Act Url → ℕ
  returned (looping guarded) (finds outcome) = 1
  returned p a = 0

  -- The act of the worker with a number.
  unfoldable pub act_of :
      ℕ
      → Act Url
      → CrawlerStorage F32 Filter Store
      → Shared
      → List (Place Url)
      → CrawlerStorage F32 Filter Store × Shared × List (Place Url) × ℕ
  unfolding act returned
  act_of k a st s [] = (st, s, [], 0)
  act_of zero a st s (p ∷ ps) = let (st', s', p') = act st s p a in (st', s', p' ∷ ps, returned p a)
  act_of (suc k) a st s (p ∷ ps) =
      let (st', s', ps', n) = act_of k a st s ps in (st', s', p ∷ ps', n)

  -- The queue as `push_new` leaves it; its URLs are not counted.
  pushed_by : World → CrawlerStorage F32 Filter Store × List String → World
  unfolding strays_in
  pushed_by w (st, queue) = record w { storage = st; shared = strays_in queue w.shared }

  unfoldable pub step : Step Url F32 Filter Store → World → World
  unfolding act_of pushed_by
  step (acts k a) w =
      let (st, s, ps, n) = act_of k a w.storage w.shared w.places in
      record w { storage = st; shared = s; places = ps; returns = w.returns + n }
  step (sitemap url links) w = pushed_by w (push_new env (w.storage, w.shared.queue) links url)
  step (elsewhere st) w = record w { storage = record st { seen_urls = w.storage.seen_urls } }

  unfoldable pub steps : List (Step Url F32 Filter Store) → World → World
  unfolding step
  steps [] w = w
  steps (e ∷ es) w = steps es (step e w)

  -- What `run` starts from: workers before their first pop.
  abbrev pub starting : CrawlerStorage F32 Filter Store → Shared → ℕ → World
  starting st s tokio_workers = record {
    storage = st;
    shared = s;
    places = replicate tokio_workers (looping idle);
    returns = 0;
  }
