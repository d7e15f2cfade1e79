-- ===== src/Worker/Core/Loop.antt =====
-- crawler_core.rs, `worker_loop`: several workers on one queue and one counter of active tasks, a `usize` of
-- 64 bits. A run is a list of events in the order in which they happen; an event is the next atomic
-- operation of a worker, with what the connection and the calls in it answer.
pub mod Balance
pub mod Ends
mod Tests
use polite_web_crawler.Prelude.{
  ℕ, zero, suc, ◌+◌, ◌-◌, ◌%◌, ◌^◌, Bool, true, false, Option, none, some, String, List, [], ◌∷◌,
  ◌++◌, ◌==◌, length, if◌then◌else◌,
}
use polite_web_crawler.Common.Outcome.{Outcome, ok, err, panic}
use polite_web_crawler.Common.Url.{UrlApi}
use polite_web_crawler.Common.Queue.{Link, push, push_bulk, pop_front}

-- Where a worker stands: before `pop_front`; with a URL; behind `TaskGuard`, while the URL is processed;
-- at an attempt to push new URLs; behind the push, before the count; behind the count; out of the loop.
pub data Phase (Url : Type 0) : Type 0 where
  idle guarded counted ended : Phase Url
  holding : Url → Phase Url
  pushing : ℕ → List String → Phase Url
  pushed : ℕ → Phase Url

-- What the workers share. `stray` and `leaked` are not in the code: they count the URLs that got into
-- the queue without being counted as active, and those that were counted and have been lost.
pub record Shared : Type 0 where
  pub queue : List String
  pub active_tasks : ℕ
  pub stray : ℕ
  pub leaked : ℕ

-- `popped`: the reply of the queue. `tried`: whether `try_acquire` grants, and the reply to the push
-- back. `processed`: the new URLs, none for an error. `replied`: the reply to the push of new URLs.
-- `proceeds`: the worker goes on. `unwinds`: a call panics, which still drops the guard, where there is
-- one. `cancelled`: the worker sees the shutdown.
pub data Event : Type 0 where
  popped : Link → Event
  tried : Bool → Link → Event
  processed : List String → Event
  replied : Link → Event
  proceeds unwinds cancelled : Event

-- `active_tasks.fetch_sub(1)` and `fetch_add(n)`
unfoldable pub fetch_sub : Shared → Shared
fetch_sub s = record s { active_tasks = (s.active_tasks + (2 ^ 64 - 1)) % 2 ^ 64 }

unfoldable pub fetch_add : ℕ → Shared → Shared
fetch_add n s = record s { active_tasks = (s.active_tasks + n) % 2 ^ 64 }

-- The queue changes although the call fails.
unfoldable pub lost_from : List String → Shared → Shared
lost_from queue s = record s { queue = queue; leaked = s.leaked + (length s.queue - length queue) }

unfoldable pub strays_in : List String → Shared → Shared
strays_in queue s = record s { queue = queue; stray = s.stray + (length queue - length s.queue) }

module _ {Url : Type 0} where
  -- `match task_queue.pop_front().await?`
  unfoldable pub after_pop : Shared → Outcome (Option Url) × List String → Shared × Phase Url
  unfolding lost_from
  after_pop s (ok (some url), queue) = (record s { queue = queue }, holding url)
  after_pop s (ok none, queue) = (record s { queue = queue }, ended)
  after_pop s (err e, queue) = (lost_from queue s, ended)
  after_pop s (panic, queue) = (lost_from queue s, ended)

  -- The URL goes back into the queue, or is given up.
  unfoldable pub after_requeue : Shared → Outcome (Unit {0}) × List String → Shared × Phase Url
  unfolding fetch_sub strays_in
  after_requeue s (ok _, queue) = (record s { queue = queue }, idle)
  after_requeue s (err e, queue) = (fetch_sub (strays_in queue s), idle)
  after_requeue s (panic, queue) = (fetch_sub (strays_in queue s), ended)

  -- An attempt to push the new URLs; behind the third failure the worker returns the error.
  unfoldable pub after_push :
      Shared → ℕ → List String → Outcome ℕ × List String → Shared × Phase Url
  unfolding fetch_sub strays_in
  after_push s i urls (ok n, queue) = (record s { queue = queue }, pushed n)
  after_push s i urls (panic, queue) = (fetch_sub (strays_in queue s), ended)
  after_push s i urls (err e, queue) =
      if i == 3
      then (fetch_sub (strays_in queue s), ended)
      else (strays_in queue s, pushing (suc i) urls)

  -- With no domain the URL is given up, else the rate limiter decides.
  unfoldable pub after_try :
      UrlApi Url → Shared → Url → Option String → Bool → Link → Shared × Phase Url
  unfolding fetch_sub push after_requeue
  after_try api s url none granted link = (fetch_sub s, idle)
  after_try api s url (some domain) true link = (s, guarded)
  after_try api s url (some domain) false link =
      after_requeue s (push link (api.as_str url) s.queue)

  -- The next operation of a worker. An event that does not fit the worker's place changes nothing.
  unfoldable pub worker_step : UrlApi Url → Shared → Phase Url → Event → Shared × Phase Url
  unfolding after_pop pop_front after_try after_push push_bulk fetch_sub fetch_add
  worker_step api s idle (popped link) = after_pop s (pop_front api link s.queue)
  worker_step api s (holding url) (tried granted link) =
      after_try api s url (api.domain url) granted link
  worker_step api s guarded (processed []) = (fetch_sub s, idle)
  worker_step api s guarded (processed (url ∷ urls)) = (s, pushing 1 (url ∷ urls))
  worker_step api s (pushing i urls) (replied link) =
      after_push s i urls (push_bulk link urls s.queue)
  worker_step api s (pushed n) proceeds = (fetch_add n s, counted)
  worker_step api s counted proceeds = (fetch_sub s, idle)
  worker_step api s guarded unwinds = (fetch_sub s, ended)
  worker_step api s (holding url) unwinds = (record s { leaked = suc s.leaked }, ended)
  worker_step api s idle cancelled = (s, ended)
  worker_step api s phase event = (s, phase)

  -- The event of the worker with a number.
  unfoldable pub advance :
      UrlApi Url → ℕ → Event → Shared → List (Phase Url) → Shared × List (Phase Url)
  unfolding worker_step
  advance api k event s [] = (s, [])
  advance api zero event s (phase ∷ phases) =
      let (s', phase') = worker_step api s phase event in (s', phase' ∷ phases)
  advance api (suc k) event s (phase ∷ phases) =
      let (s', phases') = advance api k event s phases in (s', phase ∷ phases')

-- A worker's event, or a push by the storage service, which does not count it.
pub data Happening : Type 0 where
  at_worker : ℕ → Event → Happening
  outside : String → Happening

unfoldable pub happen :
    {Url : Type 0} → UrlApi Url → Happening → Shared × List (Phase Url) → Shared × List (Phase Url)
unfolding advance strays_in
happen api (at_worker k event) (s, phases) = advance api k event s phases
happen api (outside url) (s, phases) = (strays_in (s.queue ++ url ∷ []) s, phases)

unfoldable pub run :
    {Url : Type 0}
    → UrlApi Url
    → List Happening
    → Shared × List (Phase Url)
    → Shared × List (Phase Url)
unfolding happen
run api [] x = x
run api (h ∷ hs) x = run api hs (happen api h x)
