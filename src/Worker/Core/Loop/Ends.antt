-- ===== src/Worker/Core/Loop/Ends.antt =====
-- crawler_core.rs, `worker_loop` and the coordinator of `run`, which ends the crawl at a counter of 0.
use polite_web_crawler.Prelude.{
  ℕ, zero, suc, ◌+◌, ◌^◌, ◌<◌, ◌≡◌, refl, Bool, true, false, Option, none, some, String, List, [],
  ◌∷◌, ◌++◌, length, length-append, arith,
}
use polite_web_crawler.Common.Url.{UrlApi}
use polite_web_crawler.Common.Queue.{Link, push, push_bulk, pop_front}
use polite_web_crawler.Worker.Core.Loop.Balance.{
  holds, uncounted, all_held, all_uncounted, Balance, fetch_sub-Balance, fetch_add-Balance,
  strays_in-Balance, Behind, pop_front-Popped, after_pop-Behind, push-Grown, push_bulk-Grown,
  after_requeue-Behind, after_push-Behind,
}
use polite_web_crawler.Worker.Core.Loop.{
  Phase, idle, guarded, counted, holding, pushing, pushed, Shared, Event, popped, tried, processed,
  replied, proceeds, unwinds, cancelled, after_try, worker_step, advance, Happening, at_worker,
  outside, happen, run,
}

module _ {Url : Type 0} (api : UrlApi Url) where
  after_try-Behind :
      (s : Shared) (url : Url) (domain : Option String) (granted : Bool) (link : Link)
      (held rest : ℕ)
      → Balance s (suc held) rest
      → Behind api (after_try api s url domain granted link) held rest
  unfolding after_try
  after_try-Behind s url none granted link held rest h =
      omega (arith, fetch_sub-Balance s held rest h)
  after_try-Behind s url (some d) true link held rest h = omega arith
  after_try-Behind s url (some d) false link held rest h =
      after_requeue-Behind api s (push link (api.as_str url) s.queue) held rest
        (push-Grown api link (api.as_str url) s.queue) h

  worker_step-Behind :
      (s : Shared) (p : Phase Url) (e : Event) (held rest : ℕ)
      → Balance s (holds p + held) (uncounted p + rest)
      → Behind api (worker_step api s p e) held rest
  unfolding worker_step
  worker_step-Behind s idle (popped link) held rest h =
      after_pop-Behind api s (pop_front api link s.queue) held rest
        (pop_front-Popped api link s.queue) (omega arith)
  worker_step-Behind s (holding url) (tried granted link) held rest h =
      after_try-Behind s url (api.domain url) granted link held rest (omega arith)
  worker_step-Behind s guarded (processed []) held rest h =
      omega (arith, fetch_sub-Balance s held rest (omega arith))
  worker_step-Behind s guarded (processed (url ∷ urls)) held rest h = h
  worker_step-Behind s (pushing i urls) (replied link) held rest h =
      after_push-Behind api s i urls (push_bulk link urls s.queue) held rest
        (push_bulk-Grown api link urls s.queue) (omega arith)
  worker_step-Behind s (pushed n) proceeds held rest h =
      omega (arith, fetch_add-Balance n s (suc held) rest (omega arith))
  worker_step-Behind s counted proceeds held rest h =
      omega (arith, fetch_sub-Balance s held rest (omega arith))
  worker_step-Behind s guarded unwinds held rest h =
      omega (arith, fetch_sub-Balance s held rest (omega arith))
  worker_step-Behind s (holding url) unwinds held rest h = omega arith
  worker_step-Behind s idle cancelled held rest h = h
  worker_step-Behind s p e held rest h = h

  advance-Balance :
      (k : ℕ) (e : Event) (s : Shared) (ps : List (Phase Url)) (held rest : ℕ)
      → Balance s (all_held ps + held) (all_uncounted ps + rest)
      → Balance
          (advance api k e s ps).0
          (all_held (advance api k e s ps).1 + held)
          (all_uncounted (advance api k e s ps).1 + rest)
  unfolding advance
  advance-Balance k e s [] held rest h = h
  advance-Balance zero e s (p ∷ ps) held rest h =
      omega (
        arith,
        worker_step-Behind s p e (all_held ps + held) (all_uncounted ps + rest) (omega arith),
      )
  advance-Balance (suc k) e s (p ∷ ps) held rest h =
      omega (arith, advance-Balance k e s ps (holds p + held) (uncounted p + rest) (omega arith))

  happen-Balance :
      (h : Happening) (x : Shared × List (Phase Url))
      → Balance x.0 (all_held x.1) (all_uncounted x.1)
      → Balance (happen api h x).0 (all_held (happen api h x).1) (all_uncounted (happen api h x).1)
  unfolding happen
  happen-Balance (at_worker k e) (s, ps) b =
      omega (arith, advance-Balance k e s ps 0 0 (omega arith))
  happen-Balance (outside url) (s, ps) b =
      strays_in-Balance (s.queue ++ url ∷ []) s (all_held ps) (all_uncounted ps)
        (omega (arith, length-append s.queue (url ∷ []))) b

  -- The counter of active tasks stays in balance under every interleaving of workers, connections that
  -- fail in any way and pushes from outside: modulo 2 ^ 64, the counter with the URLs that are pushed
  -- and not yet counted, and those that never will be, is the length of the queue with the URLs that
  -- workers hold and those that have been lost. Stated from a state in balance.
  pub run-Balance :
      (hs : List Happening) (x : Shared × List (Phase Url))
      → Balance x.0 (all_held x.1) (all_uncounted x.1)
      → Balance (run api hs x).0 (all_held (run api hs x).1) (all_uncounted (run api hs x).1)
  unfolding run
  run-Balance [] x b = b
  run-Balance (h ∷ hs) x b = run-Balance hs (happen api h x) (happen-Balance h x b)

  none_left : (queue : List String) → length queue ≡ 0 → queue ≡ []
  none_left [] h = refl
  none_left (url ∷ queue) h = ground arith

  -- When the coordinator may trust a counter of 0: if in a run from a state in balance no worker stands
  -- between a push and its count, no URL has got into the queue uncounted, and fewer than 2 ^ 64 URLs
  -- are queued, held or lost, then a counter of 0 means that the queue is empty and that no worker
  -- holds a URL.
  pub zero_means_done :
      (hs : List Happening) (x : Shared × List (Phase Url))
      → Balance x.0 (all_held x.1) (all_uncounted x.1)
      → all_uncounted (run api hs x).1 ≡ 0
      → (run api hs x).0.stray ≡ 0
      → length (run api hs x).0.queue + all_held (run api hs x).1 + (run api hs x).0.leaked < 2 ^ 64
      → (run api hs x).0.active_tasks ≡ 0
      → ((run api hs x).0.queue ≡ []) × (all_held (run api hs x).1 ≡ 0)
  zero_means_done hs x b no_gap no_stray small zero_tasks =
      let end = run-Balance hs x b in
      (none_left (run api hs x).0.queue (omega (arith, end)), omega (arith, end))
