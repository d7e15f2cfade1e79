-- ===== src/Worker/Core/Run/Seeded.antt =====
-- crawler_core.rs, `run`: the workers start from a counter in balance, and a crawl without new links ends.
use polite_web_crawler.Prelude.{
  ℕ, zero, suc, ◌≡◌, refl, subst, Bool, false, Option, none, some, String, List, [], ◌∷◌, ◌==◌,
  length, replicate, arith,
}
use polite_web_crawler.Common.Outcome.{Outcome, ok, err, panic}
use polite_web_crawler.Common.Url.{UrlApi, parse_outcome}
use polite_web_crawler.Common.Queue.{
  Link, up, lost_request, lost_reply, command, push, push_bulk, is_empty, queue_len, clean_queue,
}
use polite_web_crawler.Worker.Core.Loop.{idle, Shared, Happening, run}
use polite_web_crawler.Worker.Core.Loop.Balance.{all_held, all_uncounted, Balance}
use polite_web_crawler.Worker.Core.Loop.Ends.{run-Balance}
use polite_web_crawler.Worker.Core.Run.{
  SeedCalls, seeded, Start, start_inserted, start_pushed, start_parsed, start_cleaned,
  start_checked, counted_in, seed_filtered, seed_read, seed_checked, seed,
}

module _ {Url : Type 0} (api : UrlApi Url) (calls : SeedCalls) where
  -- A start that has counted every URL in the queue.
  abbrev Counts : Start api calls → Type 0
  Counts r =
      (s : Shared)
      → r ≡ ok (some s)
      → (s.active_tasks ≡ length s.queue) × (s.stray ≡ 0) × (s.leaked ≡ 0)

  start_inserted-Counts :
      (s : Shared) (r : Outcome Bool)
      → (s.active_tasks ≡ length s.queue) × (s.stray ≡ 0) × (s.leaked ≡ 0)
      → Counts (start_inserted api calls s r)
  unfolding start_inserted
  start_inserted-Counts s (ok b) c s' e =
      let same : s ≡ s' = cc e in
      subst (λ u. (u.active_tasks ≡ length u.queue) × (u.stray ≡ 0) × (u.leaked ≡ 0)) same c
  start_inserted-Counts s (err y) c s' e = cc e
  start_inserted-Counts s panic c s' e = cc e

  start_pushed-Counts :
      (l : Link) (text : String) → Counts (start_pushed api calls text (push l text []))
  unfolding start_pushed seeded push command
  start_pushed-Counts up text =
      start_inserted-Counts (seeded 1 (text ∷ [])) (calls.insert text) (refl, refl, refl)
  start_pushed-Counts (lost_request y) text = λ s e. cc e
  start_pushed-Counts (lost_reply y) text = λ s e. cc e

  start_parsed-Counts : (o : Outcome Url) → Counts (start_parsed api calls o [])
  unfolding start_parsed
  start_parsed-Counts (err y) = λ s e. cc e
  start_parsed-Counts panic = λ s e. cc e
  start_parsed-Counts (ok u) = start_pushed-Counts (calls.links 2) (api.as_str u)

  start_cleaned-Counts :
      (l : Link) (u : String) (queue : List String)
      → Counts (start_cleaned api calls u (clean_queue l queue))
  unfolding start_cleaned clean_queue command
  start_cleaned-Counts up u queue = start_parsed-Counts (parse_outcome (api.parse u))
  start_cleaned-Counts (lost_request y) u queue = λ s e. cc e
  start_cleaned-Counts (lost_reply y) u queue = λ s e. cc e

  start_checked-Counts :
      (l : Link) (u : String) (queue : List String)
      → Counts (start_checked api calls u (is_empty l queue))
  unfolding start_checked is_empty command
  start_checked-Counts up u [] = start_parsed-Counts (parse_outcome (api.parse u))
  start_checked-Counts up u (q ∷ qs) =
      rw (not_empty, start_checked) (start_cleaned-Counts (calls.links 1) u (q ∷ qs))
    where
      not_empty : (suc (length qs) == 0) ≡ false
      not_empty = ground arith
  start_checked-Counts (lost_request y) u queue = λ s e. cc e
  start_checked-Counts (lost_reply y) u queue = λ s e. cc e

  counted_in-Counts :
      (l : Link) (queue : List String) → Counts (counted_in api calls (queue_len l queue))
  unfolding counted_in seeded queue_len command
  counted_in-Counts up queue s e =
      let same : seeded (length queue) queue ≡ s = cc e in
      subst (λ u. (u.active_tasks ≡ length u.queue) × (u.stray ≡ 0) × (u.leaked ≡ 0)) same
        (refl, refl, refl)
  counted_in-Counts (lost_request y) queue s e = cc e
  counted_in-Counts (lost_reply y) queue s e = cc e

  pushed_in :
      (l : Link) (u : String) (us : List String)
      → Counts (counted_in api calls (push_bulk l (u ∷ us) []))
  unfolding counted_in seeded push_bulk command
  pushed_in up u us s e =
      let same : seeded (suc (length us)) (u ∷ us) ≡ s = cc e in
      subst (λ v. (v.active_tasks ≡ length v.queue) × (v.stray ≡ 0) × (v.leaked ≡ 0)) same
        (refl, refl, refl)
  pushed_in (lost_request y) u us s e = cc e
  pushed_in (lost_reply y) u us s e = cc e

  seed_filtered-Counts : (us : List String) → Counts (seed_filtered api calls us [])
  unfolding seed_filtered
  seed_filtered-Counts [] = λ s e. cc e
  seed_filtered-Counts (u ∷ us) = pushed_in (calls.links 1) u us

  seed_read-Counts : (o : Outcome String) → Counts (seed_read api calls o [])
  unfolding seed_read
  seed_read-Counts (ok text) = seed_filtered-Counts _
  seed_read-Counts (err y) = λ s e. cc e
  seed_read-Counts panic = λ s e. cc e

  seed_checked-Counts :
      (l : Link) (queue : List String) → Counts (seed_checked api calls (is_empty l queue))
  unfolding seed_checked is_empty command
  seed_checked-Counts up [] = seed_read-Counts calls.seed_file
  seed_checked-Counts up (q ∷ qs) =
      rw (not_empty, seed_checked) (counted_in-Counts (calls.links 1) (q ∷ qs))
    where
      not_empty : (suc (length qs) == 0) ≡ false
      not_empty = ground arith
  seed_checked-Counts (lost_request y) queue = λ s e. cc e
  seed_checked-Counts (lost_reply y) queue = λ s e. cc e

  seed-Counts :
      (start_url : Option String) (queue : List String) → Counts (seed api calls start_url queue)
  unfolding seed
  seed-Counts (some u) queue = start_checked-Counts (calls.links 0) u queue
  seed-Counts none queue = seed_checked-Counts (calls.links 0) queue

  idle_held : (n : ℕ) → all_held {Url = Url} (replicate n idle) ≡ 0
  idle_held zero = refl
  idle_held (suc n) = omega (arith, idle_held n)

  idle_uncounted : (n : ℕ) → all_uncounted {Url = Url} (replicate n idle) ≡ 0
  idle_uncounted zero = refl
  idle_uncounted (suc n) = omega (arith, idle_uncounted n)

  -- The counter of active tasks is in balance in every run from a seeded start.
  pub seeded-Balance :
      (start_url : Option String) (queue : List String) (s : Shared) (tokio_workers : ℕ)
      (hs : List Happening)
      → seed api calls start_url queue ≡ ok (some s)
      → Balance
          (run api hs (s, replicate tokio_workers idle)).0
          (all_held (run api hs (s, replicate tokio_workers idle)).1)
          (all_uncounted (run api hs (s, replicate tokio_workers idle)).1)
  seeded-Balance start_url queue s tokio_workers hs starts =
      let (counts, no_stray, no_leak) = seed-Counts start_url queue s starts in
      run-Balance api hs (s, replicate tokio_workers idle)
        (omega
          (arith, counts, no_stray, no_leak, idle_held tokio_workers, idle_uncounted tokio_workers))
