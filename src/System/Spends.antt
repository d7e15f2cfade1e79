-- ===== src/System/Spends.antt =====
-- A worker of the system over a finite web: what it may still bring about never grows.
use polite_web_crawler.Prelude.{
  ℕ, ◌+◌, ◌*◌, ◌≤◌, ◌≡◌, refl, Bool, true, false, String, List, [], ◌∷◌, All, length, length-append,
  arith,
}
use polite_web_crawler.Common.Outcome.{Outcome, ok, err, panic}
use polite_web_crawler.Common.Url.{parsed}
use polite_web_crawler.Storage.Seen.{IsBloom}
use polite_web_crawler.Storage.Service.{Env, CrawlerStorage}
use polite_web_crawler.Worker.Core.Loop.{
  Phase, idle, guarded, counted, ended, holding, pushing, pushed, Shared, Event, processed,
  worker_step,
}
use polite_web_crawler.Worker.Core.Links as Links
use polite_web_crawler.Worker.Core.Links.Once.{Asked, insert_url-Asked}
use polite_web_crawler.System.Finite.{In, dedup-sort-All, unseen, unseen-Within, unseen_less}
use polite_web_crawler.System.Weights.{
  phase_weight, Attempt, Lighter, Unguarded, worker_step-Lighter,
}
use polite_web_crawler.System.{
  Place, looping, filtering, Act, operates, finds, asks, Moved, looped, found, asked, act, returned,
}

module _ {Url Robot F32 Filter Store : Type 0} (env : Env Url Robot F32 Filter Store)
    (law : IsBloom env.bloom) (reparses : (u : Url) → env.urls.parse (env.urls.as_str u) ≡ parsed u)
    (web : List Url) where
  -- The links that are found are URLs of the web.
  abbrev pub OfWeb : Act Url → Type 0
  OfWeb (finds (ok us)) = All (In web) us
  OfWeb a = Unit

  abbrev pub weight : Place Url → ℕ
  weight (looping p) = phase_weight p
  weight (filtering us kept) = 3 * length kept

  abbrev pub Sound : Place Url → Type 0
  Sound (looping p) = Attempt p
  Sound (filtering us kept) = All (In web) us

  -- What the worker may still bring about.
  abbrev pub total : Moved env → ℕ
  total x = length x.1.queue + weight x.2 + 3 * unseen env law reparses x.0.seen_urls web

  looped-total :
      (st : CrawlerStorage F32 Filter Store) (n : ℕ) (x : Shared × Phase Url)
      → Lighter env.urls n x
      → (total (looped env st x) ≤ n + 3 * unseen env law reparses st.seen_urls web)
        × Sound (looped env st x).2
  unfolding looped
  looped-total st n (s, p) (h, a) = (omega (arith, h), a)

  -- An act makes no more URLs possible, and one fewer where it ends the processing of a URL.
  abbrev pub Spends : ℕ → ℕ → Moved env → Type 0
  Spends n k x = (k + total x ≤ n) × Sound x.2

  found-Spends :
      (st : CrawlerStorage F32 Filter Store) (s : Shared) (o : Outcome (List Url))
      → OfWeb (finds o)
      → Spends (total (st, s, looping guarded)) 1 (found env st s o)
  unfolding found looped worker_step
  found-Spends st s (ok us) h = (omega arith, dedup-sort-All env.urls (In web) us h)
  found-Spends st s (err e) h = (omega arith, tt)
  found-Spends st s panic h = (omega arith, tt)

  asked-Spends :
      (st st' : CrawlerStorage F32 Filter Store) (s : Shared) (u : Url) (us : List Url)
      (kept : List String) (o : Outcome Bool)
      → Asked env law reparses st u (o, st')
      → In web u
      → All (In web) us
      → Spends
          (total (st, s, filtering (u ∷ us) kept))
          0
          (asked env s (env.urls.as_str u) us kept (o, st'))
  unfolding asked looped worker_step
  asked-Spends st st' s u us kept (ok true) call h hs =
      (omega (arith, unseen-Within env law reparses st st' web call.within), hs)
  asked-Spends st st' s u us kept (err e) call h hs =
      (omega (arith, unseen-Within env law reparses st st' web call.within), hs)
  asked-Spends st st' s u us kept panic call h hs =
      (omega (arith, unseen-Within env law reparses st st' web call.within), tt)
  asked-Spends st st' s u us kept (ok false) call h hs =
      let (fresh, old) = call.when_new refl in
      (
        omega (
          arith,
          unseen_less env law reparses st st' web u call.within h fresh old,
          length-append kept (env.urls.as_str u ∷ []),
        ),
        hs,
      )

  pushes-Spends :
      (st : CrawlerStorage F32 Filter Store) (s : Shared) (kept : List String)
      → Spends
          (total (st, s, filtering [] kept))
          0
          (looped env st (worker_step env.urls s guarded (processed kept)))
  unfolding looped worker_step
  pushes-Spends st s [] = (omega arith, tt)
  pushes-Spends st s (u ∷ us) = (omega arith, omega arith)

  operates-Spends :
      (st : CrawlerStorage F32 Filter Store) (s : Shared) (p : Phase Url) (e : Event)
      → Unguarded env.urls p
      → Attempt p
      → Spends (total (st, s, looping p)) 0 (looped env st (worker_step env.urls s p e))
  operates-Spends st s p e g a =
      let (h, k) =
        looped-total st (length s.queue + phase_weight p) (worker_step env.urls s p e)
          (worker_step-Lighter env.urls s p e g a) in
      (omega (arith, h), k)

  pub act-Spends :
      (st : CrawlerStorage F32 Filter Store) (s : Shared) (p : Place Url) (a : Act Url)
      → Sound p
      → OfWeb a
      → Spends (total (st, s, p)) (returned env p a) (act env st s p a)
  unfolding act returned
  act-Spends st s (looping guarded) (finds o) h k = found-Spends st s o k
  act-Spends st s (looping guarded) (operates e) h k = (omega arith, h)
  act-Spends st s (looping guarded) (asks c) h k = (omega arith, h)
  act-Spends st s (looping idle) (operates e) h k = operates-Spends st s idle e tt h
  act-Spends st s (looping counted) (operates e) h k = operates-Spends st s counted e tt h
  act-Spends st s (looping ended) (operates e) h k = operates-Spends st s ended e tt h
  act-Spends st s (looping (holding u)) (operates e) h k = operates-Spends st s (holding u) e tt h
  act-Spends st s (looping (pushing i us)) (operates e) h k =
      operates-Spends st s (pushing i us) e tt h
  act-Spends st s (looping (pushed n)) (operates e) h k = operates-Spends st s (pushed n) e tt h
  act-Spends st s (filtering (u ∷ us) kept) (asks c) (h, hs) k =
      asked-Spends st _ s u us kept (Links.insert_url env st c (env.urls.as_str u)).0
        (insert_url-Asked env law reparses st c u) h hs
  act-Spends st s (filtering [] kept) (asks c) h k = pushes-Spends st s kept
  act-Spends st s p a h k = (omega arith, h)
