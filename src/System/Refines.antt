-- ===== src/System/Refines.antt =====
-- crawler_core.rs, `worker_loop`: the system, seen without the links that a worker asks about and without the
-- storage, is a run of the loop.
use polite_web_crawler.Prelude.{
  ℕ, zero, suc, ◌≡◌, refl, sym, ◌∙◌, ap, ◌⊎◌, inl, inr, Bool, true, false, String, List, [], ◌∷◌,
  ◌++◌, map, Bool-cases,
}
use polite_web_crawler.Common.Outcome.{Outcome, ok, err, panic}
use polite_web_crawler.Common.Url.{Parsed, parsed, refused}
use polite_web_crawler.Common.Queue.{Link}
use polite_web_crawler.Storage.Service.{Env, CrawlerStorage, insert_url_in_seen_urls}
use polite_web_crawler.Storage.Consumer.{push_new}
use polite_web_crawler.Worker.Core.Loop.{
  Phase, idle, guarded, counted, ended, holding, pushing, pushed, Shared, Event, processed, unwinds,
  strays_in, worker_step, advance, Happening, at_worker, outside, happen, run,
}
use polite_web_crawler.Worker.Core.Shutdown.Refines.{run-append}
use mathlib.Core.List.{append-nil}
use polite_web_crawler.System.Strays.{
  strayed, strays_in-strayed, strayed_nil, strayed_append, push_retried-adds,
}
use polite_web_crawler.System.{
  Place, looping, filtering, Act, operates, finds, asks, Step, acts, sitemap, elsewhere, World,
  Moved, looped, found, asked, act, act_of, pushed_by, step, steps,
}

-- Where the loop sees a worker that asks about links: behind `TaskGuard`.
abbrev pub phase : {Url : Type 0} → Place Url → Phase Url
phase (looping p) = p
phase (filtering us kept) = guarded

abbrev pub phases : {Url : Type 0} → List (Place Url) → List (Phase Url)
phases [] = []
phases (p ∷ ps) = phase p ∷ phases ps

module _ {Url Robot F32 Filter Store : Type 0} (env : Env Url Robot F32 Filter Store) where
  -- An act is the next operation of the worker, or changes nothing that the loop sees.
  abbrev Operation : Shared → Phase Url → Shared × Phase Url → Type 0
  Operation s p x = (x ≡ (s, p)) ⊎ ((e : Event) × (x ≡ worker_step env.urls s p e))

  abbrev seen_act : Moved env → Shared × Phase Url
  seen_act x = (x.1, phase x.2)

  seen_act-looped :
      (st : CrawlerStorage F32 Filter Store) (x : Shared × Phase Url)
      → seen_act (looped env st x) ≡ x
  unfolding looped
  seen_act-looped st (s, p) = refl

  found-Operation :
      (st : CrawlerStorage F32 Filter Store) (s : Shared) (o : Outcome (List Url))
      → Operation s guarded (seen_act (found env st s o))
  unfolding found
  found-Operation st s (ok us) = inl refl
  found-Operation st s (err e) = inr (processed [], seen_act-looped st _)
  found-Operation st s panic = inr (unwinds, seen_act-looped st _)

  asked-Operation :
      (st : CrawlerStorage F32 Filter Store) (s : Shared) (u : String) (us : List Url)
      (kept : List String) (o : Outcome Bool)
      → Operation s guarded (seen_act (asked env s u us kept (o, st)))
  unfolding asked
  asked-Operation st s u us kept (ok true) = inl refl
  asked-Operation st s u us kept (ok false) = inl refl
  asked-Operation st s u us kept (err e) = inl refl
  asked-Operation st s u us kept panic = inr (unwinds, seen_act-looped st _)

  act-Operation :
      (st : CrawlerStorage F32 Filter Store) (s : Shared) (p : Place Url) (a : Act Url)
      → Operation s (phase p) (seen_act (act env st s p a))
  unfolding act
  act-Operation st s (looping guarded) (finds o) = found-Operation st s o
  act-Operation st s (looping guarded) (operates e) = inl refl
  act-Operation st s (looping guarded) (asks c) = inl refl
  act-Operation st s (looping idle) (operates e) = inr (e, seen_act-looped st _)
  act-Operation st s (looping counted) (operates e) = inr (e, seen_act-looped st _)
  act-Operation st s (looping ended) (operates e) = inr (e, seen_act-looped st _)
  act-Operation st s (looping (holding u)) (operates e) = inr (e, seen_act-looped st _)
  act-Operation st s (looping (pushing i us)) (operates e) = inr (e, seen_act-looped st _)
  act-Operation st s (looping (pushed n)) (operates e) = inr (e, seen_act-looped st _)
  act-Operation st s (filtering (u ∷ us) kept) (asks c) =
      asked-Operation _ s (env.urls.as_str u) us kept _
  act-Operation st s (filtering [] kept) (asks c) = inr (processed kept, seen_act-looped st _)
  act-Operation st s p a = inl refl

  abbrev Advanced : ℕ → Shared → List (Phase Url) → Shared × List (Phase Url) → Type 0
  Advanced k s ps x = (x ≡ (s, ps)) ⊎ ((e : Event) × (x ≡ advance env.urls k e s ps))

  act_of-Advanced :
      (k : ℕ) (a : Act Url) (st : CrawlerStorage F32 Filter Store) (s : Shared)
      (ps : List (Place Url))
      → Advanced k s (phases ps) ((act_of env k a st s ps).1, phases (act_of env k a st s ps).2)
  unfolding act_of advance
  act_of-Advanced k a st s [] = inl refl
  act_of-Advanced zero a st s (p ∷ ps) = elim (act-Operation st s p a) [
    | inl e ↦ inl (ap (λ (y : Shared × Phase Url). (y.0, y.1 ∷ phases ps)) e)
    | inr (event, e) ↦ inr (event, ap (λ (y : Shared × Phase Url). (y.0, y.1 ∷ phases ps)) e)
  ]
  act_of-Advanced (suc k) a st s (p ∷ ps) = elim (act_of-Advanced k a st s ps) [
    | inl e ↦ inl (ap (λ (y : Shared × List (Phase Url)). (y.0, phase p ∷ y.1)) e)
    | inr (event, e) ↦ inr (event, ap (λ (y : Shared × List (Phase Url)). (y.0, phase p ∷ y.1)) e)
  ]

  -- What the loop sees of the system.
  abbrev pub loop_state : World env → Shared × List (Phase Url)
  loop_state w = (w.shared, phases w.places)

  abbrev pub Runs : World env → World env → Type 0
  Runs w v = (hs : List Happening) × (run env.urls hs (loop_state w) ≡ loop_state v)

  outsides :
      (us : List String) (s : Shared) (ps : List (Phase Url))
      → run env.urls (map outside us) (s, ps) ≡ (strayed us s, ps)
  unfolding run happen
  outsides [] s ps = ap (λ (r : Shared). (r, ps)) (sym (strayed_nil s))
  outsides (u ∷ us) s ps =
      ap (λ (r : Shared). run env.urls (map outside us) (r, ps)) (strays_in-strayed (u ∷ []) s)
      ∙ outsides us (strayed (u ∷ []) s) ps
      ∙ ap (λ (r : Shared). (r, ps)) (strayed_append u us s)

  -- A queue that has grown is one that was pushed to from outside.
  grown-Runs :
      (w : World env) (st : CrawlerStorage F32 Filter Store) (queue us : List String)
      → queue ≡ w.shared.queue ++ us
      → Runs w (pushed_by env w (st, queue))
  unfolding pushed_by
  grown-Runs w st queue us h = (
    map outside us,
    outsides us w.shared (phases w.places)
        ∙ ap (λ (r : Shared). (r, phases w.places))
            (sym (ap (λ q. strays_in q w.shared) h ∙ strays_in-strayed us w.shared)),
  )

  push_new-Runs :
      (w : World env) (links : ℕ → Link) (p : Parsed Url)
      → Runs w (pushed_by env w (push_new env (w.storage, w.shared.queue) links p))
  unfolding push_new
  push_new-Runs w links (refused e) =
      grown-Runs w w.storage w.shared.queue [] (sym (append-nil w.shared.queue))
  push_new-Runs w links (parsed u) =
      let (us, h) = push_retried-adds 3 1 links (env.urls.as_str u) w.shared.queue in
      elim (Bool-cases (insert_url_in_seen_urls env w.storage u).0) [
        | inl old ↦ grown-Runs w _ _ [] (rw old (sym (append-nil w.shared.queue)))
        | inr fresh ↦ grown-Runs w _ _ us (rw fresh h)
      ]

  step-Runs : (e : Step Url F32 Filter Store) (w : World env) → Runs w (step env e w)
  unfolding step run happen
  step-Runs (sitemap p links) w = push_new-Runs w links p
  step-Runs (elsewhere st) w = ([], refl)
  step-Runs (acts k a) w = elim (act_of-Advanced k a w.storage w.shared w.places) [
    | inl e ↦ ([], sym e)
    | inr (event, e) ↦ (at_worker k event ∷ [], sym e)
  ]

  -- The system refines the loop. In whatever order workers ask about links, the storage answers and
  -- sitemaps are pushed, and however the connections fail, the queue, the counter of active tasks
  -- and the places of the workers in the loop change as in a run of `worker_loop` in which URLs are
  -- pushed from outside.
  pub steps-Runs : (es : List (Step Url F32 Filter Store)) (w : World env) → Runs w (steps env es w)
  unfolding steps run
  steps-Runs [] w = ([], refl)
  steps-Runs (e ∷ es) w =
      let (hs, first) = step-Runs e w in
      let (ks, rest) = steps-Runs es (step env e w) in
      (hs ++ ks, run-append env.urls hs ks (loop_state w) ∙ ap (run env.urls ks) first ∙ rest)
