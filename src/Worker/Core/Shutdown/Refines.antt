-- ===== src/Worker/Core/Shutdown/Refines.antt =====
-- crawler_core.rs, `run` as a whole: what the workers do under the coordinator is a run of the loop, so that
-- the counter of active tasks stays in balance from the start on.
use polite_web_crawler.Prelude.{
  ℕ, zero, suc, ◌≡◌, refl, sym, ◌∙◌, ap, subst, ◌⊎◌, inl, inr, Bool, true, false, Option, some,
  String, List, [], ◌∷◌, ◌++◌, replicate, Bool-cases,
}
use polite_web_crawler.Common.Outcome.{ok}
use polite_web_crawler.Common.Url.{UrlApi}
use polite_web_crawler.Worker.Core.Loop.{
  Phase, idle, Shared, Event, popped, cancelled, worker_step, advance, Happening, at_worker,
  outside, happen, run,
}
use polite_web_crawler.Worker.Core.Loop.Balance.{all_held, all_uncounted, Balance}
use polite_web_crawler.Worker.Core.Run.{SeedCalls, seed, ends_crawl}
use polite_web_crawler.Worker.Core.Run.Seeded.{seeded-Balance}
use polite_web_crawler.Worker.Core.Shutdown.{
  Move, looks, acts, Worker, Crew, Turn, moves, pushes, counts, wakes, signalled, at, move,
  move_one, turn, turns,
}

abbrev pub phases : {Url : Type 0} → List (Worker Url) → List (Phase Url)
phases [] = []
phases (w ∷ ws) = w.phase ∷ phases ws

-- The crew that `run` starts.
abbrev pub started : {Url : Type 0} → Shared → ℕ → Crew Url
started s tokio_workers = record {
  shared = s;
  workers = replicate tokio_workers (at idle);
  cancelled = false;
  pages_crawled = 0;
  pops = 0;
}

module _ {Url : Type 0} (api : UrlApi Url) where
  -- A move is the next operation of the worker, or changes nothing that the workers share.
  abbrev Step : Shared → Phase Url → Shared × Phase Url → Type 0
  Step s p x = (x ≡ (s, p)) ⊎ ((e : Event) × (x ≡ worker_step api s p e))

  move-Step :
      (stop : Bool) (s : Shared) (p : Phase Url) (b : Bool) (m : Move)
      → Step s p ((move api stop s p b m).0, (move api stop s p b m).1.phase)
  unfolding move worker_step
  move-Step true s idle false looks = inr (cancelled, refl)
  move-Step false s idle false looks = inl refl
  move-Step stop s idle true (acts (popped link)) = inr (popped link, refl)
  move-Step stop s idle b m = inl refl
  move-Step stop s p b looks = inl refl
  move-Step stop s p b (acts e) = inr (e, refl)

  abbrev Advanced : ℕ → Shared → List (Phase Url) → Shared × List (Phase Url) → Type 0
  Advanced k s ps x = (x ≡ (s, ps)) ⊎ ((e : Event) × (x ≡ advance api k e s ps))

  move_one-Advanced :
      (stop : Bool) (k : ℕ) (m : Move) (s : Shared) (ws : List (Worker Url))
      → Advanced k s
          (phases ws)
          ((move_one api stop k m s ws).0, phases (move_one api stop k m s ws).1)
  unfolding move_one advance
  move_one-Advanced stop k m s [] = inl refl
  move_one-Advanced stop zero m s (w ∷ ws) = elim (move-Step stop s w.phase w.ready m) [
    | inl e ↦ inl (ap (λ (y : Shared × Phase Url). (y.0, y.1 ∷ phases ws)) e)
    | inr (event, e) ↦ inr (event, ap (λ (y : Shared × Phase Url). (y.0, y.1 ∷ phases ws)) e)
  ]
  move_one-Advanced stop (suc k) m s (w ∷ ws) = elim (move_one-Advanced stop k m s ws) [
    | inl e ↦ inl (ap (λ (y : Shared × List (Phase Url)). (y.0, w.phase ∷ y.1)) e)
    | inr (event, e) ↦ inr (event, ap (λ (y : Shared × List (Phase Url)). (y.0, w.phase ∷ y.1)) e)
  ]

  -- What the loop sees of a crew.
  abbrev pub loop_state : Crew Url → Shared × List (Phase Url)
  loop_state c = (c.shared, phases c.workers)

  -- A run of the loop between two crews.
  abbrev pub Runs : Crew Url → Crew Url → Type 0
  Runs c d = (hs : List Happening) × (run api hs (loop_state c) ≡ loop_state d)

  turn-Runs : (limit : Option ℕ) (t : Turn) (c : Crew Url) → Runs c (turn api limit t c)
  unfolding turn run happen
  turn-Runs limit (moves k m) c = elim (move_one-Advanced c.cancelled k m c.shared c.workers) [
    | inl e ↦ ([], sym e)
    | inr (event, e) ↦ (at_worker k event ∷ [], sym e)
  ]
  turn-Runs limit (pushes url) c = (outside url ∷ [], refl)
  turn-Runs limit counts c = ([], refl)
  turn-Runs limit signalled c = ([], refl)
  turn-Runs limit wakes c =
      elim (Bool-cases (ends_crawl limit c.shared.active_tasks c.pages_crawled)) [
        | inl ends ↦ ([], rw ends refl)
        | inr goes_on ↦ ([], rw goes_on refl)
      ]

  pub run-append :
      (hs ks : List Happening) (x : Shared × List (Phase Url))
      → run api (hs ++ ks) x ≡ run api ks (run api hs x)
  unfolding run
  run-append [] ks x = refl
  run-append (h ∷ hs) ks x = run-append hs ks (happen api h x)

  pub turns-Runs :
      (limit : Option ℕ) (ts : List Turn) (c : Crew Url) → Runs c (turns api limit ts c)
  unfolding turns run
  turns-Runs limit [] c = ([], refl)
  turns-Runs limit (t ∷ ts) c =
      let (hs, first) = turn-Runs limit t c in
      let (ks, rest) = turns-Runs limit ts (turn api limit t c) in
      (hs ++ ks, run-append hs ks (loop_state c) ∙ ap (run api ks) first ∙ rest)

  started_idle : (n : ℕ) → phases {Url = Url} (replicate n (at idle)) ≡ replicate n idle
  started_idle zero = refl
  started_idle (suc n) = ap (λ ps. idle ∷ ps) (started_idle n)

  -- A crawl starts in balance and stays there. If `run` seeds the queue, from a URL, from the file of
  -- seeds or from what an earlier crawl has left, and starts its workers, then whatever they, the
  -- coordinator, the storage service and a signal do, in any order, the counter of active tasks is in
  -- balance with the queue and with what the workers hold.
  pub started-Balance :
      (calls : SeedCalls) (start_url : Option String) (queue : List String) (s : Shared)
      (tokio_workers : ℕ) (limit : Option ℕ) (ts : List Turn)
      → seed api calls start_url queue ≡ ok (some s)
      → Balance
          (turns api limit ts (started s tokio_workers)).shared
          (all_held (phases (turns api limit ts (started s tokio_workers)).workers))
          (all_uncounted (phases (turns api limit ts (started s tokio_workers)).workers))
  started-Balance calls start_url queue s tokio_workers limit ts starts =
      let (hs, same) = turns-Runs limit ts (started s tokio_workers) in
      subst (λ (x : Shared × List (Phase Url)). Balance x.0 (all_held x.1) (all_uncounted x.1))
        (ap (λ ps. run api hs (s, ps)) (sym (started_idle tokio_workers)) ∙ same)
        (seeded-Balance api calls start_url queue s tokio_workers hs starts)
