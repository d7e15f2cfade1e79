-- ===== src/Worker/Core/Shutdown/Stops.antt =====
-- crawler_core.rs, the end of a crawl: what workers still do behind the coordinator's decision.
use polite_web_crawler.Prelude.{
  ℕ, zero, suc, ◌+◌, ◌≤◌, ◌≡◌, refl, sym, subst, Bool, true, false, Option, List, [], ◌∷◌, arith,
  Bool-cases, inl, inr,
}
use polite_web_crawler.Common.Url.{UrlApi}
use polite_web_crawler.Worker.Core.Loop.{Phase, idle, Shared, popped}
use polite_web_crawler.Worker.Core.Run.{ends_crawl}
use polite_web_crawler.Worker.Core.Shutdown.{
  Move, looks, acts, Worker, Crew, Turn, moves, pushes, counts, wakes, signalled, move, move_one,
  turn, turns,
}

-- The workers that have passed the check and not popped since.
abbrev pub past_check : Bool → ℕ
past_check true = 1
past_check false = 0

abbrev pub all_ready : {Url : Type 0} → List (Worker Url) → ℕ
all_ready [] = 0
all_ready (w ∷ ws) = past_check w.ready + all_ready ws

module _ {Url : Type 0} (api : UrlApi Url) where
  -- With the token cancelled, a pop uses up a check.
  move_spends :
      (s : Shared) (p : Phase Url) (b : Bool) (m : Move)
      → (move api true s p b m).2 + past_check (move api true s p b m).1.ready ≤ past_check b
  unfolding move
  move_spends s idle false looks = omega arith
  move_spends s idle true (acts (popped link)) = omega arith
  move_spends s idle b m = omega arith
  move_spends s p b looks = omega arith
  move_spends s p b (acts e) = omega arith

  move_one_spends :
      (k : ℕ) (m : Move) (s : Shared) (ws : List (Worker Url))
      → (move_one api true k m s ws).2 + all_ready (move_one api true k m s ws).1 ≤ all_ready ws
  unfolding move_one
  move_one_spends k m s [] = omega arith
  move_one_spends zero m s (w ∷ ws) = omega (arith, move_spends s w.phase w.ready m)
  move_one_spends (suc k) m s (w ∷ ws) = omega (arith, move_one_spends k m s ws)

  -- The pops so far, with those that may still come.
  abbrev budget : Crew Url → ℕ
  budget c = c.pops + all_ready c.workers

  turn_spends :
      (limit : Option ℕ) (t : Turn) (c : Crew Url)
      → c.cancelled ≡ true
      → (budget (turn api limit t c) ≤ budget c) × ((turn api limit t c).cancelled ≡ true)
  unfolding turn
  turn_spends limit (moves k m) c stop =
      rw stop (omega (arith, move_one_spends k m c.shared c.workers), refl)
  turn_spends limit (pushes url) c stop = (omega arith, stop)
  turn_spends limit counts c stop = (omega arith, stop)
  turn_spends limit signalled c stop = (omega arith, refl)
  turn_spends limit wakes c stop =
      elim (Bool-cases (ends_crawl limit c.shared.active_tasks c.pages_crawled)) [
        | inl ends ↦ rw ends (omega arith, refl)
        | inr goes_on ↦ rw goes_on (omega arith, stop)
      ]

  turns_spend :
      (limit : Option ℕ) (ts : List Turn) (c : Crew Url)
      → c.cancelled ≡ true
      → budget (turns api limit ts c) ≤ budget c
  unfolding turns
  turns_spend limit [] c stop = omega arith
  turns_spend limit (t ∷ ts) c stop =
      let (first, stopped) = turn_spends limit t c stop in
      omega (arith, first, turns_spend limit ts (turn api limit t c) stopped)

  wakes_ends :
      (limit : Option ℕ) (c : Crew Url)
      → ends_crawl limit c.shared.active_tasks c.pages_crawled ≡ true
      → turn api limit wakes c ≡ record c { cancelled = true }
  unfolding turn
  wakes_ends limit c ends = rw ends refl

  -- A crawl that ends stops. If the coordinator wakes where no task is active or the limit of pages is
  -- reached, then in whatever run follows, of the workers, the storage service and further wake-ups,
  -- the URLs that are still popped are at most as many as the workers that stood, at that moment,
  -- between their look at the token and their pop.
  pub ends_bounded :
      (limit : Option ℕ) (ts : List Turn) (c : Crew Url)
      → ends_crawl limit c.shared.active_tasks c.pages_crawled ≡ true
      → (turns api limit (wakes ∷ ts) c).pops ≤ c.pops + all_ready c.workers
  unfolding turns
  ends_bounded limit ts c ends =
      subst (λ d. (turns api limit ts d).pops ≤ c.pops + all_ready c.workers)
        (sym (wakes_ends limit c ends))
        (omega (arith, turns_spend limit ts (record c { cancelled = true }) refl))
