-- ===== src/Worker/Core/Shutdown.antt =====
-- crawler_core.rs, the coordinator of `run` and the token that ends the workers: a worker looks at the token
-- only before it pops a URL.
pub mod Stops
pub mod Refines
mod Tests
use polite_web_crawler.Prelude.{
  ℕ, zero, suc, ◌+◌, ◌%◌, ◌^◌, Bool, true, false, Option, String, List, [], ◌∷◌, ◌++◌,
  if◌then◌else◌,
}
use polite_web_crawler.Common.Url.{UrlApi}
use polite_web_crawler.Worker.Core.Loop.{
  Phase, idle, ended, Shared, Event, popped, worker_step, outside, happen,
}
use polite_web_crawler.Worker.Core.Run.{ends_crawl}

-- A worker looks at the token, or does its next operation.
pub data Move : Type 0 where
  looks : Move
  acts : Event → Move

-- The place of a worker, and whether it has found the token not cancelled and not popped since.
pub record Worker (Url : Type 0) : Type 0 where
  pub phase : Phase Url
  pub ready : Bool

abbrev at : {Url : Type 0} → Phase Url → Worker Url
at p = record { phase = p; ready = false }

-- The workers with what they share, the token, the counter of pages, and, which the code does not keep,
-- the number of pops.
pub record Crew (Url : Type 0) : Type 0 where
  pub shared : Shared
  pub workers : List (Worker Url)
  pub cancelled : Bool
  pub pages_crawled : ℕ
  pub pops : ℕ

-- What happens: a worker moves; the storage service pushes a URL; a worker counts a page; the coordinator
-- wakes; a signal cancels the token.
pub data Turn : Type 0 where
  moves : ℕ → Move → Turn
  pushes : String → Turn
  counts wakes signalled : Turn

module _ {Url : Type 0} (api : UrlApi Url) where
  -- What a move changes, with the number of pops in it. A move that does not fit changes nothing.
  unfoldable pub move : Bool → Shared → Phase Url → Bool → Move → Shared × Worker Url × ℕ
  unfolding worker_step
  move stop s idle false looks =
      if stop then (s, at ended, 0) else (s, record { phase = idle; ready = true }, 0)
  move stop s idle true (acts (popped link)) =
      let (s', p) = worker_step api s idle (popped link) in (s', at p, 1)
  move stop s idle b m = (s, record { phase = idle; ready = b }, 0)
  move stop s p b looks = (s, record { phase = p; ready = b }, 0)
  move stop s p b (acts e) = let (s', p') = worker_step api s p e in (s', at p', 0)

  -- The move of the worker with a number.
  unfoldable pub move_one :
      Bool → ℕ → Move → Shared → List (Worker Url) → Shared × List (Worker Url) × ℕ
  unfolding move
  move_one stop k m s [] = (s, [], 0)
  move_one stop zero m s (w ∷ ws) =
      let (s', w', n) = move stop s w.phase w.ready m in (s', w' ∷ ws, n)
  move_one stop (suc k) m s (w ∷ ws) = let (s', ws', n) = move_one stop k m s ws in (s', w ∷ ws', n)

  unfoldable pub turn : Option ℕ → Turn → Crew Url → Crew Url
  unfolding move_one ends_crawl happen
  turn limit (moves k m) c =
      let (s', ws', n) = move_one c.cancelled k m c.shared c.workers in
      record c { shared = s'; workers = ws'; pops = c.pops + n }
  turn limit (pushes url) c = record c { shared = (happen api (outside url) (c.shared, [])).0 }
  turn limit counts c = record c { pages_crawled = (c.pages_crawled + 1) % 2 ^ 64 }
  turn limit wakes c =
      if ends_crawl limit c.shared.active_tasks c.pages_crawled
      then record c { cancelled = true }
      else c
  turn limit signalled c = record c { cancelled = true }

  unfoldable pub turns : Option ℕ → List Turn → Crew Url → Crew Url
  unfolding turn
  turns limit [] c = c
  turns limit (t ∷ ts) c = turns limit ts (turn limit t c)
