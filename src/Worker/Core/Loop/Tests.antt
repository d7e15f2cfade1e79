-- ===== src/Worker/Core/Loop/Tests.antt =====
-- Runs of two workers, and the theorems at concrete inputs.
use polite_web_crawler.Prelude.{◌≡◌, refl, true, List, [], ◌∷◌, arith}
use polite_web_crawler.Common.Url.{parse_outcome}
use polite_web_crawler.Common.Url.Simple.{SimpleUrl, simple_urls}
use polite_web_crawler.Common.Queue.{up, command, push_bulk, take_front, parse_line, pop_front}
use polite_web_crawler.Worker.Core.Loop.Balance.{all_held, all_uncounted, Balance}
use polite_web_crawler.Worker.Core.Loop.Ends.{run-Balance, zero_means_done}
use polite_web_crawler.Worker.Core.Loop.{
  Phase, idle, Shared, popped, tried, processed, replied, fetch_sub, after_pop, after_push,
  after_try, worker_step, advance, Happening, at_worker, happen, run,
}

-- One URL is queued and counted, for two workers.
abbrev start : Shared × List (Phase SimpleUrl)
start = (record { queue = "a" ∷ []; active_tasks = 1; stray = 0; leaked = 0 }, idle ∷ idle ∷ [])

-- The first worker has pushed two new URLs, and the second handles one of them before the first counts.
abbrev early : List Happening
early =
    at_worker 0 (popped up)
    ∷ at_worker 0 (tried true up)
    ∷ at_worker 0 (processed ("b" ∷ "c" ∷ []))
    ∷ at_worker 0 (replied up)
    ∷ at_worker 1 (popped up)
    ∷ at_worker 1 (tried true up)
    ∷ at_worker 1 (processed [])
    ∷ []

-- The counter is 0, and a URL is queued.
zero_too_early :
    (run simple_urls early start).0
    ≡ record { queue = "c" ∷ []; active_tasks = 0; stray = 0; leaked = 0 }
unfolding run happen advance worker_step after_pop pop_front command take_front parse_line
    parse_outcome after_try after_push push_bulk fetch_sub
zero_too_early = refl

abbrev whole : List Happening
whole = at_worker 0 (popped up) ∷ at_worker 0 (tried true up) ∷ at_worker 0 (processed []) ∷ []

run-Balance_example :
    Balance
      (run simple_urls early start).0
      (all_held (run simple_urls early start).1)
      (all_uncounted (run simple_urls early start).1)
run-Balance_example = run-Balance simple_urls early start refl

zero_means_done_example :
    ((run simple_urls whole start).0.queue ≡ []) × (all_held (run simple_urls whole start).1 ≡ 0)
unfolding run happen advance worker_step after_pop pop_front command take_front parse_line
    parse_outcome after_try fetch_sub
zero_means_done_example = zero_means_done simple_urls whole start refl refl refl (omega arith) refl
