-- ===== src/Worker/Core/Shutdown/Tests.antt =====
-- A crawl that reaches its limit, and the theorems at concrete inputs.
use polite_web_crawler.Prelude.{◌≤◌, ◌≡◌, refl, true, false, none, some, List, [], ◌∷◌}
use polite_web_crawler.Common.Url.Simple.{SimpleUrl, simple_urls}
use polite_web_crawler.Common.Queue.{up}
use polite_web_crawler.Worker.Core.Loop.{tried, processed, replied, idle, popped}
use polite_web_crawler.Worker.Core.Loop.Balance.{all_held, all_uncounted, Balance}
use polite_web_crawler.Worker.Core.Run.Simple.{calls, start, starts_at_url}
use polite_web_crawler.Worker.Core.Shutdown.Refines.{phases, started, started-Balance}
use polite_web_crawler.Worker.Core.Run.{ends_crawl}
use polite_web_crawler.Worker.Core.Shutdown.{
  looks, acts, Crew, Turn, moves, wakes, move, move_one, turn, turns,
}
use polite_web_crawler.Worker.Core.Shutdown.Stops.{ends_bounded}

-- Two URLs are queued; the first worker has looked at the token, and the second has not.
abbrev crew : Crew SimpleUrl
crew = record {
  shared = record { queue = "a" ∷ "b" ∷ []; active_tasks = 2; stray = 0; leaked = 0 };
  workers = record { phase = idle; ready = true } ∷ record { phase = idle; ready = false } ∷ [];
  cancelled = false;
  pages_crawled = 1;
  pops = 0;
}

-- The first worker still pops a URL, and the second does not.
abbrev after : List Turn
after = moves 0 (acts (popped up)) ∷ moves 1 looks ∷ moves 1 (acts (popped up)) ∷ []

one_pop : (turns simple_urls (some 1) (wakes ∷ after) crew).pops ≡ 1
unfolding turns turn move_one move ends_crawl
one_pop = refl

limit_reached : ends_crawl (some 1) 2 1 ≡ true
unfolding ends_crawl
limit_reached = refl

ends_bounded_example : (turns simple_urls (some 1) (wakes ∷ after) crew).pops ≤ 1
ends_bounded_example = ends_bounded simple_urls (some 1) after crew limit_reached

-- The first worker finds two URLs, the second pops one, and the coordinator wakes before the count.
abbrev found_two : List Turn
found_two =
    moves 0 looks
    ∷ moves 0 (acts (popped up))
    ∷ moves 0 (acts (tried true up))
    ∷ moves 0 (acts (processed ("b" ∷ "c" ∷ [])))
    ∷ moves 0 (acts (replied up))
    ∷ moves 1 looks
    ∷ moves 1 (acts (popped up))
    ∷ wakes
    ∷ []

started-Balance_example :
    Balance
      (turns simple_urls none found_two (started start 2)).shared
      (all_held (phases (turns simple_urls none found_two (started start 2)).workers))
      (all_uncounted (phases (turns simple_urls none found_two (started start 2)).workers))
started-Balance_example =
    started-Balance simple_urls calls (some "a") ("old" ∷ []) start 2 none found_two starts_at_url
