-- ===== src/Worker/Core/Run/Tests.antt =====
-- The theorem on the end of a crawl, at a concrete input.
use polite_web_crawler.Prelude.{◌≡◌, refl, true, some, [], ◌∷◌, arith, none}
use polite_web_crawler.Common.Url.Simple.{simple_urls}
use polite_web_crawler.Worker.Core.Loop.{idle, Shared, run}
use polite_web_crawler.Worker.Core.Run.{ends_crawl}
use polite_web_crawler.Worker.Core.Run.Drained.{rounds, HasDomain, drained_ends}

abbrev two_urls : Shared
two_urls = record { queue = "a" ∷ "b" ∷ []; active_tasks = 2; stray = 0; leaked = 0 }

abbrev has_a : HasDomain simple_urls "a"
has_a = record {
  url = record { host = some "a.org"; at = "a"; number = 0 };
  domain = "a.org";
  parses = refl;
  host = refl;
}

abbrev has_b : HasDomain simple_urls "b"
has_b = record {
  url = record { host = some "a.org"; at = "b"; number = 0 };
  domain = "a.org";
  parses = refl;
  host = refl;
}

drained_ends_example :
    ((run simple_urls (rounds 2) (two_urls, idle ∷ [])).0.queue ≡ [])
    × (ends_crawl none (run simple_urls (rounds 2) (two_urls, idle ∷ [])).0.active_tasks 0 ≡ true)
drained_ends_example =
    drained_ends simple_urls two_urls [] none 0 (has_a, (has_b, tt)) refl (omega arith)
