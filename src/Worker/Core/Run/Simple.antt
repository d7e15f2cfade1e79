-- ===== src/Worker/Core/Run/Simple.antt =====
-- A small start of a crawl, on which the tests run.
use polite_web_crawler.Prelude.{◌≡◌, refl, some, [], ◌∷◌, false}
use polite_web_crawler.Common.Outcome.{ok}
use polite_web_crawler.Common.Url.{parse_outcome}
use polite_web_crawler.Common.Url.Simple.{simple_urls}
use polite_web_crawler.Common.Queue.{up, command, push, is_empty, clean_queue}
use polite_web_crawler.Common.Rpc.{delivers, carry}
use polite_web_crawler.Storage.Seen.{insert_url}
use polite_web_crawler.Storage.Service.{insert_url_in_seen_urls}
use polite_web_crawler.Storage.Grpc as Grpc
use polite_web_crawler.Worker.Client as Client
use polite_web_crawler.Worker.Core.Links as Links
use polite_web_crawler.Worker.Core.Links.{reached}
use polite_web_crawler.Worker.Core.Links.Simple.{env, empty_storage, reset}
use polite_web_crawler.Worker.Core.Loop.{Shared}
use polite_web_crawler.Worker.Core.Run.{
  SeedCalls, seeded, start_inserted, start_pushed, start_parsed, start_cleaned, start_checked, seed,
}

abbrev pub calls : SeedCalls
calls = record { links = λ i. up; insert = λ u. ok false; seed_file = ok "b c" }

abbrev pub start : Shared
start = record { queue = "a" ∷ []; active_tasks = 1; stray = 0; leaked = 0 }

-- An earlier crawl has left a URL, which is dropped.
pub starts_at_url : seed simple_urls calls (some "a") ("old" ∷ []) ≡ ok (some start)
unfolding seed start_checked start_cleaned start_parsed start_pushed start_inserted seeded push
    clean_queue is_empty command parse_outcome
starts_at_url = refl

-- A start whose call of `insert_url` is the storage's.
abbrev pub seeding : SeedCalls
seeding = record {
  links = λ i. up;
  insert = λ u. (Links.insert_url env empty_storage (reached (delivers reset)) u).0;
  seed_file = ok "";
}

pub starts_at_a : seed env.urls seeding (some "a") ("old" ∷ []) ≡ ok (some start)
unfolding seed start_checked start_cleaned start_parsed start_pushed start_inserted seeded push
    clean_queue is_empty command parse_outcome Links.insert_url Grpc.insert_url Client.insert_url
    carry insert_url_in_seen_urls insert_url
starts_at_a = refl
