-- ===== src/System/Tests.antt =====
-- A run of the system, and the theorem on finite webs at it.
use polite_web_crawler.Prelude.{ℕ, ◌≤◌, ◌≡◌, refl, true, String, List, [], ◌∷◌, inl, inr}
use polite_web_crawler.Prelude.Dict.{Dict}
use polite_web_crawler.Storage.Cache.{CachedData}
use polite_web_crawler.Common.Outcome.{ok}
use polite_web_crawler.Common.Rpc.{delivers, carry}
use polite_web_crawler.Common.Url.{parsed, parse_outcome}
use polite_web_crawler.Common.Queue.{
  up, command, push, push_bulk, take_front, parse_line, pop_front,
}
use polite_web_crawler.Storage.Seen.{insert_url}
use polite_web_crawler.Storage.Service.{insert_url_in_seen_urls}
use polite_web_crawler.Storage.Consumer.{push_retried, push_new}
use polite_web_crawler.Storage.Grpc as Grpc
use polite_web_crawler.Worker.Client as Client
use polite_web_crawler.Worker.Core.Loop.{
  Shared, popped, tried, replied, after_pop, after_try, after_push, worker_step, fetch_sub,
  fetch_add,
}
use polite_web_crawler.Worker.Core.Links as Links
use polite_web_crawler.Worker.Core.Links.{reached, sort, dedup, insert_sorted, dedup_after}
use polite_web_crawler.Worker.Core.Links.Simple.{env, listed-IsBloom, empty_storage, reset}
use polite_web_crawler.System.{
  Step, acts, sitemap, operates, finds, asks, steps, step, act_of, act, starting,
}
use polite_web_crawler.System.Ends.{finite_web_bounded}

abbrev pub queued : Shared
queued = record { queue = "a" ∷ []; active_tasks = 1; stray = 0; leaked = 0 }

-- The first worker finds "b", a sitemap comes in, and the second worker handles it.
abbrev pub crawl : List (Step String ℕ (List String) (Dict (CachedData String)))
crawl =
    acts 0 (operates (popped up))
    ∷ acts 0 (operates (tried true up))
    ∷ acts 0 (finds (ok ("b" ∷ "b" ∷ [])))
    ∷ acts 0 (asks (reached (delivers reset)))
    ∷ sitemap (parsed "m") (λ i. up)
    ∷ acts 0 (asks (reached (delivers reset)))
    ∷ acts 0 (operates (replied up))
    ∷ acts 1 (operates (popped up))
    ∷ acts 1 (operates (tried true up))
    ∷ acts 1 (finds (ok []))
    ∷ acts 1 (asks (reached (delivers reset)))
    ∷ []

two_processed : (steps env crawl (starting env empty_storage queued 2)).returns ≡ 2
unfolding steps step act_of act worker_step after_pop after_try after_push fetch_sub fetch_add
    pop_front take_front parse_line parse_outcome command push push_bulk push_retried push_new
    insert_url_in_seen_urls insert_url Links.insert_url Grpc.insert_url Client.insert_url carry sort
    dedup insert_sorted dedup_after
two_processed = refl

finite_web_bounded_example : (steps env crawl (starting env empty_storage queued 2)).returns ≤ 7
finite_web_bounded_example =
    finite_web_bounded env listed-IsBloom (λ u. refl) ("b" ∷ "m" ∷ []) empty_storage queued 2 crawl
      (
        tt,
        (
          tt,
          (
            (inl refl, (inl refl, tt)),
            (tt, (inr (inl refl), (tt, (tt, (tt, (tt, (tt, (tt, tt)))))))),
          ),
        ),
      )
