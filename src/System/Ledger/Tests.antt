-- ===== src/System/Ledger/Tests.antt =====
-- The run of the system's tests, with its record of URLs, and the theorems at it.
use polite_web_crawler.Prelude.{
  none, ℕ, if◌then◌else◌, length, ◌+◌, ◌^◌, ◌≤◌, ◌<◌, arith, ◌≡◌, refl, true, String, List, [], ◌∷◌,
  All,
}
use polite_web_crawler.Common.Outcome.{ok}
use polite_web_crawler.Storage.Cache.{CachedData}
use polite_web_crawler.Common.Rpc.{delivers, carry}
use polite_web_crawler.Common.Url.{parsed, parse_outcome}
use polite_web_crawler.Common.Queue.{
  up, command, push, push_bulk, take_front, parse_line, pop_front,
}
use polite_web_crawler.Storage.Seen.{insert_url}
use polite_web_crawler.Storage.Service.{insert_url_in_seen_urls}
use polite_web_crawler.Storage.Consumer.{push_retried, push_new}
use polite_web_crawler.Storage.Grpc as Grpc
use polite_web_crawler.Worker.Client as Client
use polite_web_crawler.Worker.Core.Loop.{
  popped, tried, replied, proceeds, after_pop, after_try, after_push, worker_step, fetch_sub,
  fetch_add,
}
use polite_web_crawler.Worker.Core.Links as Links
use polite_web_crawler.Worker.Core.Links.{reached, sort, dedup, insert_sorted, dedup_after}
use polite_web_crawler.Worker.Core.Links.Simple.{env, listed-IsBloom, empty_storage, reset}
use polite_web_crawler.Prelude.Dict.{Dict}
use polite_web_crawler.System.{Step, sitemap, acts, operates, finds, asks, step, act_of, act}
use polite_web_crawler.System.Tests.{queued, crawl}
use polite_web_crawler.System.Ledger.{count, taken_by, found_by, Ledger, enter, entries}
use polite_web_crawler.System.Ledger.Conserved.{Working, held, opened, nothing_lost}
use polite_web_crawler.System.Ledger.Complete.{left_at_zero, crawl_completes}
use polite_web_crawler.System.Ledger.Crawl.{seeded_storage, crawled_once}
use polite_web_crawler.System.Refines.{phases}
use polite_web_crawler.Worker.Core.Loop.Balance.{all_held, all_uncounted}
use polite_web_crawler.Worker.Core.Run.{seeded, ends_crawl}
use polite_web_crawler.Worker.Core.Run.Simple.{seeding, starts_at_a}
use polite_web_crawler.System.Ledger.Once.{found_once}

abbrev books : Ledger env
books = entries env crawl (opened env (λ u. refl) empty_storage queued 2)

-- "b" and the sitemap have been found, the seed and the sitemap have been taken up; "b" waits.
two_taken : (books.found ≡ "m" ∷ "b" ∷ []) × (books.taken ≡ "m" ∷ "a" ∷ [])
unfolding entries enter taken_by found_by step act_of act worker_step after_pop after_try after_push
    fetch_sub fetch_add pop_front take_front parse_line parse_outcome command push push_bulk
    push_retried push_new insert_url_in_seen_urls insert_url Links.insert_url Grpc.insert_url
    Client.insert_url carry sort dedup insert_sorted dedup_after
two_taken = (refl, refl)

crawl-Working : All Working crawl
crawl-Working =
    (refl, (refl, (tt, (tt, ((λ i. refl), (tt, (refl, (refl, (refl, (tt, (tt, tt)))))))))))

nothing_lost_example :
    count "b" books.world.shared.queue
      + held env (λ u. refl) "b" books.world.places
      + count "b" books.taken
    ≡ count "b" queued.queue + count "b" books.found
nothing_lost_example =
    nothing_lost env (λ u. refl) "b" empty_storage queued 2 crawl (("a", refl), tt) crawl-Working

found_once_example : count "b" books.found + (if listed-IsBloom.contains [] "b" then 1 else 0) ≤ 1
found_once_example = found_once env listed-IsBloom (λ u. refl) "b" empty_storage queued 2 crawl

queued_counted : queued ≡ seeded 1 ("a" ∷ [])
unfolding seeded
queued_counted = refl

crawled_once_example :
    count "b"
      (entries env crawl (
        opened env
          (λ u. refl)
          (seeded_storage env listed-IsBloom
            (λ u. refl)
            empty_storage
            (reached (delivers reset))
            "a")
          queued
          2)).taken
    ≤ 1
crawled_once_example =
    crawled_once env listed-IsBloom (λ u. refl) seeding "a" "a" ("old" ∷ [])
      (reached (delivers reset)) empty_storage queued 2 crawl refl refl starts_at_a crawl-Working
      "b"

-- The second worker takes up what the first has found, and the counter falls to 0.
abbrev whole : List (Step String ℕ (List String) (Dict (CachedData String)))
whole =
    acts 0 (operates (popped up))
    ∷ acts 0 (operates (tried true up))
    ∷ acts 0 (finds (ok ("b" ∷ [])))
    ∷ acts 0 (asks (reached (delivers reset)))
    ∷ acts 0 (asks (reached (delivers reset)))
    ∷ acts 0 (operates (replied up))
    ∷ acts 1 (operates (popped up))
    ∷ acts 0 (operates proceeds)
    ∷ acts 1 (operates (tried true up))
    ∷ acts 0 (operates proceeds)
    ∷ acts 1 (finds (ok []))
    ∷ acts 1 (asks (reached (delivers reset)))
    ∷ []

abbrev closed : Ledger env
closed = entries env whole (opened env (λ u. refl) empty_storage queued 2)

few : 0 < 2 ^ 64
few = omega arith

few_left : length closed.world.shared.queue + all_held (phases closed.world.places) < 2 ^ 64
unfolding entries enter taken_by found_by step act_of act worker_step after_pop after_try after_push
    fetch_sub fetch_add pop_front take_front parse_line parse_outcome command push push_bulk
    insert_url_in_seen_urls insert_url Links.insert_url Grpc.insert_url Client.insert_url carry sort
    dedup insert_sorted dedup_after
few_left = few

closed-zero :
    (closed.sitemaps ≡ [])
    × (all_uncounted (phases closed.world.places) ≡ 0)
    × (ends_crawl none closed.world.shared.active_tasks 0 ≡ true)
unfolding ends_crawl entries enter taken_by found_by step act_of act worker_step after_pop after_try
    after_push fetch_sub fetch_add pop_front take_front parse_line parse_outcome command push
    push_bulk insert_url_in_seen_urls insert_url Links.insert_url Grpc.insert_url Client.insert_url
    carry sort dedup insert_sorted dedup_after
closed-zero = (refl, refl, refl)

whole-Working : All Working whole
whole-Working = (refl, (refl, (tt, (tt, (tt, (refl, (refl, (tt, (refl, (tt, (tt, (tt, tt))))))))))))

crawl_completes_example : count "b" closed.taken ≡ count "b" queued.queue + count "b" closed.found
crawl_completes_example =
    crawl_completes env (λ u. refl) empty_storage queued 2 0 whole queued_counted (("a", refl), tt)
      whole-Working closed-zero.0 closed-zero.1 few_left closed-zero.2 "b"

-- A sitemap comes in while the only URL is processed.
abbrev mapped : List (Step String ℕ (List String) (Dict (CachedData String)))
mapped =
    acts 0 (operates (popped up))
    ∷ acts 0 (operates (tried true up))
    ∷ sitemap (parsed "m") (λ i. up)
    ∷ acts 0 (finds (ok []))
    ∷ acts 0 (asks (reached (delivers reset)))
    ∷ []

abbrev cut_short : Ledger env
cut_short = entries env mapped (opened env (λ u. refl) empty_storage queued 1)

one_small : 1 < 2 ^ 64
one_small = omega arith

one_left :
    (length cut_short.world.shared.queue + all_held (phases cut_short.world.places) < 2 ^ 64)
    × (length cut_short.sitemaps < 2 ^ 64)
    × (all_uncounted (phases cut_short.world.places) ≡ 0)
    × (ends_crawl none cut_short.world.shared.active_tasks 0 ≡ true)
unfolding ends_crawl entries enter taken_by found_by step act_of act worker_step after_pop after_try
    fetch_sub pop_front take_front parse_line parse_outcome command push push_retried push_new
    insert_url_in_seen_urls insert_url sort dedup
one_left = (one_small, one_small, refl, refl)

mapped-Working : All Working mapped
mapped-Working = (refl, (refl, ((λ i. refl), (tt, (tt, tt)))))

left_at_zero_example :
    length cut_short.world.shared.queue + all_held (phases cut_short.world.places)
    ≡ length cut_short.sitemaps
left_at_zero_example =
    left_at_zero env (λ u. refl) empty_storage queued 1 0 mapped queued_counted (("a", refl), tt)
      mapped-Working one_left.2 one_left.0 one_left.1 one_left.3
