-- ===== src/Common/Queue/Order/Tests.antt =====
-- Runs of the queue, and its theorem at a concrete input.
use polite_web_crawler.Prelude.{◌≡◌, refl, map, [], ◌∷◌}
use polite_web_crawler.Common.Errors.{task_queue_error}
use polite_web_crawler.Common.Outcome.{err}
use polite_web_crawler.Common.Url.Simple.{simple_urls}
use polite_web_crawler.Common.Queue.{lost_reply, command, push_bulk}
use polite_web_crawler.Common.Queue.Order.{one, bulk, pushed, pops, read_back, pops-pushed}

reply_lost_behind_push :
    push_bulk (lost_reply "reset") ("a" ∷ "b" ∷ []) []
    ≡ (err (task_queue_error "reset"), "a" ∷ "b" ∷ [])
unfolding push_bulk command
reply_lost_behind_push = refl

pops-pushed_example :
    pops simple_urls 3 (pushed (bulk ("b" ∷ []) ∷ one "c" ∷ []) ("a" ∷ []))
    ≡ (map (read_back simple_urls) ("a" ∷ "b" ∷ "c" ∷ []), [])
pops-pushed_example = pops-pushed simple_urls (bulk ("b" ∷ []) ∷ one "c" ∷ []) ("a" ∷ [])
