-- ===== src/Common/Queue.antt =====
-- crates/common/src/task_queue/task_queue.rs. The list in Redis is the state; what the connection does at
-- a call is an argument. Reading with a timeout answers nothing where the list stays empty.
pub mod Order
use polite_web_crawler.Prelude.{
  ℕ, Bool, Option, none, some, String, List, [], ◌∷◌, ◌++◌, ◌==◌, length,
}
use polite_web_crawler.Common.Errors.{task_queue_error}
use polite_web_crawler.Common.Outcome.{Outcome, ok, err, panic, ◌>>=◌}
use polite_web_crawler.Common.Url.{UrlApi, parse_outcome}

-- A call works, or its request is lost, or its reply is lost behind it.
pub data Link : Type 0 where
  up : Link
  lost_request lost_reply : String → Link

-- A command on the list.
unfoldable pub command :
    {A : Type 0} → Link → A × List String → List String → Outcome A × List String
command up (a, after) before = (ok a, after)
command (lost_request e) (a, after) before = (err (task_queue_error e), before)
command (lost_reply e) (a, after) before = (err (task_queue_error e), after)

-- `RPUSH`
unfoldable pub push : Link → String → List String → Outcome (Unit {0}) × List String
unfolding command
push link url queue = command link (tt, queue ++ url ∷ []) queue

unfoldable pub push_bulk : Link → List String → List String → Outcome ℕ × List String
unfolding command
push_bulk link [] queue = (ok 0, queue)
push_bulk link (url ∷ urls) queue = command link (length (url ∷ urls), queue ++ url ∷ urls) queue

-- `BLPOP`
unfoldable pub take_front : List String → Option String × List String
take_front [] = (none, [])
take_front (url ∷ queue) = (some url, queue)

module _ {Url : Type 0} (urls : UrlApi Url) where
  unfoldable pub parse_line : Option String → Outcome (Option Url)
  parse_line none = ok none
  parse_line (some line) = parse_outcome (urls.parse line) >>= λ u. ok (some u)

  unfoldable pub pop_front : Link → List String → Outcome (Option Url) × List String
  unfolding command take_front parse_line
  pop_front link queue =
      let (line, rest) = command link (take_front queue) queue in (line >>= parse_line, rest)

-- `LLEN`
unfoldable pub queue_len : Link → List String → Outcome ℕ × List String
unfolding command
queue_len link queue = command link (length queue, queue) queue

unfoldable pub is_empty : Link → List String → Outcome Bool × List String
unfolding command
is_empty link queue = command link (length queue == 0, queue) queue

-- `DEL`
unfoldable pub clean_queue : Link → List String → Outcome (Unit {0}) × List String
unfolding command
clean_queue link queue = command link (tt, []) queue
