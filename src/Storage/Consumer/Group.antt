-- ===== src/Storage/Consumer/Group.antt =====
-- crates/storage_service/src/main.rs, the loop of `run_redis_stream_consumer` with the group in Redis: entries are
-- handed out once, and stay pending until they are acknowledged.
pub mod Pending
mod Tests
use polite_web_crawler.Prelude.{
  ℕ, zero, suc, Bool, true, false, not, String, List, [], ◌∷◌, ◌++◌, any, filter, map, take, drop,
  str_eq, if◌then◌else◌,
}
use polite_web_crawler.Common.Outcome.{Outcome, ok, err, panic}
use polite_web_crawler.Common.Data.{ParsedData}
use polite_web_crawler.Storage.Service.{Env}
use polite_web_crawler.Storage.Consumer.{StreamEntry, Connections, Consumer, run_entries}

-- What happens: a worker adds an entry to the stream; the consumer reads, with what the connections do
-- while each entry is handled; its read fails; it sees the shutdown.
pub data GroupEvent : Type 0 where
  added : StreamEntry → GroupEvent
  reads : (ℕ → Connections) → GroupEvent
  read_fails shut_down : GroupEvent

ids : List StreamEntry → List String
ids [] = []
ids (e ∷ es) = e.id ∷ ids es

-- `.count(10)`
abbrev pub batch : ℕ
batch = 10

unfoldable pub with_connections :
    (ℕ → Connections) → ℕ → List StreamEntry → List (StreamEntry × Connections)
with_connections c k [] = []
with_connections c k (e ∷ es) = (e, c k) ∷ with_connections c (suc k) es

module _ {Url Robot F32 Filter Store : Type 0} (env : Env Url Robot F32 Filter Store)
    (from_json : String → Outcome (ParsedData F32)) where
  -- The entries that no consumer has been given, those that are pending, and whether the task runs.
  pub record Group : Type 0 where
    pub consumer : Consumer env
    pub undelivered : List StreamEntry
    pub pending : List String
    pub running : Bool

  unacknowledged : List String → List String → List String
  unacknowledged acknowledged pending = filter (λ id. not (any (str_eq id) acknowledged)) pending

  -- Behind the entries that were read.
  after_batch : Group → List StreamEntry → Outcome (Unit {0}) × Consumer env → Group
  unfolding unacknowledged
  after_batch g rest (r, x) = record {
    consumer = x;
    undelivered = rest;
    pending = unacknowledged x.acknowledged g.pending;
    running = elim r [ ok _ ↦ true | err e ↦ true | panic ↦ false ];
  }

  -- `>`: the entries that were never delivered to the group.
  read_new : Group → (ℕ → Connections) → Group
  unfolding ids after_batch with_connections
  read_new g c =
      let new_entries = take batch g.undelivered in
      let delivered = record g { pending = g.pending ++ ids new_entries } in
      after_batch delivered (drop batch g.undelivered)
        (run_entries env from_json g.consumer (with_connections c 0 new_entries))

  unfoldable pub group_step : GroupEvent → Group → Group
  unfolding read_new
  group_step (added e) g = record g { undelivered = g.undelivered ++ e ∷ [] }
  group_step (reads c) g = if g.running then read_new g c else g
  group_step read_fails g = g
  group_step shut_down g = record g { running = false }

  unfoldable pub group_run : List GroupEvent → Group → Group
  unfolding group_step
  group_run [] g = g
  group_run (e ∷ es) g = group_run es (group_step e g)
