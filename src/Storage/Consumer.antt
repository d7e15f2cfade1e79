-- ===== src/Storage/Consumer.antt =====
-- crates/storage_service/src/main.rs, `run_redis_stream_consumer` and `process_stream_entry`: events come from
-- a stream, are saved, and are acknowledged. JSON is a parameter; what the connections do is an argument.
pub mod Sitemaps
pub mod Processed
pub mod Acknowledged
pub mod Group
pub mod Simple
use polite_web_crawler.Prelude.{
  ℕ, zero, suc, Bool, true, false, Option, none, some, String, List, [], ◌∷◌, if◌then◌else◌,
}
use polite_web_crawler.Common.Text.{Text, codes, contains}
use polite_web_crawler.Common.Outcome.{Outcome, ok, err, panic, ◌>>=◌}
use polite_web_crawler.Common.Url.{Parsed, parsed, refused}
use polite_web_crawler.Common.Data.{ParsedData}
use polite_web_crawler.Common.Queue.{Link, push}
use polite_web_crawler.Storage.Db.{Fault}
use polite_web_crawler.Storage.Service.{
  Env, CrawlerStorage, insert_url_in_seen_urls, save_parsed_data,
}

-- An entry of the stream: its id, and the text of its field "payload", if it is a bulk string.
pub record StreamEntry : Type 0 where
  pub id : String
  pub payload : Option String

-- What the connections do while an entry is handled: the database at the lookup and at the write, the
-- queue at the attempts for each sitemap, and whether `XACK` reaches Redis.
pub record Connections : Type 0 where
  pub looking : ℕ → Fault
  pub writing : ℕ → Fault
  pub links : ℕ → ℕ → Link
  pub acks : Bool

-- The creation of the group fails only with an error that does not say that it exists.
unfoldable pub group_ready : Option Text → Bool
group_ready none = true
group_ready (some e) = contains e (codes "BUSYGROUP")

-- The loop `for i in 1..=3` of pushes, from round `i` on with the rounds that are left.
unfoldable pub push_retried : ℕ → ℕ → (ℕ → Link) → String → List String → List String
unfolding push
push_retried zero i links url queue = queue
push_retried (suc n) i links url queue =
    let (r, queue') = push (links i) url queue in
    let again = push_retried n (suc i) links url queue' in
    elim r [ ok _ ↦ queue' | err e ↦ again | panic ↦ again ]

module _ {Url Robot F32 Filter Store : Type 0} (env : Env Url Robot F32 Filter Store) where
  pub record Consumer : Type 0 where
    pub storage : CrawlerStorage F32 Filter Store
    pub queue : List String
    pub acknowledged : List String

  -- A sitemap of a domain that has been saved.
  unfoldable pub push_new :
      CrawlerStorage F32 Filter Store × List String
      → (ℕ → Link)
      → Parsed Url
      → CrawlerStorage F32 Filter Store × List String
  unfolding insert_url_in_seen_urls push_retried
  push_new (s, queue) links (refused e) = (s, queue)
  push_new (s, queue) links (parsed u) =
      let (seen, s') = insert_url_in_seen_urls env s u in
      let pushed = push_retried 3 1 links (env.urls.as_str u) queue in
      (s', if seen then queue else pushed)

  -- The loop over the sitemaps, from number `k` on.
  unfoldable pub push_sitemaps :
      CrawlerStorage F32 Filter Store × List String
      → (ℕ → ℕ → Link)
      → ℕ
      → List String
      → CrawlerStorage F32 Filter Store × List String
  unfolding push_new
  push_sitemaps x links k [] = x
  push_sitemaps x links k (url ∷ urls) =
      push_sitemaps (push_new x (links k) (env.urls.parse url)) links (suc k) urls

  save_read :
      CrawlerStorage F32 Filter Store
      → Outcome (ParsedData F32)
      → Connections
      → Outcome (List String) × CrawlerStorage F32 Filter Store
  save_read s (ok event) c = save_parsed_data env s event c.looking c.writing
  save_read s (err e) c = (err e, s)
  save_read s panic c = (panic, s)

  -- An entry without a payload counts as processed.
  process_payload :
      (String → Outcome (ParsedData F32))
      → CrawlerStorage F32 Filter Store
      → Option String
      → Connections
      → Outcome (List String) × CrawlerStorage F32 Filter Store
  unfolding save_read
  process_payload from_json s none c = (ok [], s)
  process_payload from_json s (some payload) c = save_read s (from_json payload) c

  unfoldable pub process_stream_entry :
      (String → Outcome (ParsedData F32))
      → CrawlerStorage F32 Filter Store
      → StreamEntry
      → Connections
      → Outcome (List String) × CrawlerStorage F32 Filter Store
  unfolding process_payload
  process_stream_entry from_json s entry c = process_payload from_json s entry.payload c

  -- The consumer behind the processing of an entry.
  pub after_entry :
      Consumer
      → StreamEntry
      → Connections
      → Outcome (List String) × CrawlerStorage F32 Filter Store
      → Outcome (Unit {0}) × Consumer
  unfolding push_sitemaps
  after_entry x entry c (ok urls, s) =
      let (s', queue') = push_sitemaps (s, x.queue) c.links 0 urls in
      (
        ok tt,
        record {
          storage = s';
          queue = queue';
          acknowledged = if c.acks then entry.id ∷ x.acknowledged else x.acknowledged;
        },
      )
  after_entry x entry c (err e, s) = (ok tt, record x { storage = s })
  after_entry x entry c (panic, s) = (panic, record x { storage = s })

  unfoldable pub handle_entry :
      (String → Outcome (ParsedData F32))
      → Consumer
      → StreamEntry
      → Connections
      → Outcome (Unit {0}) × Consumer
  unfolding after_entry
  handle_entry from_json x entry c =
      after_entry x entry c (process_stream_entry from_json x.storage entry c)

  -- A panic ends the task, else the loop goes on with `more`.
  unfoldable pub go_on :
      Outcome (Unit {0}) × Consumer → Outcome (Unit {0}) × Consumer → Outcome (Unit {0}) × Consumer
  go_on (ok _, x) more = more
  go_on (err e, x) more = (err e, x)
  go_on (panic, x) more = (panic, x)

  -- The entries that were read, in order.
  unfoldable pub run_entries :
      (String → Outcome (ParsedData F32))
      → Consumer
      → List (StreamEntry × Connections)
      → Outcome (Unit {0}) × Consumer
  unfolding go_on
  run_entries from_json x [] = (ok tt, x)
  run_entries from_json x ((entry, c) ∷ rest) =
      let handled = handle_entry from_json x entry c in
      let more = run_entries from_json handled.1 rest in go_on handled more
