-- ===== src/Storage/Service.antt =====
-- crates/storage_service/src/storage/crawler_storage.rs: the storage behind both transports. An operation
-- returns its result and the storage afterwards; what the database driver does is an argument for each
-- call of it. The counter is a `usize` of 64 bits.
pub mod Coherence
pub mod Access
pub mod Obeyed
pub mod Pages
pub mod Stored
pub mod Restart
pub mod Simple
mod Tests
use polite_web_crawler.Prelude.{
  ℕ, ◌+◌, ◌%◌, ◌^◌, Bool, true, false, Option, none, some, String, List, [], if◌then◌else◌,
}
use polite_web_crawler.Common.Text.{Text, Unicode}
use polite_web_crawler.Common.Errors.{url_doesnt_contain_domain}
use polite_web_crawler.Common.Outcome.{Outcome, ok, err, panic}
use polite_web_crawler.Common.Url.{Parsed, parsed, refused, UrlApi, RobotApi, Floats}
use polite_web_crawler.Common.Data.{
  UrlAccess, allowed, disallowed, unknown_domain, url_without_host, ParsedPageSaveData,
  DomainDataSaveData, ParsedData, parsed_domain, parsed_page,
}
use polite_web_crawler.Storage.Dedup.Hash.{SimHash}
use polite_web_crawler.Storage.Dedup.{ContentDeduplicator, init}
use polite_web_crawler.Storage.Dedup as Dedup
use polite_web_crawler.Storage.Cache.{CachedData, new_cached, CacheApi}
use polite_web_crawler.Storage.Cache as Cache
use polite_web_crawler.Storage.Db.{Tables, Fault}
use polite_web_crawler.Storage.Db as Db
use polite_web_crawler.Storage.Seen.{BloomApi, insert_url}

-- The crates that the storage calls.
pub record Env (Url Robot F32 Filter Store : Type 0) : Type 0 where
  pub urls : UrlApi Url
  pub robots : RobotApi Robot F32
  pub floats : Floats F32
  pub cache : CacheApi Store (CachedData Robot)
  pub bloom : BloomApi Filter Url
  pub unicode : Unicode
  pub simhash : SimHash

pub record CrawlerStorage (F32 Filter Store : Type 0) : Type 0 where
  pub seen_urls : Filter
  pub tables : Tables F32
  pub domain_cache : Store
  pub agent_name : String
  pub dedup : ContentDeduplicator
  pub saved_counter : ℕ

module _ {Url Robot F32 Filter Store : Type 0} (env : Env Url Robot F32 Filter Store) where
  open env use {urls, robots, floats, cache, bloom, unicode, simhash}

  abbrev pub Storage : Type 0
  Storage = CrawlerStorage F32 Filter Store

  -- The storage at a start: the hashes of a database that was there before are read.
  unfoldable pub new_storage : Bool → Tables F32 → String → (ℕ → Fault) → Outcome Storage
  new_storage db_exists tables user_agent faults =
      elim (if db_exists then Db.get_simhashes faults tables else ok []) [
        | err e ↦ err e
        | panic ↦ panic
        | ok hashes ↦ ok (record {
          seen_urls = bloom.new_filter;
          tables = tables;
          domain_cache = cache.empty;
          agent_name = user_agent;
          dedup = init hashes 3;
          saved_counter = 0;
        })
      ]

  -- `db.get_cache_info_about_domain(…).await?` and `domain_cache.add_domain(…)` where it finds a row.
  pub load : Storage → String → (ℕ → Fault) → Outcome (Option (CachedData Robot)) × Storage
  load s domain faults =
      elim (Db.get_cache_info_about_domain robots floats domain s.agent_name faults s.tables) [
        | err e ↦ (err e, s)
        | panic ↦ (panic, s)
        | ok none ↦ (ok none, s)
        | ok (some cd) ↦ (
          ok (some cd),
          record s { domain_cache = Cache.add_domain robots cache s.domain_cache domain cd },
        )
      ]

  -- The cached data of a domain, from the cache or else from the database.
  pub cached_or_load :
      Storage → String → (ℕ → Fault) → Outcome (Option (CachedData Robot)) × Storage
  unfolding load
  cached_or_load s domain faults =
      let (found, cache') = Cache.get_cached_domain robots cache s.domain_cache domain in
      elim found [
        | some cd ↦ (ok (some cd), record s { domain_cache = cache' })
        | none ↦ load (record s { domain_cache = cache' }) domain faults
      ]

  -- `Outcome::map` on the first part.
  abbrev pub map_result : {A B : Type 0} → (A → B) → Outcome A × Storage → Outcome B × Storage
  map_result f (ok a, s) = (ok (f a), s)
  map_result f (err e, s) = (err e, s)
  map_result f (panic, s) = (panic, s)

  id_of : Option (CachedData Robot) → Option ℕ
  id_of none = none
  id_of (some cd) = some cd.id

  unfoldable pub get_domain_id : Storage → String → (ℕ → Fault) → Outcome (Option ℕ) × Storage
  unfolding cached_or_load id_of
  get_domain_id s domain faults = map_result id_of (cached_or_load s domain faults)

  -- What robots.txt says of a path; where there is none, all is allowed.
  pub access_of : Url → Option (CachedData Robot) → UrlAccess
  access_of url none = unknown_domain
  access_of url (some cd) = elim cd.robot [
    | none ↦ allowed
    | some robot ↦ if robots.allowed robot (urls.path url) then allowed else disallowed
  ]

  unfoldable pub check_if_url_allowed : Storage → Url → (ℕ → Fault) → Outcome UrlAccess × Storage
  check_if_url_allowed s url faults = elim (urls.domain url) [
    | none ↦ (ok url_without_host, s)
    | some domain ↦ map_result (access_of url) (cached_or_load s domain faults)
  ]

  -- One second for a domain that is not known; in nanoseconds.
  delay_of : Option (CachedData Robot) → ℕ
  delay_of none = 1_000_000_000
  delay_of (some cd) = cd.delay

  unfoldable pub get_delay : Storage → String → (ℕ → Fault) → Outcome ℕ × Storage
  unfolding cached_or_load delay_of
  get_delay s domain faults = map_result delay_of (cached_or_load s domain faults)

  unfoldable pub insert_url_in_seen_urls : Storage → Url → Bool × Storage
  unfolding insert_url
  insert_url_in_seen_urls s url =
      let (old, seen) = insert_url bloom s.seen_urls url in (old, record s { seen_urls = seen })

  -- The write to the database, with the hash of a text that has just been inserted.
  pub write_page :
      Storage → ℕ → ParsedPageSaveData → Option ℕ → (ℕ → Fault) → Outcome (Unit {0}) × Storage
  write_page s dom_id page hash faults =
      let (r, tables', _) = Db.save_parsed_page dom_id page hash faults s.tables in
      (r, record s { tables = tables' })

  pub save_text :
      Storage → ℕ → ParsedPageSaveData → Text → (ℕ → Fault) → Outcome (Unit {0}) × Storage
  save_text s dom_id page txt faults =
      let (dedup', hash) = Dedup.insert unicode simhash s.dedup txt in
      if Dedup.is_duplicate unicode simhash s.dedup txt
      then (ok tt, s)
      else write_page (record s { dedup = dedup' }) dom_id page (some hash) faults

  -- The `match` on the text.
  pub save_clean_text :
      Storage → ℕ → ParsedPageSaveData → (ℕ → Fault) → Option Text → Outcome (Unit {0}) × Storage
  unfolding write_page save_text
  save_clean_text s dom_id page faults none = write_page s dom_id page none faults
  save_clean_text s dom_id page faults (some txt) = save_text s dom_id page txt faults

  unfoldable pub save_parsed_page :
      Storage → ℕ → ParsedPageSaveData → (ℕ → Fault) → Outcome (Unit {0}) × Storage
  unfolding save_clean_text
  save_parsed_page s dom_id page faults = save_clean_text s dom_id page faults page.clean_text

  -- `save_domain` behind the write to the database. A text of robots.txt that cannot be read is an
  -- error, and the row has been written.
  pub cache_domain : Storage → DomainDataSaveData F32 → ℕ → Outcome (List String) × Storage
  cache_domain s d id = elim (new_cached robots floats id d.robots d.delay s.agent_name) [
    | err e ↦ (err e, s)
    | panic ↦ (panic, s)
    | ok cd ↦
        let cached = Cache.add_domain robots cache s.domain_cache d.domain_string cd in
        let (sitemaps, cache') = Cache.get_sitemaps robots cache cached d.domain_string in
        (ok sitemaps, record s { domain_cache = cache' })
  ]

  unfoldable pub save_domain :
      Storage → DomainDataSaveData F32 → (ℕ → Fault) → Outcome (List String) × Storage
  unfolding cache_domain
  save_domain s d faults =
      let (r, tables', _) = Db.save_domain d faults s.tables in
      let s' = record s { tables = tables' } in
      elim r [ err e ↦ (err e, s') | panic ↦ (panic, s') | ok id ↦ cache_domain s' d id ]

  -- Behind `save_parsed_page(id, &pp).await?`: `saved_counter.fetch_add(1)`.
  pub count : Outcome (Unit {0}) × Storage → Outcome (List String) × Storage
  count (err e, s) = (err e, s)
  count (panic, s) = (panic, s)
  count (ok _, s) = (ok [], record s { saved_counter = (s.saved_counter + 1) % 2 ^ 64 })

  -- A page event behind the lookup of its domain's id.
  pub save_page_under :
      Outcome (Option ℕ) × Storage
      → ParsedPageSaveData
      → (ℕ → Fault)
      → Outcome (List String) × Storage
  unfolding count
  save_page_under (err e, s) page faults = (err e, s)
  save_page_under (panic, s) page faults = (panic, s)
  save_page_under (ok none, s) page faults = (err url_doesnt_contain_domain, s)
  save_page_under (ok (some id), s) page faults = count (save_parsed_page s id page faults)

  -- A page event, from its host on: the first argument of faults is for the lookup of the domain, the
  -- second for the write of the page.
  pub save_page_of :
      Storage
      → Option String
      → ParsedPageSaveData
      → (ℕ → Fault)
      → (ℕ → Fault)
      → Outcome (List String) × Storage
  unfolding save_page_under
  save_page_of s none page looking writing = (err url_doesnt_contain_domain, s)
  save_page_of s (some host) page looking writing =
      save_page_under (get_domain_id s host looking) page writing

  pub save_page_at :
      Storage
      → Parsed Url
      → ParsedPageSaveData
      → (ℕ → Fault)
      → (ℕ → Fault)
      → Outcome (List String) × Storage
  unfolding save_page_of
  save_page_at s (refused e) page looking writing = (panic, s)
  save_page_at s (parsed url) page looking writing =
      save_page_of s (urls.domain url) page looking writing

  unfoldable pub save_parsed_data :
      Storage → ParsedData F32 → (ℕ → Fault) → (ℕ → Fault) → Outcome (List String) × Storage
  unfolding save_page_at
  save_parsed_data s (parsed_page page) looking writing =
      save_page_at s (urls.parse page.url) page looking writing
  save_parsed_data s (parsed_domain d) looking writing = save_domain s d writing
