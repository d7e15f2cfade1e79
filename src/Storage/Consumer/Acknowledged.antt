-- ===== src/Storage/Consumer/Acknowledged.antt =====
-- main.rs: what the acknowledgement of a page event means.
use polite_web_crawler.Prelude.{◌≡◌, ◌≢◌, refl, ◌⊎◌, some, String, List, []}
use polite_web_crawler.Common.Outcome.{Outcome, ok, err, panic}
use polite_web_crawler.Common.Data.{ParsedPageSaveData, ParsedData, parsed_page}
use polite_web_crawler.Storage.Cache.{IsCache}
use polite_web_crawler.Storage.Db.Pages.{StoredPage}
use polite_web_crawler.Storage.Service.{Env, CrawlerStorage, save_parsed_data}
use polite_web_crawler.Storage.Service.Coherence.{IsCoherent}
use polite_web_crawler.Storage.Service.Stored.{IsDuplicate, Stores, save_parsed_data-Stores}
use polite_web_crawler.Storage.Consumer.Processed.{processed}
use polite_web_crawler.Storage.Consumer.{
  StreamEntry, Connections, Consumer, push_sitemaps, process_stream_entry, after_entry,
  handle_entry,
}

module _ {Url Robot F32 Filter Store : Type 0} (env : Env Url Robot F32 Filter Store)
    (law : IsCache env.cache) (from_json : String → Outcome (ParsedData F32)) (x : Consumer env)
    (entry : StreamEntry) (c : Connections) (page : ParsedPageSaveData) (payload : String) where
  -- What the acknowledgement of the entry means.
  abbrev Meant : Consumer env → Type 0
  Meant x' = StoredPage x'.storage.tables page ⊎ IsDuplicate env x.storage.dedup page

  after_entry-Meant :
      (r : Outcome (List String) × CrawlerStorage F32 Filter Store)
      → Stores env x.storage.dedup page [] r
      → (after_entry env x entry c r).1.acknowledged ≢ x.acknowledged
      → Meant (after_entry env x entry c r).1
  unfolding after_entry
  after_entry-Meant (err e, s) stores acked = absurd (acked refl)
  after_entry-Meant (panic, s) stores acked = absurd (acked refl)
  after_entry-Meant (ok urls, s) stores acked =
      let (none_found, meant) = stores urls refl in rw none_found (unfold push_sitemaps in meant)

  -- An acknowledged page is stored. If, from a coherent storage, the handling of an entry that reads as
  -- a page acknowledges anything, however the database, the queue and the stream fail on the way, then
  -- the table has a row under the page's URL with its title, description and text, or the page's text
  -- was a duplicate of one that the deduplicator knew before.
  pub acknowledged_stored :
      IsCoherent env law x.storage
      → entry.payload ≡ some payload
      → from_json payload ≡ ok (parsed_page page)
      → (handle_entry env from_json x entry c).1.acknowledged ≢ x.acknowledged
      → StoredPage (handle_entry env from_json x entry c).1.storage.tables page
        ⊎ IsDuplicate env x.storage.dedup page
  unfolding handle_entry
  acknowledged_stored coh has reads acked = rw event (
      after_entry-Meant (save_parsed_data env x.storage (parsed_page page) c.looking c.writing)
        (save_parsed_data-Stores env law x.storage coh page c.looking c.writing)
        (λ same. acked (rw event same)))
    where
      event :
          process_stream_entry env from_json x.storage entry c
          ≡ save_parsed_data env x.storage (parsed_page page) c.looking c.writing
      event = processed env from_json x.storage entry c (parsed_page page) payload has reads
