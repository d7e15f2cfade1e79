-- ===== src/Storage/Consumer/Simple.antt =====
-- A small page event, and its handling, on which the tests run.
use polite_web_crawler.Prelude.{
  str_eq, if◌then◌else◌, ℕ, ◌≡◌, ◌≢◌, refl, true, some, none, String, [], ◌∷◌,
}
use polite_web_crawler.Prelude.Dict.{lookup}
use polite_web_crawler.Common.Errors.{not_allowed}
use polite_web_crawler.Common.Outcome.{Outcome, ok, err}
use polite_web_crawler.Common.Data.{ParsedPageSaveData, ParsedData, parsed_page}
use polite_web_crawler.Common.Queue.{up}
use polite_web_crawler.Storage.Cache.{new_cached, get_cached_domain}
use polite_web_crawler.Storage.Db as Db
use polite_web_crawler.Storage.Db.{
  with_backoff, try_from, attempt, after_attempt, find_domain, cache_info,
  get_cache_info_about_domain, select_domain,
}
use polite_web_crawler.Common.Text.{is_whitespace}
use polite_web_crawler.Common.Text.Utf8.{as_bytes}
use polite_web_crawler.Storage.Dedup.Bits.{diff_bits}
use polite_web_crawler.Storage.Dedup.Hash.{calculate_hash, cleaned, ngrams}
use polite_web_crawler.Storage.Dedup.{init, insert, is_duplicate, extract_band, push_at}
use polite_web_crawler.Storage.Db.Casts.{as_i64}
use polite_web_crawler.Storage.Service.{save_parsed_data, get_domain_id, save_parsed_page}
use polite_web_crawler.Storage.Service.Simple.{env, started, working}
use polite_web_crawler.Storage.Consumer.{
  StreamEntry, Connections, Consumer, process_stream_entry, process_payload, save_read, after_entry,
  handle_entry,
}

abbrev pub connections : Connections
connections = record { looking = working; writing = working; links = λ k i. up; acks = true }

abbrev pub entry : StreamEntry
entry = record { id = "1-0"; payload = some "event" }

-- A page without a text.
abbrev pub page : ParsedPageSaveData
page = record { title = none; description = none; clean_text = some []; url = "/open" }

abbrev pub fresh : Consumer env
fresh = record { storage = started; queue = []; acknowledged = [] }

-- A JSON that has this page only.
abbrev pub read_page : String → Outcome (ParsedData ℕ)
read_page text = if str_eq text "event" then ok (parsed_page page) else err not_allowed

page_acknowledged : (handle_entry env read_page fresh entry connections).1.acknowledged ≡ "1-0" ∷ []
unfolding handle_entry process_stream_entry process_payload save_read after_entry save_parsed_data
    get_domain_id get_cached_domain save_parsed_page get_cache_info_about_domain cache_info
    with_backoff try_from attempt after_attempt select_domain find_domain new_cached lookup
    Db.save_parsed_page Db.save_page_stmt Db.find_page Db.upsert_page is_duplicate init extract_band
    calculate_hash cleaned ngrams as_bytes is_whitespace push_at diff_bits insert as_i64
page_acknowledged = refl

pub some_acknowledged : (handle_entry env read_page fresh entry connections).1.acknowledged ≢ []
some_acknowledged h = cc (h, page_acknowledged)
