-- ===== src/Storage/Service/Restart/Tests.antt =====
-- A restart behind a saved page, and the theorem on restarts at it.
use polite_web_crawler.Prelude.{
  ℕ, ◌^◌, ◌≡◌, refl, false, ◌<◌, ◌≤◌, length, true, none, some, String, List, [], ◌∷◌, arith,
}
use polite_web_crawler.Prelude.Dict.{Dict}
use polite_web_crawler.Common.Text.{codes, is_whitespace}
use polite_web_crawler.Common.Text.Utf8.{as_bytes}
use polite_web_crawler.Common.Text.Ascii.{ascii}
use polite_web_crawler.Common.Outcome.{ok}
use polite_web_crawler.Common.Data.{ParsedPageSaveData}
use polite_web_crawler.Storage.Dedup.Bits.{diff_bits}
use polite_web_crawler.Storage.Dedup.Hash.{calculate_hash, cleaned, ngrams}
use polite_web_crawler.Storage.Dedup.{init, insert, is_duplicate, extract_band, push_at}
use polite_web_crawler.Storage.Cache.{CachedData}
use polite_web_crawler.Storage.Db.{
  find_page, DomainRow, Tables, Fault, works, fails_before, with_backoff, try_from, attempt,
  after_attempt, find_domain, cache_info, get_cache_info_about_domain, select_domain,
}
use polite_web_crawler.Storage.Db as Db
use polite_web_crawler.Storage.Db.Casts.{as_i64, as_u64}
use polite_web_crawler.Storage.Service.Restart.{restart_remembers}
use polite_web_crawler.Storage.Service.{
  new_storage, CrawlerStorage, save_parsed_page, save_clean_text, save_text, write_page,
}
use polite_web_crawler.Storage.Service.Simple.{env, working, started}

abbrev longer : ParsedPageSaveData
longer = record {
  title = none;
  description = none;
  clean_text = some (codes "abcd");
  url = "https://a.org/";
}

abbrev saved_tables : Tables ℕ
saved_tables = (save_parsed_page env started 1 longer working).1.tables

longer_saved : (save_parsed_page env started 1 longer working).0 ≡ ok tt
unfolding save_parsed_page save_clean_text save_text write_page Db.save_parsed_page with_backoff
    try_from attempt after_attempt is_duplicate init extract_band calculate_hash cleaned ngrams
    as_bytes is_whitespace push_at diff_bits Db.save_page_stmt find_page Db.upsert_page as_i64
longer_saved = refl

abbrev after_restart : CrawlerStorage ℕ (List ℕ) (Dict (CachedData String))
after_restart = record started { tables = saved_tables; dedup = init (5 ∷ []) 3 }

started_again : new_storage env true saved_tables "crawler" working ≡ ok after_restart
unfolding new_storage save_parsed_page save_clean_text save_text write_page Db.save_parsed_page
    with_backoff try_from attempt after_attempt is_duplicate init extract_band calculate_hash
    cleaned ngrams as_bytes is_whitespace push_at diff_bits Db.save_page_stmt find_page
    Db.upsert_page as_i64 as_u64 Db.get_simhashes Db.select_hashes Db.page_hashes insert
started_again = refl

hash_small : calculate_hash ascii env.simhash (codes "abcd") < 2 ^ 64
unfolding calculate_hash cleaned ngrams as_bytes is_whitespace
hash_small = omega arith

text_new : is_duplicate ascii env.simhash started.dedup (codes "abcd") ≡ false
unfolding is_duplicate init extract_band calculate_hash cleaned ngrams as_bytes is_whitespace
    push_at
text_new = refl

same_letters : cleaned ascii (codes "abcd") ≡ cleaned ascii (codes "a-bcd")
unfolding cleaned is_whitespace
same_letters = refl

long_enough : 4 ≤ length (as_bytes (cleaned ascii (codes "abcd")))
unfolding cleaned as_bytes is_whitespace
long_enough = omega arith

restart_remembers_example :
    is_duplicate ascii env.simhash after_restart.dedup (codes "a-bcd") ≡ true
restart_remembers_example =
    restart_remembers env started 1 longer working (codes "abcd") (codes "a-bcd") saved_tables
      "crawler" working after_restart (λ x h. refl) hash_small refl text_new longer_saved refl
      started_again same_letters long_enough
