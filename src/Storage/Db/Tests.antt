-- ===== src/Storage/Db/Tests.antt =====
-- Runs of the database loops, and their theorems at concrete inputs.
use polite_web_crawler.Prelude.{
  ℕ, zero, suc, ◌≡◌, ◌≢◌, ◌⊎◌, refl, none, some, String, [], ◌∷◌, arith,
}
use polite_web_crawler.Common.Text.{codes}
use polite_web_crawler.Common.Errors.{db_error}
use polite_web_crawler.Common.Outcome.{ok, err}
use polite_web_crawler.Common.Data.{DomainDataSaveData, ParsedPageSaveData}
use polite_web_crawler.Storage.Db.Casts.{as_i64, as_u64}
use polite_web_crawler.Storage.Db.Retries.{AtMostOnce, Once, with_backoff-Once}
use polite_web_crawler.Storage.Db.Domains.{save_domain_once}
use polite_web_crawler.Storage.Db.Hashes.{working, save_parsed_page_hash}
use polite_web_crawler.Storage.Db.{
  DomainRow, Tables, Fault, works, fails_before, fails_after, with_backoff, try_from, attempt,
  after_attempt, find_page, upsert_page, page_hashes, find_domain, upsert_domain, save_domain_stmt,
  save_domain, save_page_stmt, save_parsed_page, select_domain, select_hashes, get_simhashes,
}

abbrev known : DomainRow ℕ
known = record { dom_id = 1; domain_string = "a.org"; delay = some 2; allowed_urls = none }

abbrev filled : Tables ℕ
filled = record { domains = known ∷ []; pages = []; last_domain = 1; last_page = 0 }

abbrev update : DomainDataSaveData ℕ
update = record { domain_string = "a.org"; robots = some "/private"; delay = 5 }

abbrev page : ParsedPageSaveData
page = record {
  title = none;
  description = none;
  clean_text = some (codes "text");
  url = "https://a.org/";
}

-- The statement runs, its reply is lost, and it runs again.
abbrev lost_reply : ℕ → Fault
lost_reply zero = fails_after "lost"
lost_reply (suc n) = works

abbrev broken : ℕ → Fault
broken i = fails_before "locked"

-- Three attempts, with sleeps of 1 and 2 seconds between them.
three_attempts : (save_domain update broken filled) ≡ (err (db_error "locked"), filled, 3)
unfolding save_domain with_backoff try_from attempt after_attempt
three_attempts = refl

cast_back : as_u64 (as_i64 0xffffffffffffffff) ≡ 0xffffffffffffffff
unfolding as_u64 as_i64
cast_back = refl

with_backoff-Once_example :
    Once (select_domain "a.org") filled (with_backoff (select_domain "a.org") lost_reply filled)
unfolding select_domain
with_backoff-Once_example = with_backoff-Once (select_domain "a.org") filled (λ t. refl) lost_reply

saved_id : (save_domain update lost_reply filled).0 ≡ ok 1
unfolding save_domain with_backoff try_from attempt after_attempt save_domain_stmt find_domain
    upsert_domain
saved_id = refl

save_domain_once_example :
    ((id : ℕ) × ((save_domain update lost_reply filled).0 ≡ ok id)
      × (find_domain "a.org" (save_domain update lost_reply filled).1.domains
          ≡ some (record {
            dom_id = id;
            domain_string = "a.org";
            delay = some 5;
            allowed_urls = some "/private";
          }))
      × ((r : DomainRow ℕ) → find_domain "a.org" filled.domains ≡ some r → id ≡ r.dom_id)
      × ((s : String)
          → "a.org" ≢ s
          → find_domain s (save_domain update lost_reply filled).1.domains
            ≡ find_domain s filled.domains))
    ⊎ ((e : String) × ((save_domain update lost_reply filled).0 ≡ err (db_error e))
        × AtMostOnce (save_domain_stmt update) filled (save_domain update lost_reply filled).1)
save_domain_once_example = save_domain_once update lost_reply filled

fresh : find_page page.url filled.pages ≡ none
unfolding find_page
fresh = refl

page_saved : (save_parsed_page 1 page (some 0x8000000000000001) lost_reply filled).0 ≡ ok tt
unfolding save_parsed_page with_backoff try_from attempt after_attempt save_page_stmt find_page
    upsert_page as_i64
page_saved = refl

no_hashes : get_simhashes working filled ≡ ok []
unfolding get_simhashes with_backoff try_from attempt after_attempt select_hashes page_hashes
no_hashes = refl

save_parsed_page_hash_example :
    get_simhashes working (save_parsed_page 1 page (some 0x8000000000000001) lost_reply filled).1
    ≡ ok (0x8000000000000001 ∷ [])
save_parsed_page_hash_example =
    save_parsed_page_hash 1 page 0x8000000000000001 lost_reply filled [] (omega arith) fresh
      page_saved no_hashes
