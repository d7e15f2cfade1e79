-- ===== src/Storage/Service/Tests.antt =====
-- Runs of the storage, and its theorems at concrete inputs.
use polite_web_crawler.Prelude.{
  ℕ, ◌+◌, ◌%◌, ◌^◌, ◌≡◌, refl, true, none, some, String, List, [], ◌∷◌, arith,
}
use polite_web_crawler.Prelude.Dict.{Dict, lookup, insert}
use polite_web_crawler.Common.Text.{codes, is_whitespace}
use polite_web_crawler.Common.Text.Utf8.{as_bytes}
use polite_web_crawler.Common.Text.Ascii.{ascii}
use polite_web_crawler.Common.Errors.{db_error}
use polite_web_crawler.Common.Outcome.{ok, err}
use polite_web_crawler.Common.Data.{ParsedPageSaveData, DomainDataSaveData, parsed_page}
use polite_web_crawler.Storage.Dedup.Bits.{diff_bits}
use polite_web_crawler.Storage.Dedup.Hash.{calculate_hash, cleaned, ngrams}
use polite_web_crawler.Storage.Dedup.Index.{init-IsIndex}
use polite_web_crawler.Storage.Dedup.{init, is_duplicate, extract_band, push_at}
use polite_web_crawler.Storage.Cache.{
  CachedData, get_cached_domain, new_cached, add_domain, get_sitemaps,
}
use polite_web_crawler.Storage.Db.{
  DomainRow, Tables, Fault, works, fails_before, with_backoff, try_from, attempt, after_attempt,
  find_domain, cache_info, get_cache_info_about_domain, select_domain,
}
use polite_web_crawler.Storage.Db as Db
use polite_web_crawler.Storage.Service.Coherence.{Answers}
use polite_web_crawler.Storage.Service.Access.{
  access_spec, check_if_url_allowed_refines, Saved, save_domain-Saved,
}
use polite_web_crawler.Storage.Service.Pages.{duplicate_counted, failed_page_is_lost}
use polite_web_crawler.Storage.Service.{
  CrawlerStorage, check_if_url_allowed, cached_or_load, load, get_domain_id, save_domain,
  cache_domain, save_parsed_data, save_parsed_page, save_clean_text, save_text, write_page,
}
use polite_web_crawler.Storage.Service.Simple.{
  keeping-IsCache, env, working, locked, started, secret, started-IsCoherent,
}

check_if_url_allowed_refines_example :
    Answers env keeping-IsCache
      (check_if_url_allowed env started secret working).0
      (access_spec env keeping-IsCache started secret)
check_if_url_allowed_refines_example =
    (check_if_url_allowed_refines env keeping-IsCache started secret working started-IsCoherent).0

abbrev update : DomainDataSaveData ℕ
update = record { domain_string = "b.org"; robots = some "/x"; delay = 5 }

update_saved :
    save_domain env started update working
    ≡ (ok ("https://a.org/sitemap.xml" ∷ []), (save_domain env started update working).1)
unfolding save_domain cache_domain add_domain get_sitemaps new_cached insert lookup Db.save_domain
    with_backoff try_from attempt after_attempt Db.save_domain_stmt find_domain Db.upsert_domain
update_saved = refl

save_domain-Saved_example :
    Saved env keeping-IsCache started
      (save_domain env started update working).1
      update
      ("https://a.org/sitemap.xml" ∷ [])
save_domain-Saved_example =
    save_domain-Saved env keeping-IsCache started update working ("https://a.org/sitemap.xml" ∷ [])
      (save_domain env started update working).1 started-IsCoherent update_saved

abbrev page : ParsedPageSaveData
page = record {
  title = none;
  description = none;
  clean_text = some (codes "abc");
  url = "https://a.org/";
}

-- The same text is known from before.
abbrev restarted : CrawlerStorage ℕ (List ℕ) (Dict (CachedData String))
restarted = record started { dedup = init (97 ∷ []) 3 }

abbrev looked_up : CrawlerStorage ℕ (List ℕ) (Dict (CachedData String))
looked_up = (get_domain_id env restarted "a.org" working).1

id_known : get_domain_id env restarted "a.org" working ≡ (ok (some 1), looked_up)
unfolding get_domain_id cached_or_load load get_cached_domain get_cache_info_about_domain cache_info
    with_backoff try_from attempt after_attempt select_domain find_domain new_cached lookup
id_known = refl

text_known : is_duplicate ascii env.simhash looked_up.dedup (codes "abc") ≡ true
unfolding get_domain_id cached_or_load load get_cached_domain get_cache_info_about_domain cache_info
    with_backoff try_from attempt after_attempt select_domain find_domain new_cached lookup
    is_duplicate init extract_band calculate_hash cleaned ngrams as_bytes is_whitespace push_at
    diff_bits
text_known = refl

duplicate_counted_example :
    save_parsed_data env restarted (parsed_page page) working locked
    ≡ (ok [], record looked_up { saved_counter = (looked_up.saved_counter + 1) % 2 ^ 64 })
duplicate_counted_example =
    duplicate_counted env restarted looked_up page
      (record { host = some "a.org"; at = "https://a.org/"; number = 0 }) "a.org" 1 (codes "abc")
      working locked refl refl id_known refl text_known

abbrev failed_storage : CrawlerStorage ℕ (List ℕ) (Dict (CachedData String))
failed_storage = (save_parsed_page env started 1 page locked).1

write_failed :
    save_parsed_page env started 1 page locked ≡ (err (db_error "locked"), failed_storage)
unfolding save_parsed_page save_clean_text save_text write_page Db.save_parsed_page with_backoff
    try_from attempt after_attempt is_duplicate init extract_band calculate_hash cleaned ngrams
    as_bytes is_whitespace push_at diff_bits
write_failed = refl

failed_page_is_lost_example :
    save_parsed_page env failed_storage 1 page working ≡ (ok tt, failed_storage)
failed_page_is_lost_example =
    failed_page_is_lost env started failed_storage 1 page (codes "abc") locked working
      (db_error "locked") [] (λ a b. refl) (unfold init in omega arith) (init-IsIndex [] 3) refl
      write_failed
