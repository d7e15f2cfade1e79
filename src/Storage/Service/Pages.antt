-- ===== src/Storage/Service/Pages.antt =====
-- crawler_storage.rs, page events: what is counted, and what a failed write leaves behind.
use polite_web_crawler.Prelude.{
  ℕ, ◌+◌, ◌%◌, ◌^◌, ◌≤◌, ◌≡◌, sym, ◌∙◌, ap, true, some, String, List, [], Bool-cases, inl, inr,
}
use polite_web_crawler.Common.Text.{Text}
use polite_web_crawler.Common.Errors.{CrawlerError}
use polite_web_crawler.Common.Outcome.{Outcome, ok, err}
use polite_web_crawler.Common.Url.{parsed}
use polite_web_crawler.Common.Data.{ParsedPageSaveData, parsed_page}
use polite_web_crawler.Storage.Dedup.{is_duplicate, insert}
use polite_web_crawler.Storage.Dedup.Index.{IsIndex}
use polite_web_crawler.Storage.Dedup.Recall.{IsHamming}
use polite_web_crawler.Storage.Dedup.Repeat.{just_inserted}
use polite_web_crawler.Storage.Db.{Fault}
use polite_web_crawler.Storage.Service.{
  Env, CrawlerStorage, get_domain_id, write_page, save_text, save_clean_text, save_parsed_page,
  count, save_page_under, save_page_of, save_page_at, save_parsed_data,
}

module _ {Url Robot F32 Filter Store : Type 0} (env : Env Url Robot F32 Filter Store) where
  save_parsed_page-text :
      (s : CrawlerStorage F32 Filter Store) (id : ℕ) (page : ParsedPageSaveData) (txt : Text)
      (faults : ℕ → Fault)
      → page.clean_text ≡ some txt
      → save_parsed_page env s id page faults ≡ save_text env s id page txt faults
  unfolding save_parsed_page save_clean_text
  save_parsed_page-text s id page txt faults e = ap (save_clean_text env s id page faults) e

  save_text-duplicate :
      (s : CrawlerStorage F32 Filter Store) (id : ℕ) (page : ParsedPageSaveData) (txt : Text)
      (faults : ℕ → Fault)
      → is_duplicate env.unicode env.simhash s.dedup txt ≡ true
      → save_text env s id page txt faults ≡ (ok tt, s)
  unfolding save_text
  save_text-duplicate s id page txt faults dup = rw dup

  -- A duplicate is counted as saved. A page event whose URL has a domain with an id, and whose text is a
  -- duplicate by then, succeeds and raises the counter of saved pages, although tables, deduplicator and
  -- cache stay as the lookup of the domain has left them.
  pub duplicate_counted :
      (s s' : CrawlerStorage F32 Filter Store) (page : ParsedPageSaveData) (url : Url)
      (host : String) (id : ℕ) (txt : Text) (looking writing : ℕ → Fault)
      → env.urls.parse page.url ≡ parsed url
      → env.urls.domain url ≡ some host
      → get_domain_id env s host looking ≡ (ok (some id), s')
      → page.clean_text ≡ some txt
      → is_duplicate env.unicode env.simhash s'.dedup txt ≡ true
      → save_parsed_data env s (parsed_page page) looking writing
        ≡ (ok [], record s' { saved_counter = (s'.saved_counter + 1) % 2 ^ 64 })
  unfolding save_parsed_data save_page_at save_page_of save_page_under count
  duplicate_counted s s' page url host id txt looking writing parses has_host known text dup =
      ap (λ p. save_page_at env s p page looking writing) parses
      ∙ ap (λ h. save_page_of env s h page looking writing) has_host
      ∙ ap (λ x. save_page_under env x page writing) known
      ∙ ap (count env) (
          save_parsed_page-text s' id page txt writing text
          ∙ save_text-duplicate s' id page txt writing dup)

  save_text-failed :
      (s s' : CrawlerStorage F32 Filter Store) (id : ℕ) (page : ParsedPageSaveData) (txt : Text)
      (faults : ℕ → Fault) (e : CrawlerError)
      → save_text env s id page txt faults ≡ (err e, s')
      → s'.dedup ≡ (insert env.unicode env.simhash s.dedup txt).0
  unfolding save_text write_page
  save_text-failed s s' id page txt faults e run =
      elim (Bool-cases (is_duplicate env.unicode env.simhash s.dedup txt)) [
        | inl dup ↦ cc (rw dup at run)
        | inr new_text ↦
            ap (λ (x : Outcome (Unit {0}) × CrawlerStorage F32 Filter Store). x.1.dedup)
              (sym (rw new_text at run))
      ]

  -- A page whose write has failed cannot be saved any more: its hash stays in the deduplicator, so that
  -- every later attempt to save it takes it for a duplicate, changes nothing and reports success. Stated
  -- where the crate's distance counts bits, the distance bound is at most 3, and the bands index some
  -- hashes.
  pub failed_page_is_lost :
      (s s' : CrawlerStorage F32 Filter Store) (id : ℕ) (page : ParsedPageSaveData) (txt : Text)
      (faults later : ℕ → Fault) (e : CrawlerError) (hs : List ℕ)
      → IsHamming env.simhash
      → s.dedup.max_dist ≤ 3
      → IsIndex hs s.dedup.bands
      → page.clean_text ≡ some txt
      → save_parsed_page env s id page faults ≡ (err e, s')
      → save_parsed_page env s' id page later ≡ (ok tt, s')
  failed_page_is_lost s s' id page txt faults later e hs ham le index text run =
      save_parsed_page-text s' id page txt later text
      ∙ save_text-duplicate s' id page txt later (
          rw
            (save_text-failed s s' id page txt faults e
              (sym (save_parsed_page-text s id page txt faults text) ∙ run))
            (just_inserted env.unicode env.simhash s.dedup hs txt ham le index))
