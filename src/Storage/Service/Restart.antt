-- ===== src/Storage/Service/Restart.antt =====
-- crawler_storage.rs, `new`, and db.rs: what the storage service still knows after a restart.
mod Tests
use polite_web_crawler.Prelude.{
  ℕ, ◌^◌, ◌≤◌, ◌<◌, ◌≡◌, refl, sym, ◌∙◌, ap, ◌⊎◌, inl, inr, true, false, Option, some, String, List,
  [], map, any, arith, length, leb, le→leb,
}
use polite_web_crawler.Common.Text.{Text}
use polite_web_crawler.Common.Text.Utf8.{as_bytes}
use polite_web_crawler.Common.Errors.{db_error}
use polite_web_crawler.Common.Outcome.{Outcome, ok, err, panic, ◌>>=◌}
use polite_web_crawler.Common.Data.{ParsedPageSaveData}
use polite_web_crawler.Storage.Dedup.Bits.{diff_bits}
use polite_web_crawler.Storage.Dedup.Hash.{cleaned, calculate_hash}
use polite_web_crawler.Storage.Dedup.Index.{init-IsIndex}
use polite_web_crawler.Storage.Dedup.Recall.{IsHamming, is_duplicate_complete}
use polite_web_crawler.Storage.Dedup.Repeat.{diff_bits_self, same_hash}
use polite_web_crawler.Storage.Dedup.{init, is_duplicate, insert}
use polite_web_crawler.Storage.Db.Casts.{as_i64, as_u64}
use polite_web_crawler.Storage.Db.Retries.{with_backoff-Once}
use polite_web_crawler.Storage.Db.Pages.{saved_row, saved_page-hash, found-page_hashes}
use polite_web_crawler.Storage.Db.{
  PageRow, Tables, Fault, page_hashes, select_hashes, find_page, get_simhashes,
}
use polite_web_crawler.Storage.Service.{
  Env, CrawlerStorage, new_storage, write_page, save_text, save_clean_text, save_parsed_page,
}

-- A reading of the hashes finds those of the table, or fails.
get_simhashes_read :
    {F32 : Type 0} (faults : ℕ → Fault) (t : Tables F32)
    → (get_simhashes faults t ≡ ok (map as_u64 (page_hashes t.pages)))
      ⊎ ((e : String) × (get_simhashes faults t ≡ err (db_error e)))
unfolding get_simhashes
get_simhashes_read faults t =
    elim (with_backoff-Once select_hashes t (λ u. unfold select_hashes in refl) faults) [
      | inl (hs, e, run) ↦
          let read : hs ≡ page_hashes t.pages = unfold select_hashes in cc run in
          inl (ap (λ r. r >>= λ raw. ok (map as_u64 raw)) e ∙ ap (λ raw. ok (map as_u64 raw)) read)
      | inr (x, e, _) ↦ inr (x, ap (λ r. r >>= λ raw. ok (map as_u64 raw)) e)
    ]

module _ {Url Robot F32 Filter Store : Type 0} (env : Env Url Robot F32 Filter Store) where
  module _ (t : Tables F32) (agent : String) where
    abbrev fresh : List ℕ → CrawlerStorage F32 Filter Store
    fresh hashes = record {
      seen_urls = env.bloom.new_filter;
      tables = t;
      domain_cache = env.cache.empty;
      agent_name = agent;
      dedup = init hashes 3;
      saved_counter = 0;
    }

    abbrev opened : Outcome (List ℕ) → Outcome (CrawlerStorage F32 Filter Store)
    opened r = elim r [ err e ↦ err e | panic ↦ panic | ok hashes ↦ ok (fresh hashes) ]

    new_storage-dedup :
        (faults : ℕ → Fault) (s : CrawlerStorage F32 Filter Store)
        → new_storage env true t agent faults ≡ ok s
        → s.dedup ≡ init (map as_u64 (page_hashes t.pages)) 3
    unfolding new_storage
    new_storage-dedup faults s starts = elim (get_simhashes_read faults t) [
      | inl read ↦
          let same : fresh (map as_u64 (page_hashes t.pages)) ≡ s =
            cc (sym (ap opened read) ∙ starts) in
          ap (λ (x : CrawlerStorage F32 Filter Store). x.dedup) (sym same)
      | inr (e, failed) ↦ cc (sym (ap opened failed) ∙ starts)
    ]

  -- The row that is found under the page's URL has the hash.
  HasHash : List PageRow → ParsedPageSaveData → ℕ → Type 0
  HasHash rows page h =
      (row : PageRow) × (find_page page.url rows ≡ some row) × (row.hash ≡ some (as_i64 h))

  written-HasHash :
      (s : CrawlerStorage F32 Filter Store) (id : ℕ) (page : ParsedPageSaveData)
      (faults : ℕ → Fault) (h : ℕ)
      → (write_page env s id page (some h) faults).0 ≡ ok tt
      → HasHash (write_page env s id page (some h) faults).1.tables.pages page h
  unfolding write_page HasHash
  written-HasHash s id page faults h saved = (
    _,
    saved_row id page (some h) faults s.tables saved,
    saved_page-hash page id (some (as_i64 h)) _ _,
  )

  save_text-HasHash :
      (s : CrawlerStorage F32 Filter Store) (id : ℕ) (page : ParsedPageSaveData)
      (faults : ℕ → Fault) (a : Text)
      → is_duplicate env.unicode env.simhash s.dedup a ≡ false
      → (save_text env s id page a faults).0 ≡ ok tt
      → HasHash
          (save_text env s id page a faults).1.tables.pages
          page
          (calculate_hash env.unicode env.simhash a)
  unfolding save_text insert
  save_text-HasHash s id page faults a new saved = rw new (
      written-HasHash (record s { dedup = (insert env.unicode env.simhash s.dedup a).0 }) id page
        faults (calculate_hash env.unicode env.simhash a) (rw new at saved))

  -- A new text that has been saved is in its row with its hash.
  saved-HasHash :
      (s : CrawlerStorage F32 Filter Store) (id : ℕ) (page : ParsedPageSaveData)
      (faults : ℕ → Fault) (a : Text)
      → page.clean_text ≡ some a
      → is_duplicate env.unicode env.simhash s.dedup a ≡ false
      → (save_parsed_page env s id page faults).0 ≡ ok tt
      → HasHash
          (save_parsed_page env s id page faults).1.tables.pages
          page
          (calculate_hash env.unicode env.simhash a)
  unfolding save_parsed_page HasHash
  saved-HasHash s id page faults a has new =
      rw (has, save_clean_text) (unfold save_clean_text in save_text-HasHash s id page faults a new)

  -- A restart keeps what was saved from being saved again. If a page with a new text is saved with success,
  -- however the driver fails on the way, and the service starts again, any time later, on tables that
  -- still have the page's row, then every text that agrees with the page's in letters, digits and white
  -- space up to case is a duplicate. Stated where the crate's distance counts the differing bits, the
  -- text's hash has 64 bits, and what is left of the text has at least 4 bytes.
  pub restart_remembers :
      (s : CrawlerStorage F32 Filter Store) (id : ℕ) (page : ParsedPageSaveData)
      (saving : ℕ → Fault) (a b : Text) (later : Tables F32) (agent : String) (starting : ℕ → Fault)
      (s' : CrawlerStorage F32 Filter Store)
      → IsHamming env.simhash
      → calculate_hash env.unicode env.simhash a < 2 ^ 64
      → page.clean_text ≡ some a
      → is_duplicate env.unicode env.simhash s.dedup a ≡ false
      → (save_parsed_page env s id page saving).0 ≡ ok tt
      → find_page page.url later.pages
        ≡ find_page page.url (save_parsed_page env s id page saving).1.tables.pages
      → new_storage env true later agent starting ≡ ok s'
      → cleaned env.unicode a ≡ cleaned env.unicode b
      → 4 ≤ length (as_bytes (cleaned env.unicode a))
      → is_duplicate env.unicode env.simhash s'.dedup b ≡ true
  unfolding HasHash
  restart_remembers s id page saving a b later agent starting s' ham small has new saved kept starts
        same long =
      let (row, found, hashed) = saved-HasHash s id page saving a has new saved in
      let hs : List ℕ = map as_u64 (page_hashes later.pages) in
      rw (new_storage-dedup later agent starting s' starts) (
        is_duplicate_complete env.unicode env.simhash ham (init hs 3) hs b (max_dist hs)
          (init-IsIndex hs 3)
        ∙ found-page_hashes page.url later.pages row (calculate_hash env.unicode env.simhash a) _
            (kept ∙ found) hashed small (unfold init in near))
    where
      max_dist : (hs : List ℕ) → (init hs 3).max_dist ≤ 3
      max_dist hs = unfold init in omega arith

      near :
          leb
            (diff_bits 64
              (calculate_hash env.unicode env.simhash a)
              (calculate_hash env.unicode env.simhash b))
            3
          ≡ true
      near =
          rw
            (
              same_hash env.unicode env.simhash a b same long,
              diff_bits_self 64 (calculate_hash env.unicode env.simhash b),
            )
            (le→leb 0 3 (omega arith))
