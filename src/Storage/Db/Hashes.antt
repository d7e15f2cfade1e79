-- ===== src/Storage/Db/Hashes.antt =====
-- db.rs, `save_parsed_page` and `get_simhashes`: the hash of a page is read back.
use polite_web_crawler.Prelude.{
  ℕ, suc, ◌^◌, ◌<◌, ◌≡◌, refl, ◌∙◌, inl, inr, none, some, List, [], ◌∷◌, ◌++◌, map, arith,
}
use mathlib.Core.List.{map-append}
use polite_web_crawler.Common.Outcome.{ok}
use polite_web_crawler.Common.Data.{ParsedPageSaveData}
use polite_web_crawler.Storage.Db.Casts.{ℤ, as_i64, as_u64, as_u64-as_i64}
use polite_web_crawler.Storage.Db.Pages.{save_page_stmt-IsIdempotent, saved_pages}
use polite_web_crawler.Storage.Db.Retries.{with_backoff-Once}
use polite_web_crawler.Storage.Db.{
  PageRow, Tables, Fault, works, with_backoff, find_page, upsert_page, save_page_stmt,
  save_parsed_page, page_hashes, select_hashes, get_simhashes,
}

page_hashes-upsert_page :
    (page : ParsedPageSaveData) (dom_id id : ℕ) (h : ℤ) (rows : List PageRow)
    → find_page page.url rows ≡ none
    → page_hashes (upsert_page page dom_id (some h) id rows) ≡ page_hashes rows ++ h ∷ []
unfolding page_hashes find_page upsert_page
page_hashes-upsert_page page dom_id id h [] e = refl
page_hashes-upsert_page page dom_id id h (p ∷ rows) e =
    ground (arith, page_hashes-upsert_page page dom_id id h rows)

-- A driver that does what it is asked.
abbrev pub working : ℕ → Fault
working i = works

get_simhashes-working :
    {F32 : Type 0} (t : Tables F32)
    → get_simhashes working t ≡ ok (map as_u64 (page_hashes t.pages))
unfolding get_simhashes with_backoff select_hashes
get_simhashes-working t = refl

-- The hash of a stored page survives a restart. If a page under a new URL is saved with a 64-bit hash,
-- however the driver fails on the way, and the saving returns `Ok`, then the hashes that a later start
-- reads from the table are those from before and, behind them, this hash, in spite of the casts to a
-- signed column and back.
pub save_parsed_page_hash :
    {F32 : Type 0} (dom_id : ℕ) (page : ParsedPageSaveData) (h : ℕ) (faults : ℕ → Fault)
    (t : Tables F32) (hs : List ℕ)
    → h < 2 ^ 64
    → find_page page.url t.pages ≡ none
    → (save_parsed_page dom_id page (some h) faults t).0 ≡ ok tt
    → get_simhashes working t ≡ ok hs
    → get_simhashes working (save_parsed_page dom_id page (some h) faults t).1 ≡ ok (hs ++ h ∷ [])
unfolding save_parsed_page
save_parsed_page_hash {F32} dom_id page h faults t hs small fresh saved before =
    elim (with_backoff-Once (save_page_stmt dom_id page (some (as_i64 h))) t
      (save_page_stmt-IsIdempotent page dom_id (some (as_i64 h))) faults) [
        | inr (e, failure, _) ↦ cc (failure, saved)
        | inl (tt', _, run) ↦
            get_simhashes-working _
            ∙ rw
                (
                  saved_pages page dom_id (some (as_i64 h)) t _ run,
                  page_hashes-upsert_page page dom_id (suc t.last_page) (as_i64 h) t.pages fresh,
                  map-append as_u64 (page_hashes t.pages) (as_i64 h ∷ []),
                  as_u64-as_i64 h small,
                )
                (cc (before, get_simhashes-working t))
      ]
