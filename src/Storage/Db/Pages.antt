-- ===== src/Storage/Db/Pages.antt =====
-- db.rs, `save_parsed_page`: a page is stored once, with what was saved.
use polite_web_crawler.Prelude.{
  String, str_eq, ℕ, ◌^◌, ◌<◌, map, suc, ◌≡◌, refl, sym, ◌∙◌, ap, inl, inr, Bool, true, false,
  Option, none, some, List, [], ◌∷◌, arith, ◌==◌, any, Bool-cases, Option-cases, str_eq_iff,
}
use polite_web_crawler.Common.Outcome.{ok}
use polite_web_crawler.Common.Data.{ParsedPageSaveData}
use polite_web_crawler.Storage.Db.Casts.{ℤ, as_i64, as_u64, as_u64-as_i64}
use polite_web_crawler.Storage.Db.Retries.{IsIdempotent, with_backoff-Once}
use polite_web_crawler.Storage.Db.{
  PageRow, Tables, Sql, done, failed, Fault, find_page, page_row, upsert_page, save_page_stmt,
  save_parsed_page, page_hashes, with_backoff,
}

module _ (page : ParsedPageSaveData) (dom_id : ℕ) (hash : Option ℤ) where
  pub saved_page : ℕ → Option PageRow → PageRow
  saved_page id none = page_row id dom_id page hash
  saved_page id (some p) = page_row p.id dom_id page hash

  pub find_page-upsert_page :
      (id : ℕ) (rows : List PageRow)
      → find_page page.url (upsert_page page dom_id hash id rows)
        ≡ some (saved_page id (find_page page.url rows))
  unfolding find_page upsert_page saved_page
  find_page-upsert_page id [] = ground (arith, str_eq_iff page.url page.url)
  find_page-upsert_page id (p ∷ rows) =
      ground (arith, find_page-upsert_page id rows, str_eq_iff page.url page.url)

  upsert_page-upsert_page :
      (id id' : ℕ) (rows : List PageRow)
      → upsert_page page dom_id hash id' (upsert_page page dom_id hash id rows)
        ≡ upsert_page page dom_id hash id rows
  unfolding upsert_page
  upsert_page-upsert_page id id' [] = ground (arith, str_eq_iff page.url page.url)
  upsert_page-upsert_page id id' (p ∷ rows) =
      ground (arith, upsert_page-upsert_page id id' rows, str_eq_iff page.url page.url)

  last_page_of : ℕ → Option PageRow → ℕ
  last_page_of last none = suc last
  last_page_of last (some p) = last

  module _ {F32 : Type 0} (t : Tables F32) where
    known_domain : Bool
    known_domain = any (λ r. r.dom_id == dom_id) t.domains

    abbrev saved_tables : Tables F32
    saved_tables = record t {
      pages = upsert_page page dom_id hash (suc t.last_page) t.pages;
      last_page = last_page_of t.last_page (find_page page.url t.pages);
    }

    save_page_stmt_known :
        known_domain ≡ true → save_page_stmt dom_id page hash t ≡ (done tt, saved_tables)
    unfolding save_page_stmt known_domain last_page_of
    save_page_stmt_known known = elim (Option-cases (find_page page.url t.pages)) [
      | inl new_page ↦ rw (known, new_page, save_page_stmt)
      | inr (p, old) ↦ rw (known, old, save_page_stmt)
    ]

    save_page_stmt_unknown :
        known_domain ≡ false
        → save_page_stmt dom_id page hash t ≡ (failed "FOREIGN KEY constraint failed", t)
    unfolding save_page_stmt known_domain
    save_page_stmt_unknown unknown = rw unknown

  pub save_page_stmt-IsIdempotent :
      {F32 : Type 0} → IsIdempotent (save_page_stmt {F32 = F32} dom_id page hash)
  save_page_stmt-IsIdempotent t = elim (Bool-cases (known_domain t)) [
    | inr unknown ↦ rw (save_page_stmt_unknown t unknown) (save_page_stmt_unknown t unknown)
    | inl known ↦ rw (save_page_stmt_known t known) (
        save_page_stmt_known (saved_tables t) (unfold known_domain in known)
        ∙ rw
            (
              find_page-upsert_page (suc t.last_page) t.pages,
              upsert_page-upsert_page (suc t.last_page)
                  (suc (last_page_of t.last_page (find_page page.url t.pages))) t.pages,
            )
            (unfold last_page_of in refl))
  ]

  pub saved_pages :
      {F32 : Type 0} (t u : Tables F32)
      → save_page_stmt dom_id page hash t ≡ (done tt, u)
      → u.pages ≡ upsert_page page dom_id hash (suc t.last_page) t.pages
  saved_pages {F32} t u run = elim (Bool-cases (known_domain t)) [
    | inr unknown ↦
        cc (
          ap (λ (y : Sql (Unit {0}) × Tables F32). y.0)
            (sym run ∙ save_page_stmt_unknown t unknown))
    | inl known ↦
        ap (λ (y : Sql (Unit {0}) × Tables F32). y.1.pages) (sym run ∙ save_page_stmt_known t known)
  ]

-- The table has a row for the page, with what the page holds.
pub record StoredPage {F32 : Type 0} (t : Tables F32) (page : ParsedPageSaveData) : Type 0 where
  pub row : PageRow
  pub found : find_page page.url t.pages ≡ some row
  pub title : row.title ≡ page.title
  pub description : row.description ≡ page.description
  pub clean_text : row.clean_text ≡ page.clean_text

row_stored :
    {F32 : Type 0} (t : Tables F32) (page : ParsedPageSaveData) (dom_id : ℕ) (hash : Option ℤ)
    (id : ℕ) (o : Option PageRow)
    → find_page page.url t.pages ≡ some (saved_page page dom_id hash id o)
    → StoredPage t page
unfolding saved_page page_row
row_stored t page dom_id hash id none h = record {
  row = page_row id dom_id page hash;
  found = h;
  title = refl;
  description = refl;
  clean_text = refl;
}
row_stored t page dom_id hash id (some p) h = record {
  row = page_row p.id dom_id page hash;
  found = h;
  title = refl;
  description = refl;
  clean_text = refl;
}

-- The hash as its column holds it.
abbrev pub raw : Option ℕ → Option ℤ
raw none = none
raw (some h) = some (as_i64 h)

written_row :
    {F32 : Type 0} (dom_id : ℕ) (page : ParsedPageSaveData) (z : Option ℤ) (faults : ℕ → Fault)
    (t : Tables F32)
    → (with_backoff (save_page_stmt dom_id page z) faults t).0 ≡ ok tt
    → find_page page.url (with_backoff (save_page_stmt dom_id page z) faults t).1.pages
      ≡ some (saved_page page dom_id z (suc t.last_page) (find_page page.url t.pages))
written_row dom_id page z faults t saved =
    elim (with_backoff-Once (save_page_stmt dom_id page z) t
      (save_page_stmt-IsIdempotent page dom_id z) faults) [
        | inr (e, failure, _) ↦ cc (failure, saved)
        | inl (tt', _, run) ↦
            ap (find_page page.url) (saved_pages page dom_id z t _ run)
            ∙ find_page-upsert_page page dom_id z (suc t.last_page) t.pages
      ]

-- A page that has been saved is found in the table, as the row that the statement writes.
pub saved_row :
    {F32 : Type 0} (dom_id : ℕ) (page : ParsedPageSaveData) (hash : Option ℕ) (faults : ℕ → Fault)
    (t : Tables F32)
    → (save_parsed_page dom_id page hash faults t).0 ≡ ok tt
    → find_page page.url (save_parsed_page dom_id page hash faults t).1.pages
      ≡ some (saved_page page dom_id (raw hash) (suc t.last_page) (find_page page.url t.pages))
unfolding save_parsed_page
saved_row dom_id page none faults t saved = written_row dom_id page none faults t saved
saved_row dom_id page (some h) faults t saved =
    written_row dom_id page (some (as_i64 h)) faults t saved

pub save_parsed_page-StoredPage :
    {F32 : Type 0} (dom_id : ℕ) (page : ParsedPageSaveData) (hash : Option ℕ) (faults : ℕ → Fault)
    (t : Tables F32)
    → (save_parsed_page dom_id page hash faults t).0 ≡ ok tt
    → StoredPage (save_parsed_page dom_id page hash faults t).1 page
save_parsed_page-StoredPage dom_id page hash faults t saved =
    row_stored _ page dom_id (raw hash) (suc t.last_page) (find_page page.url t.pages)
      (saved_row dom_id page hash faults t saved)

pub saved_page-hash :
    (page : ParsedPageSaveData) (dom_id : ℕ) (z : Option ℤ) (id : ℕ) (o : Option PageRow)
    → (saved_page page dom_id z id o).hash ≡ z
unfolding saved_page page_row
saved_page-hash page dom_id z id none = refl
saved_page-hash page dom_id z id (some p) = refl

-- The hash of a row that is found is among those that a start reads.
pub found-page_hashes :
    (url : String) (rows : List PageRow) (row : PageRow) (h : ℕ) (near : ℕ → Bool)
    → find_page url rows ≡ some row
    → row.hash ≡ some (as_i64 h)
    → h < 2 ^ 64
    → near h ≡ true
    → any near (map as_u64 (page_hashes rows)) ≡ true
unfolding find_page page_hashes
found-page_hashes url [] row h near found has small is_near = cc found
found-page_hashes url (p ∷ rows) row h near found has small is_near =
    elim (Bool-cases (str_eq p.url url)) [
      | inl here ↦
          let same : p ≡ row = cc (rw here at found) in
          rw (same, has) (rw (as_u64-as_i64 h small, is_near))
      | inr further ↦
          let rest =
            found-page_hashes url rows row h near (rw further at found) has small is_near in
          elim (Option-cases p.hash) [
            | inl no_hash ↦ rw no_hash rest
            | inr (z, hashed) ↦ rw hashed (ground (arith, rest))
          ]
    ]
