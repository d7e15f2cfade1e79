-- ===== src/Storage/Db.antt =====
-- crates/storage_service/src/storage/db.rs: the two tables, the statements on them, and the loops that
-- try a statement up to three times. The meaning of a statement is that of its SQL text: `UNIQUE` keys,
-- `ON CONFLICT … DO UPDATE`, and the foreign key of `pages`. What the driver does at an attempt is an
-- argument. The ids that `AUTOINCREMENT` gives are the next ones; gaps between them are not modelled.
pub mod Casts
pub mod Retries
pub mod Domains
pub mod Pages
pub mod Hashes
mod Tests
use polite_web_crawler.Prelude.{
  ℕ, zero, suc, ◌+◌, ◌*◌, Bool, true, false, ◌||◌, Option, none, some, String, List, [], ◌∷◌, ◌==◌,
  str_eq, any, map, if◌then◌else◌,
}
use polite_web_crawler.Common.Text.{Text}
use polite_web_crawler.Common.Errors.{CrawlerError, db_error}
use polite_web_crawler.Common.Outcome.{Outcome, ok, err, panic, ◌>>=◌}
use polite_web_crawler.Common.Data.{DomainDataSaveData, ParsedPageSaveData}
use polite_web_crawler.Common.Url.{RobotApi, Floats}
use polite_web_crawler.Storage.Cache.{CachedData, new_cached}
use Casts.{ℤ, as_i64, as_u64}

abbrev pub max_db_reconnects : ℕ
max_db_reconnects = 3

pub record DomainRow (F32 : Type 0) : Type 0 where
  pub dom_id : ℕ
  pub domain_string : String
  pub delay : Option F32
  pub allowed_urls : Option String

pub record PageRow : Type 0 where
  pub id : ℕ
  pub dom_id : ℕ
  pub url : String
  pub title : Option Text
  pub description : Option Text
  pub clean_text : Option Text
  pub hash : Option ℤ

-- The tables, and the ids that were given last.
pub record Tables (F32 : Type 0) : Type 0 where
  pub domains : List (DomainRow F32)
  pub pages : List PageRow
  pub last_domain : ℕ
  pub last_page : ℕ

-- The result of a statement: its value, or the text of an `sqlx::Error`.
pub data Sql (A : Type 0) : Type 0 where
  done : A → Sql A
  failed : String → Sql A

-- What the driver does at an attempt: it works, it fails before the statement has run, or it fails
-- when the statement has run, and its reply is lost.
pub data Fault : Type 0 where
  works : Fault
  fails_before fails_after : String → Fault

abbrev pub Statement : Type 0 → Type 0 → Type 0
Statement F32 A = Tables F32 → Sql A × Tables F32

unfoldable pub attempt :
    {F32 A : Type 0} → Fault → Statement F32 A → Tables F32 → Sql A × Tables F32
attempt works stmt t = stmt t
attempt (fails_before e) stmt t = (failed e, t)
attempt (fails_after e) stmt t = (failed e, (stmt t).1)

-- What the loop makes of an attempt: whether it was the last one, and the rounds that would follow.
unfoldable pub after_attempt :
    {F32 A : Type 0}
    → Sql A × Tables F32
    → Bool
    → ℕ
    → (Tables F32 → Outcome A × Tables F32 × ℕ)
    → Outcome A × Tables F32 × ℕ
after_attempt (done a, t) last slept more = (ok a, t, slept)
after_attempt (failed e, t) true slept more = (err (db_error e), t, slept)
after_attempt (failed e, t) false slept more = more t

-- The loop `for i in 0..MAX_DB_RECONNECTS` from round `i` on, with the rounds that are left, the
-- seconds of the next sleep, and the seconds that were slept.
unfoldable pub try_from :
    {F32 A : Type 0}
    → ℕ
    → ℕ
    → ℕ
    → ℕ
    → Statement F32 A
    → (ℕ → Fault)
    → Tables F32
    → Outcome A × Tables F32 × ℕ
unfolding attempt after_attempt
try_from zero i backoff slept stmt faults t = (err (db_error "RowNotFound"), t, slept)
try_from (suc n) i backoff slept stmt faults t =
    after_attempt (attempt (faults i) stmt t) (i + 1 == max_db_reconnects) slept
      (λ t'. try_from n (suc i) (backoff * 2) (slept + backoff) stmt faults t')

unfoldable pub with_backoff :
    {F32 A : Type 0} → Statement F32 A → (ℕ → Fault) → Tables F32 → Outcome A × Tables F32 × ℕ
unfolding try_from
with_backoff stmt faults t = try_from max_db_reconnects 0 1 0 stmt faults t

unfoldable pub find_page : String → List PageRow → Option PageRow
find_page url [] = none
find_page url (p ∷ ps) = if str_eq p.url url then some p else find_page url ps

page_row : ℕ → ℕ → ParsedPageSaveData → Option ℤ → PageRow
page_row id dom_id page hash = record {
  id = id;
  dom_id = dom_id;
  url = page.url;
  title = page.title;
  description = page.description;
  clean_text = page.clean_text;
  hash = hash;
}

-- `INSERT … ON CONFLICT(url) DO UPDATE SET` all other columns, for the id of a new row.
unfoldable pub upsert_page : ParsedPageSaveData → ℕ → Option ℤ → ℕ → List PageRow → List PageRow
unfolding page_row
upsert_page page dom_id hash id [] = page_row id dom_id page hash ∷ []
upsert_page page dom_id hash id (p ∷ ps) =
    if str_eq p.url page.url
    then page_row p.id dom_id page hash ∷ ps
    else p ∷ upsert_page page dom_id hash id ps

-- The hashes that are not null.
unfoldable pub page_hashes : List PageRow → List ℤ
page_hashes [] = []
page_hashes (p ∷ ps) = let rest = page_hashes ps in elim p.hash [ none ↦ rest | some h ↦ h ∷ rest ]

module _ {F32 : Type 0} where
  -- `WHERE domain_string = ?`
  unfoldable pub find_domain : String → List (DomainRow F32) → Option (DomainRow F32)
  find_domain s [] = none
  find_domain s (r ∷ rs) = if str_eq r.domain_string s then some r else find_domain s rs

  -- `INSERT … ON CONFLICT(domain_string) DO UPDATE SET delay, allowed_urls`, for the id of a new row.
  unfoldable pub upsert_domain :
      DomainDataSaveData F32 → ℕ → List (DomainRow F32) → List (DomainRow F32)
  upsert_domain d id [] =
      record {
        dom_id = id;
        domain_string = d.domain_string;
        delay = some d.delay;
        allowed_urls = d.robots;
      }
      ∷ []
  upsert_domain d id (r ∷ rs) =
      if str_eq r.domain_string d.domain_string
      then record r { delay = some d.delay; allowed_urls = d.robots } ∷ rs
      else r ∷ upsert_domain d id rs

  -- With `RETURNING dom_id`.
  unfoldable pub save_domain_stmt : DomainDataSaveData F32 → Statement F32 ℕ
  save_domain_stmt d t =
      let id = suc t.last_domain in
      let rows = upsert_domain d id t.domains in
      elim (find_domain d.domain_string t.domains) [
        | none ↦ (done id, record t { domains = rows; last_domain = id })
        | some r ↦ (done r.dom_id, record t { domains = rows })
      ]

  unfoldable pub save_domain :
      DomainDataSaveData F32 → (ℕ → Fault) → Tables F32 → Outcome ℕ × Tables F32 × ℕ
  save_domain d faults t = with_backoff (save_domain_stmt d) faults t

  unfoldable pub save_page_stmt : ℕ → ParsedPageSaveData → Option ℤ → Statement F32 (Unit {0})
  save_page_stmt dom_id page hash t =
      let id = suc t.last_page in
      let rows = upsert_page page dom_id hash id t.pages in
      if any (λ r. r.dom_id == dom_id) t.domains
      then elim (find_page page.url t.pages) [
        | none ↦ (done tt, record t { pages = rows; last_page = id })
        | some p ↦ (done tt, record t { pages = rows })
      ]
      else (failed "FOREIGN KEY constraint failed", t)

  unfoldable pub save_parsed_page :
      ℕ
      → ParsedPageSaveData
      → Option ℕ
      → (ℕ → Fault)
      → Tables F32
      → Outcome (Unit {0}) × Tables F32 × ℕ
  save_parsed_page dom_id page hash faults t =
      with_backoff
        (save_page_stmt dom_id page (elim hash [ none ↦ none | some h ↦ some (as_i64 h) ])) faults t

  -- `SELECT dom_id, allowed_urls, delay FROM domains WHERE domain_string = ?`
  unfoldable pub select_domain : String → Statement F32 (Option (DomainRow F32))
  select_domain domain t = (done (find_domain domain t.domains), t)

  unfoldable pub select_hashes : Statement F32 (List ℤ)
  unfolding page_hashes
  select_hashes t = (done (page_hashes t.pages), t)

  unfoldable pub get_simhashes : (ℕ → Fault) → Tables F32 → Outcome (List ℕ)
  get_simhashes faults t = do
    raw_hashes ← (with_backoff select_hashes faults t).0
    ok (map as_u64 raw_hashes)

module _ {Robot F32 : Type 0} (robots : RobotApi Robot F32) (f : Floats F32) where
  -- A row with no delay does not decode as an `f32`.
  unfoldable pub cache_info : String → Option (DomainRow F32) → Outcome (Option (CachedData Robot))
  cache_info agent none = ok none
  cache_info agent (some row) = elim row.delay [
    | none ↦ err (db_error "ColumnDecode")
    | some delay ↦
        new_cached robots f row.dom_id row.allowed_urls delay agent >>= λ cd. ok (some cd)
  ]

  unfoldable pub get_cache_info_about_domain :
      String → String → (ℕ → Fault) → Tables F32 → Outcome (Option (CachedData Robot))
  unfolding cache_info
  get_cache_info_about_domain domain agent faults t =
      (with_backoff (select_domain domain) faults t).0 >>= cache_info agent
