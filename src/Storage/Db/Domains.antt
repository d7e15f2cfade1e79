-- ===== src/Storage/Db/Domains.antt =====
-- db.rs, `save_domain` and `get_cache_info_about_domain`: one row for a domain, under a stable id.
use polite_web_crawler.Prelude.{
  ℕ, suc, ◌≡◌, ◌≢◌, refl, sym, ◌∙◌, ap, ◌⊎◌, inl, inr, Option, none, some, String, List, [], ◌∷◌,
  arith, if◌then◌else◌, Option-cases, str_eq, str_eq_iff,
}
use polite_web_crawler.Common.Errors.{db_error}
use polite_web_crawler.Common.Outcome.{ok, err}
use polite_web_crawler.Common.Data.{DomainDataSaveData}
use polite_web_crawler.Storage.Db.{
  DomainRow, Tables, Sql, done, Fault, find_domain, upsert_domain, save_domain_stmt, save_domain,
}
use polite_web_crawler.Storage.Db.Retries.{IsIdempotent, AtMostOnce, with_backoff-Once}

module _ {F32 : Type 0} where
  -- The row of a domain behind the statement, where it had the row `o` before.
  abbrev pub saved_row : DomainDataSaveData F32 → ℕ → Option (DomainRow F32) → DomainRow F32
  saved_row d id none = record {
    dom_id = id;
    domain_string = d.domain_string;
    delay = some d.delay;
    allowed_urls = d.robots;
  }
  saved_row d id (some r) = record r { delay = some d.delay; allowed_urls = d.robots }

  pub find_domain-upsert_domain :
      (s : String) (d : DomainDataSaveData F32) (id : ℕ) (rows : List (DomainRow F32))
      → find_domain s (upsert_domain d id rows) ≡ (
          if str_eq d.domain_string s
          then some (saved_row d id (find_domain d.domain_string rows))
          else find_domain s rows)
  unfolding find_domain upsert_domain
  find_domain-upsert_domain s d id [] = refl
  find_domain-upsert_domain s d id (r ∷ rows) = ground (
    arith,
    find_domain-upsert_domain s d id rows,
    str_eq_iff r.domain_string d.domain_string,
    str_eq_iff r.domain_string s,
    str_eq_iff d.domain_string s,
  )

  upsert_domain-upsert_domain :
      (d : DomainDataSaveData F32) (id id' : ℕ) (rows : List (DomainRow F32))
      → upsert_domain d id' (upsert_domain d id rows) ≡ upsert_domain d id rows
  unfolding upsert_domain
  upsert_domain-upsert_domain d id id' [] =
      ground (arith, str_eq_iff d.domain_string d.domain_string)
  upsert_domain-upsert_domain d id id' (r ∷ rows) =
      ground (arith, upsert_domain-upsert_domain d id id' rows)

  -- What the statement does, in one equation.
  abbrev id_of : ℕ → Option (DomainRow F32) → ℕ
  id_of id none = id
  id_of id (some r) = r.dom_id

  abbrev last_of : ℕ → Option (DomainRow F32) → ℕ
  last_of last none = suc last
  last_of last (some r) = last

  save_domain_stmt_lem :
      (d : DomainDataSaveData F32) (t : Tables F32)
      → save_domain_stmt d t ≡ (
        done (id_of (suc t.last_domain) (find_domain d.domain_string t.domains)),
        record t {
          domains = upsert_domain d (suc t.last_domain) t.domains;
          last_domain = last_of t.last_domain (find_domain d.domain_string t.domains);
        },
      )
  unfolding save_domain_stmt
  save_domain_stmt_lem d t = elim (Option-cases (find_domain d.domain_string t.domains)) [
    | inl new_domain ↦ rw (new_domain, save_domain_stmt)
    | inr (r, known) ↦ rw (known, save_domain_stmt)
  ]

  saved_again :
      (d : DomainDataSaveData F32) (t : Tables F32)
      → find_domain d.domain_string (upsert_domain d (suc t.last_domain) t.domains)
        ≡ some (saved_row d (suc t.last_domain) (find_domain d.domain_string t.domains))
  saved_again d t = ground (
    arith,
    find_domain-upsert_domain d.domain_string d (suc t.last_domain) t.domains,
    str_eq_iff d.domain_string d.domain_string,
  )

  id-saved_row :
      (d : DomainDataSaveData F32) (id : ℕ) (o : Option (DomainRow F32))
      → (saved_row d id o).dom_id ≡ id_of id o
  id-saved_row d id none = refl
  id-saved_row d id (some r) = refl

  save_domain_stmt-IsIdempotent : (d : DomainDataSaveData F32) → IsIdempotent (save_domain_stmt d)
  save_domain_stmt-IsIdempotent d t = rw (save_domain_stmt_lem d t) (
      save_domain_stmt_lem d _
      ∙ rw (
        saved_again d t,
        upsert_domain-upsert_domain d (suc t.last_domain)
            (suc (last_of t.last_domain (find_domain d.domain_string t.domains))) t.domains,
        id-saved_row d (suc t.last_domain) (find_domain d.domain_string t.domains),
      ))

  found_name :
      (s : String) (rows : List (DomainRow F32)) (r : DomainRow F32)
      → find_domain s rows ≡ some r
      → r.domain_string ≡ s
  unfolding find_domain
  found_name s [] r e = cc
  found_name s (x ∷ rows) r e = ground (arith, str_eq_iff x.domain_string s, found_name s rows r)

  saved_row_lem :
      (d : DomainDataSaveData F32) (id : ℕ) (o : Option (DomainRow F32))
      → ((r : DomainRow F32) → o ≡ some r → r.domain_string ≡ d.domain_string)
      → saved_row d id o ≡ record {
        dom_id = id_of id o;
        domain_string = d.domain_string;
        delay = some d.delay;
        allowed_urls = d.robots;
      }
  saved_row_lem d id none h = refl
  saved_row_lem d id (some r) h = rw (h r refl)

  -- Saving a domain takes effect once, however the driver fails on the way. If `save_domain` returns an
  -- id, then the domain has a row of this id with the delay and the robots.txt that were saved, the id
  -- is the one that the domain had before if it had a row, and the rows of all other domains are as they were.
  -- If it returns an error, then the tables are as before or as a saving leaves them.
  pub save_domain_once :
      (d : DomainDataSaveData F32) (faults : ℕ → Fault) (t : Tables F32)
      → ((id : ℕ) × ((save_domain d faults t).0 ≡ ok id)
          × (find_domain d.domain_string (save_domain d faults t).1.domains
              ≡ some (record {
                dom_id = id;
                domain_string = d.domain_string;
                delay = some d.delay;
                allowed_urls = d.robots;
              }))
          × ((r : DomainRow F32) → find_domain d.domain_string t.domains ≡ some r → id ≡ r.dom_id)
          × ((s : String)
              → d.domain_string ≢ s
              → find_domain s (save_domain d faults t).1.domains ≡ find_domain s t.domains))
        ⊎ ((e : String) × ((save_domain d faults t).0 ≡ err (db_error e))
            × AtMostOnce (save_domain_stmt d) t (save_domain d faults t).1)
  unfolding save_domain
  save_domain_once d faults t =
      elim (with_backoff-Once (save_domain_stmt d) t (save_domain_stmt-IsIdempotent d) faults) [
        | inr failure ↦ inr failure
        | inl (id, e, run) ↦
            let rows =
              ap (λ (y : Sql ℕ × Tables F32). y.1.domains) (sym run ∙ save_domain_stmt_lem d t) in
            let same_id : id ≡ id_of (suc t.last_domain) (find_domain d.domain_string t.domains) =
              cc (run, save_domain_stmt_lem d t) in
            inl (
              id,
              e,
              rw (rows, same_id)
                  (saved_again d t
                    ∙ ap some (
                        saved_row_lem d (suc t.last_domain) (find_domain d.domain_string t.domains)
                          (found_name d.domain_string t.domains))),
              (λ r known. same_id ∙ ap (id_of (suc t.last_domain)) known),
              (λ s other. rw rows (
                  ground (
                    arith,
                    find_domain-upsert_domain s d (suc t.last_domain) t.domains,
                    str_eq_iff d.domain_string s,
                  ))),
            )
      ]
