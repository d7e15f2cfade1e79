-- ===== src/Storage/Service/Stored.antt =====
-- crawler_storage.rs, page events: what `Ok` means for the tables.
use polite_web_crawler.Prelude.{
  ℕ, ◌≡◌, refl, ◌∙◌, ◌⊎◌, inl, inr, true, Option, none, some, String, [], Bool-cases,
}
use polite_web_crawler.Common.Text.{Text}
use polite_web_crawler.Common.Outcome.{Outcome, ok, err, panic}
use polite_web_crawler.Common.Url.{Parsed, parsed, refused}
use polite_web_crawler.Common.Data.{ParsedPageSaveData, parsed_page}
use polite_web_crawler.Storage.Cache.{IsCache}
use polite_web_crawler.Storage.Dedup.{ContentDeduplicator, is_duplicate}
use polite_web_crawler.Storage.Db.{Fault}
use polite_web_crawler.Storage.Db.Pages.{StoredPage, save_parsed_page-StoredPage}
use polite_web_crawler.Storage.Service.Coherence.{IsCoherent, cached_or_load-Looked}
use polite_web_crawler.Storage.Service.{
  Env, CrawlerStorage, map_result, cached_or_load, id_of, get_domain_id, write_page, save_text,
  save_clean_text, save_parsed_page, count, save_page_under, save_page_of, save_page_at,
  save_parsed_data,
}

module _ {Url Robot F32 Filter Store : Type 0} (env : Env Url Robot F32 Filter Store) where
  abbrev S : Type 0
  S = CrawlerStorage F32 Filter Store

  -- The text of the page is close to one that the deduplicator knows.
  pub record IsDuplicate (d : ContentDeduplicator) (page : ParsedPageSaveData) : Type 0 where
    pub txt : Text
    pub has_text : page.clean_text ≡ some txt
    pub duplicate : is_duplicate env.unicode env.simhash d txt ≡ true

  -- A success means that the page is stored, or was a duplicate; no sitemaps are returned.
  abbrev pub Stores :
      {A : Type 0} → ContentDeduplicator → ParsedPageSaveData → A → Outcome A × S → Type 0
  Stores {A} d page value x =
      (a : A) → x.0 ≡ ok a → (a ≡ value) × (StoredPage x.1.tables page ⊎ IsDuplicate d page)

  write_page-Stores :
      (d : ContentDeduplicator) (s : S) (id : ℕ) (page : ParsedPageSaveData) (hash : Option ℕ)
      (faults : ℕ → Fault)
      → Stores d page tt (write_page env s id page hash faults)
  unfolding write_page
  write_page-Stores d s id page hash faults a e =
      (refl, inl (save_parsed_page-StoredPage id page hash faults s.tables e))

  save_text-Stores :
      (s : S) (id : ℕ) (page : ParsedPageSaveData) (txt : Text) (faults : ℕ → Fault)
      → page.clean_text ≡ some txt
      → Stores s.dedup page tt (save_text env s id page txt faults)
  unfolding save_text
  save_text-Stores s id page txt faults has a e =
      elim (Bool-cases (is_duplicate env.unicode env.simhash s.dedup txt)) [
        | inl dup ↦ (refl, inr (record { txt = txt; has_text = has; duplicate = dup }))
        | inr new ↦ rw new (write_page-Stores s.dedup _ id page _ faults a (rw new at e))
      ]

  save_clean_text-Stores :
      (s : S) (id : ℕ) (page : ParsedPageSaveData) (faults : ℕ → Fault) (o : Option Text)
      → page.clean_text ≡ o
      → Stores s.dedup page tt (save_clean_text env s id page faults o)
  unfolding save_clean_text
  save_clean_text-Stores s id page faults none has = write_page-Stores s.dedup s id page none faults
  save_clean_text-Stores s id page faults (some txt) has = save_text-Stores s id page txt faults has

  count-Stores :
      (d : ContentDeduplicator) (page : ParsedPageSaveData) (x : Outcome (Unit {0}) × S)
      → Stores d page tt x
      → Stores d page [] (count env x)
  unfolding count
  count-Stores d page (err y, s) h urls e = cc e
  count-Stores d page (panic, s) h urls e = cc e
  count-Stores d page (ok a, s) h urls e = (cc e, (h a refl).1)

  save_page_under-Stores :
      (x : Outcome (Option ℕ) × S) (page : ParsedPageSaveData) (faults : ℕ → Fault)
      → Stores x.1.dedup page [] (save_page_under env x page faults)
  unfolding save_page_under save_parsed_page
  save_page_under-Stores (err y, s) page faults urls e = cc e
  save_page_under-Stores (panic, s) page faults urls e = cc e
  save_page_under-Stores (ok none, s) page faults urls e = cc e
  save_page_under-Stores (ok (some id), s) page faults urls e =
      count-Stores s.dedup page _ (save_clean_text-Stores s id page faults page.clean_text refl)
        urls e

  module _ (law : IsCache env.cache) (s : S) (coh : IsCoherent env law s) where
    mapped_dedup :
        {A B : Type 0} (g : A → B) (x : Outcome A × S) → (map_result env g x).1.dedup ≡ x.1.dedup
    mapped_dedup g (ok a, u) = refl
    mapped_dedup g (err y, u) = refl
    mapped_dedup g (panic, u) = refl

    get_domain_id-dedup :
        (host : String) (looking : ℕ → Fault) → (get_domain_id env s host looking).1.dedup ≡ s.dedup
    unfolding get_domain_id
    get_domain_id-dedup host looking =
        mapped_dedup (id_of env) (cached_or_load env s host looking)
        ∙ (cached_or_load-Looked env law s host looking coh).dedup

    save_page_of-Stores :
        (host : Option String) (page : ParsedPageSaveData) (looking writing : ℕ → Fault)
        → Stores s.dedup page [] (save_page_of env s host page looking writing)
    unfolding save_page_of
    save_page_of-Stores none page looking writing urls e = cc e
    save_page_of-Stores (some host) page looking writing urls e =
        let (none_left, r) =
          save_page_under-Stores (get_domain_id env s host looking) page writing urls e in
        (
          none_left,
          elim r [
            | inl row ↦ inl row
            | inr dup ↦ inr (record {
              txt = dup.txt;
              has_text = dup.has_text;
              duplicate = rw (← get_domain_id-dedup host looking) dup.duplicate;
            })
          ],
        )

    save_page_at-Stores :
        (p : Parsed Url) (page : ParsedPageSaveData) (looking writing : ℕ → Fault)
        → Stores s.dedup page [] (save_page_at env s p page looking writing)
    unfolding save_page_at
    save_page_at-Stores (refused y) page looking writing urls e = cc e
    save_page_at-Stores (parsed u) page looking writing urls e =
        save_page_of-Stores (env.urls.domain u) page looking writing urls e

    pub save_parsed_data-Stores :
        (page : ParsedPageSaveData) (looking writing : ℕ → Fault)
        → Stores s.dedup page [] (save_parsed_data env s (parsed_page page) looking writing)
    unfolding save_parsed_data
    save_parsed_data-Stores page looking writing =
        save_page_at-Stores (env.urls.parse page.url) page looking writing
