-- ===== src/Storage/Service/Access.antt =====
-- crawler_storage.rs: which URLs may be fetched. The answer is the one of the stored robots.txt, through
-- whatever the cache holds.
use polite_web_crawler.Prelude.{
  ℕ, ◌≡◌, ◌≢◌, refl, sym, ◌∙◌, ap, subst, inl, inr, none, some, String, List, Option-cases,
}
use polite_web_crawler.Common.Errors.{CrawlerError, db_error}
use polite_web_crawler.Common.Outcome.{Outcome, ok, err, panic, ◌>>=◌}
use polite_web_crawler.Common.Data.{UrlAccess, url_without_host, DomainDataSaveData}
use polite_web_crawler.Storage.Cache.{
  CachedData, IsCache, new_cached, add_domain, get_sitemaps, robot_sitemaps,
}
use polite_web_crawler.Storage.Db.{DomainRow, Tables, Fault, find_domain, cache_info}
use polite_web_crawler.Storage.Db as Db
use polite_web_crawler.Storage.Db.Domains.{save_domain_once}
use polite_web_crawler.Storage.Service.Coherence.{
  stored_info, info, IsCoherent, Answers, cached_or_load-Looked,
}
use polite_web_crawler.Storage.Service.{
  Env, CrawlerStorage, map_result, cached_or_load, access_of, check_if_url_allowed, cache_domain,
  save_domain,
}

module _ {Url Robot F32 Filter Store : Type 0} (env : Env Url Robot F32 Filter Store)
    (law : IsCache env.cache) where
  -- What the database says of a URL.
  unfoldable pub access_spec : CrawlerStorage F32 Filter Store → Url → Outcome UrlAccess
  access_spec s url = elim (env.urls.domain url) [
    | none ↦ ok url_without_host
    | some domain ↦ info env law s domain >>= λ o. ok (access_of env url o)
  ]

  map_result-Answers :
      {A B : Type 0} (g : A → B) (x : Outcome A × CrawlerStorage F32 Filter Store)
      (spec : Outcome A)
      → Answers env law x.0 spec
      → Answers env law (map_result env g x).0 (spec >>= λ a. ok (g a))
  map_result-Answers g (ok a, s) spec (inl e) = inl (ap (λ r. r >>= λ b. ok (g b)) e)
  map_result-Answers g (err y, s) spec (inl e) = inl (ap (λ r. r >>= λ b. ok (g b)) e)
  map_result-Answers g (panic, s) spec (inl e) = inl (ap (λ r. r >>= λ b. ok (g b)) e)
  map_result-Answers g (ok a, s) spec (inr (x, e)) = cc e
  map_result-Answers g (err y, s) spec (inr (x, e)) = inr (x, cc e)
  map_result-Answers g (panic, s) spec (inr (x, e)) = cc e

  map_result-storage :
      {A B : Type 0} (g : A → B) (x : Outcome A × CrawlerStorage F32 Filter Store)
      → (map_result env g x).1 ≡ x.1
  map_result-storage g (ok a, s) = refl
  map_result-storage g (err y, s) = refl
  map_result-storage g (panic, s) = refl

  -- The cache cannot be noticed: from a coherent storage, the check of a URL answers as the database
  -- does, or with an error of the database, whatever the cache has kept or dropped; the tables stay, and
  -- the storage stays coherent.
  pub check_if_url_allowed_refines :
      (s : CrawlerStorage F32 Filter Store) (url : Url) (faults : ℕ → Fault)
      → IsCoherent env law s
      → Answers env law (check_if_url_allowed env s url faults).0 (access_spec s url)
        × IsCoherent env law (check_if_url_allowed env s url faults).1
        × ((check_if_url_allowed env s url faults).1.tables ≡ s.tables)
  unfolding check_if_url_allowed access_spec
  check_if_url_allowed_refines s url faults coh = elim (Option-cases (env.urls.domain url)) [
    | inl hostless ↦ rw (hostless, check_if_url_allowed, access_spec) (inl refl, coh, refl)
    | inr (domain, host) ↦
        let l = cached_or_load-Looked env law s domain faults coh in
        let same = map_result-storage (access_of env url) (cached_or_load env s domain faults) in
        rw (host, check_if_url_allowed, access_spec)
          (
            map_result-Answers (access_of env url) (cached_or_load env s domain faults) _ l.answer,
            rw same l.coherent,
            rw same l.tables,
          )
  ]

  -- What a saved domain is known by.
  pub record Saved (s s' : CrawlerStorage F32 Filter Store) (d : DomainDataSaveData F32)
      (maps : List String) : Type 0 where
    pub id : ℕ
    pub cd : CachedData Robot
    pub read_from : new_cached env.robots env.floats id d.robots d.delay s.agent_name ≡ ok cd
    pub stored : info env law s' d.domain_string ≡ ok (some cd)
    pub others :
        (domain : String)
        → d.domain_string ≢ domain
        → info env law s' domain ≡ info env law s domain
    pub sitemaps : maps ≡ robot_sitemaps env.robots env.cache cd.robot
    pub coherent : IsCoherent env law s'

  module _ (s : CrawlerStorage F32 Filter Store) (d : DomainDataSaveData F32) (id : ℕ) where
    cache_domain-cached :
        (cd : CachedData Robot)
        → new_cached env.robots env.floats id d.robots d.delay s.agent_name ≡ ok cd
        → cache_domain env s d id ≡ (
          ok (robot_sitemaps env.robots env.cache cd.robot),
          record s {
            domain_cache =
                (env.cache.get
                  (env.cache.insert s.domain_cache d.domain_string cd)
                  d.domain_string).1;
          },
        )
    unfolding cache_domain add_domain get_sitemaps
    cache_domain-cached cd h =
        rw (h, cache_domain) (rw (law.get-insert s.domain_cache d.domain_string cd, get_sitemaps))

    cache_domain-err :
        (e : CrawlerError)
        → new_cached env.robots env.floats id d.robots d.delay s.agent_name ≡ err e
        → (cache_domain env s d id).0 ≡ err e
    unfolding cache_domain
    cache_domain-err e h = rw (h, cache_domain)

    cache_domain-panic :
        new_cached env.robots env.floats id d.robots d.delay s.agent_name ≡ panic
        → (cache_domain env s d id).0 ≡ panic
    unfolding cache_domain
    cache_domain-panic h = rw (h, cache_domain)

  cache_domain-ok :
      (s : CrawlerStorage F32 Filter Store) (d : DomainDataSaveData F32) (id : ℕ)
      (maps : List String) (s' : CrawlerStorage F32 Filter Store)
      → cache_domain env s d id ≡ (ok maps, s')
      → (cd : CachedData Robot) × (new_cached env.robots env.floats id d.robots d.delay s.agent_name
          ≡ ok cd)
        × (maps ≡ robot_sitemaps env.robots env.cache cd.robot)
        × (s' ≡ record s {
          domain_cache =
              (env.cache.get
                (env.cache.insert s.domain_cache d.domain_string cd)
                d.domain_string).1;
        })
  cache_domain-ok s d id maps s' run =
      go (new_cached env.robots env.floats id d.robots d.delay s.agent_name) refl
    where
      go :
          (r : Outcome (CachedData Robot))
          → new_cached env.robots env.floats id d.robots d.delay s.agent_name ≡ r
          → (cd : CachedData Robot) × (new_cached env.robots env.floats id d.robots d.delay
                s.agent_name
              ≡ ok cd)
            × (maps ≡ robot_sitemaps env.robots env.cache cd.robot)
            × (s' ≡ record s {
              domain_cache =
                  (env.cache.get
                    (env.cache.insert s.domain_cache d.domain_string cd)
                    d.domain_string).1;
            })
      go (err e) h = cc (cache_domain-err s d id e h, run)
      go panic h = cc (cache_domain-panic s d id h, run)
      go (ok cd) h =
          let all = sym run ∙ cache_domain-cached s d id cd h in
          (
            cd,
            h,
            cc (ap (λ (x : Outcome (List String) × CrawlerStorage F32 Filter Store). x.0) all),
            ap (λ (x : Outcome (List String) × CrawlerStorage F32 Filter Store). x.1) all,
          )

  module _ (s : CrawlerStorage F32 Filter Store) (d : DomainDataSaveData F32)
      (faults : ℕ → Fault) where
    -- The storage when the row has been written.
    abbrev written : CrawlerStorage F32 Filter Store
    written = record s { tables = (Db.save_domain d faults s.tables).1 }

    save_domain-written :
        (id : ℕ)
        → (Db.save_domain d faults s.tables).0 ≡ ok id
        → save_domain env s d faults ≡ cache_domain env written d id
    unfolding save_domain
    save_domain-written id e = rw (e, save_domain)

    save_domain_failed :
        (x : CrawlerError)
        → (Db.save_domain d faults s.tables).0 ≡ err x
        → (save_domain env s d faults).0 ≡ err x
    unfolding save_domain
    save_domain_failed x e = rw (e, save_domain)

    written-info :
        (id : ℕ) (cd : CachedData Robot)
        → find_domain d.domain_string written.tables.domains
          ≡ some (record {
            dom_id = id;
            domain_string = d.domain_string;
            delay = some d.delay;
            allowed_urls = d.robots;
          })
        → new_cached env.robots env.floats id d.robots d.delay s.agent_name ≡ ok cd
        → info env law written d.domain_string ≡ ok (some cd)
    unfolding stored_info cache_info
    written-info id cd row h = rw (row, stored_info) (rw h)

    -- A domain that has been saved is known by what was saved. If `save_domain` returns sitemaps, from a
    -- coherent storage and however the driver fails on the way, then the database answers for the domain
    -- by the robots.txt and the delay that were saved, for every other domain as before, the sitemaps are
    -- those of the robots.txt, and the storage is coherent again.
    pub save_domain-Saved :
        (maps : List String) (s' : CrawlerStorage F32 Filter Store)
        → IsCoherent env law s
        → save_domain env s d faults ≡ (ok maps, s')
        → Saved s s' d maps
    save_domain-Saved maps s' coh run = elim (save_domain_once d faults s.tables) [
      | inr (x, e, _) ↦ cc (save_domain_failed (db_error x) e, run)
      | inl (id, e, row, _, others) ↦
          let (cd, h, sitemaps, same) =
            cache_domain-ok written d id maps s' (sym (save_domain-written id e) ∙ run) in
          subst (λ x. Saved s x d maps) (sym same)
            (record {
              id = id;
              cd = cd;
              read_from = h;
              stored = written-info id cd row h;
              others = λ domain ne.
                  unfold stored_info in
                  ap (cache_info env.robots env.floats s.agent_name) (others domain ne);
              sitemaps = sitemaps;
              coherent = record {
                agrees = λ domain w held.
                    elim (law.held_before_insert s.domain_cache d.domain_string domain cd w
                      (law.held_before_get _ d.domain_string domain w held)) [
                        | inl (equal, value) ↦
                            subst (λ y. info env law written y ≡ ok (some w)) equal
                              (written-info id cd row h ∙ ap (λ x. ok (some x)) value)
                        | inr (ne, before) ↦
                            unfold stored_info in
                            ap (cache_info env.robots env.floats s.agent_name) (others domain ne)
                            ∙ coh.agrees domain w before
                      ];
              };
            })
    ]
