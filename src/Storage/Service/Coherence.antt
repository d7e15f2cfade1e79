-- ===== src/Storage/Service/Coherence.antt =====
-- crawler_storage.rs: the cache never disagrees with the database, so that a lookup through the cache is
-- one in the database.
use polite_web_crawler.Prelude.{
  ℕ, ◌≡◌, refl, sym, ◌∙◌, ap, subst, ◌⊎◌, inl, inr, Option, none, some, String, Option-cases,
}
use polite_web_crawler.Common.Errors.{db_error}
use polite_web_crawler.Common.Outcome.{Outcome, ok, err, panic, ◌>>=◌}
use polite_web_crawler.Common.Url.{RobotApi, Floats}
use polite_web_crawler.Storage.Cache.{CachedData, IsCache, add_domain, get_cached_domain}
use polite_web_crawler.Storage.Db.{
  Tables, Fault, select_domain, find_domain, cache_info, get_cache_info_about_domain,
}
use polite_web_crawler.Storage.Db.Retries.{with_backoff-Once}
use polite_web_crawler.Storage.Service.{Env, CrawlerStorage, load, cached_or_load}

module _ {Robot F32 : Type 0} (robots : RobotApi Robot F32) (f : Floats F32) where
  -- What the tables say of a domain.
  unfoldable pub stored_info : Tables F32 → String → String → Outcome (Option (CachedData Robot))
  stored_info t agent domain = cache_info robots f agent (find_domain domain t.domains)

  -- A reading of the database says what the tables say, or fails with an error of the database.
  get_cache_info_fault :
      (domain agent : String) (faults : ℕ → Fault) (t : Tables F32)
      → (get_cache_info_about_domain robots f domain agent faults t ≡ stored_info t agent domain)
        ⊎ ((e : String) × (get_cache_info_about_domain robots f domain agent faults t
              ≡ err (db_error e)))
  unfolding get_cache_info_about_domain stored_info
  get_cache_info_fault domain agent faults t =
      elim (with_backoff-Once (select_domain domain) t (λ u. unfold select_domain in refl) faults) [
        | inl (row, e, run) ↦
            let found : row ≡ find_domain domain t.domains = unfold select_domain in cc run in
            inl (ap (λ r. r >>= cache_info robots f agent) e ∙ ap (cache_info robots f agent) found)
        | inr (x, e, _) ↦ inr (x, ap (λ r. r >>= cache_info robots f agent) e)
      ]

module _ {Url Robot F32 Filter Store : Type 0} (env : Env Url Robot F32 Filter Store)
    (law : IsCache env.cache) where
  -- What the database of a storage says of a domain.
  abbrev pub info : CrawlerStorage F32 Filter Store → String → Outcome (Option (CachedData Robot))
  info s domain = stored_info env.robots env.floats s.tables s.agent_name domain

  -- All that the cache may answer is what the database says.
  pub record IsCoherent (s : CrawlerStorage F32 Filter Store) : Type 0 where
    pub agrees :
        (domain : String) (cd : CachedData Robot)
        → law.Holds s.domain_cache domain cd
        → info s domain ≡ ok (some cd)

  -- A result that is the database's answer, or an error of the database.
  abbrev pub Answers : {A : Type 0} → Outcome A → Outcome A → Type 0
  Answers r spec = (r ≡ spec) ⊎ ((e : String) × (r ≡ err (db_error e)))

  -- What a lookup leaves of the storage.
  pub record Looked (s : CrawlerStorage F32 Filter Store) (domain : String)
      (x : Outcome (Option (CachedData Robot)) × CrawlerStorage F32 Filter Store) : Type 0 where
    pub answer : Answers x.0 (info s domain)
    pub coherent : IsCoherent x.1
    pub tables : x.1.tables ≡ s.tables
    pub agent : x.1.agent_name ≡ s.agent_name
    pub dedup : x.1.dedup ≡ s.dedup
    pub counter : x.1.saved_counter ≡ s.saved_counter

  insert-IsCoherent :
      (s : CrawlerStorage F32 Filter Store) (domain : String) (cd : CachedData Robot)
      → IsCoherent s
      → info s domain ≡ ok (some cd)
      → IsCoherent
          (record s { domain_cache = add_domain env.robots env.cache s.domain_cache domain cd })
  unfolding add_domain
  insert-IsCoherent s domain cd coh known = record {
    agrees = λ d w held. elim (law.held_before_insert s.domain_cache domain d cd w held) [
      | inl (same, equal) ↦
          subst (λ x. info s x ≡ ok (some w)) same (known ∙ ap (λ x. ok (some x)) equal)
      | inr (other, before) ↦ coh.agrees d w before
    ];
  }

  get-IsCoherent :
      (s : CrawlerStorage F32 Filter Store) (domain : String)
      → IsCoherent s
      → IsCoherent (record s { domain_cache = (env.cache.get s.domain_cache domain).1 })
  get-IsCoherent s domain coh = record {
    agrees = λ d w held. coh.agrees d w (law.held_before_get s.domain_cache domain d w held);
  }

  unchanged :
      (s : CrawlerStorage F32 Filter Store) (domain : String)
      (r : Outcome (Option (CachedData Robot)))
      → IsCoherent s
      → Answers r (info s domain)
      → Looked s domain (r, s)
  unchanged s domain r coh a = record {
    answer = a;
    coherent = coh;
    tables = refl;
    agent = refl;
    dedup = refl;
    counter = refl;
  }

  load-Looked :
      (s : CrawlerStorage F32 Filter Store) (domain : String) (faults : ℕ → Fault)
      (r : Outcome (Option (CachedData Robot)))
      → get_cache_info_about_domain env.robots env.floats domain s.agent_name faults s.tables ≡ r
      → IsCoherent s
      → Answers r (info s domain)
      → Looked s domain (load env s domain faults)
  unfolding load
  load-Looked s domain faults (err e) run coh a = rw (run, load) (unchanged s domain (err e) coh a)
  load-Looked s domain faults panic run coh a = rw (run, load) (unchanged s domain panic coh a)
  load-Looked s domain faults (ok none) run coh a =
      rw (run, load) (unchanged s domain (ok none) coh a)
  load-Looked s domain faults (ok (some cd)) run coh a =
      rw (run, load)
        (record {
          answer = a;
          coherent = insert-IsCoherent s domain cd coh (said a);
          tables = refl;
          agent = refl;
          dedup = refl;
          counter = refl;
        })
    where
      said : Answers (ok (some cd)) (info s domain) → info s domain ≡ ok (some cd)
      said (inl e) = sym e
      said (inr (x, e)) = cc e

  -- A lookup through a coherent cache answers as the database would, or with an error of the database; it
  -- changes nothing but the cache, and leaves it coherent.
  pub cached_or_load-Looked :
      (s : CrawlerStorage F32 Filter Store) (domain : String) (faults : ℕ → Fault)
      → IsCoherent s
      → Looked s domain (cached_or_load env s domain faults)
  unfolding cached_or_load get_cached_domain
  cached_or_load-Looked s domain faults coh =
      elim (Option-cases (env.cache.get s.domain_cache domain).0) [
        | inl missed ↦
            rw (missed, cached_or_load)
              (let s' : CrawlerStorage F32 Filter Store = record s {
                domain_cache = (env.cache.get s.domain_cache domain).1;
              } in
                let l = load-Looked s' domain faults _ refl (get-IsCoherent s domain coh) (
                  get_cache_info_fault env.robots env.floats domain s.agent_name faults s.tables) in
                record {
                  answer = l.answer;
                  coherent = l.coherent;
                  tables = l.tables;
                  agent = l.agent;
                  dedup = l.dedup;
                  counter = l.counter;
                })
        | inr (cd, hit) ↦
            rw (hit, cached_or_load)
              (record {
                answer =
                    inl (sym (coh.agrees domain cd (law.get_held s.domain_cache domain cd hit)));
                coherent = get-IsCoherent s domain coh;
                tables = refl;
                agent = refl;
                dedup = refl;
                counter = refl;
              })
      ]
