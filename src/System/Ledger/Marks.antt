-- ===== src/System/Ledger/Marks.antt =====
-- An act of a worker of the system, over a filter that never misses what was inserted: a URL that it finds is one
-- that the filter has from then on.
use polite_web_crawler.Prelude.{
  ℕ, ◌+◌, ◌≤◌, ◌≡◌, refl, sym, ◌∙◌, ap, inl, inr, true, false, Bool, String, List, [], ◌∷◌, str_eq,
  str_eq_iff, arith, Bool-cases, if◌then◌else◌,
}
use polite_web_crawler.Common.Outcome.{Outcome, ok, err, panic}
use polite_web_crawler.Common.Url.{parsed}
use polite_web_crawler.Storage.Seen.{IsBloom}
use polite_web_crawler.Storage.Service.{Env, CrawlerStorage}
use polite_web_crawler.Worker.Core.Loop.{
  idle, guarded, counted, ended, holding, pushing, pushed, Phase, processed, Shared, worker_step,
}
use polite_web_crawler.Worker.Core.Links as Links
use polite_web_crawler.Worker.Core.Links.Once.{Asked, insert_url-Asked}
use polite_web_crawler.System.{
  Place, looping, filtering, Act, operates, finds, asks, looped, found, asked, act,
}
use polite_web_crawler.System.Ledger.{count, found_at, found_by}

module _ {Url Robot F32 Filter Store : Type 0} (env : Env Url Robot F32 Filter Store)
    (law : IsBloom env.bloom)
    (reparses : (u : Url) → env.urls.parse (env.urls.as_str u) ≡ parsed u) where
  module _ (u : Url) where
    -- The URL has been found at most once, and then the filter has it.
    abbrev pub Marked : CrawlerStorage F32 Filter Store → ℕ → Type 0
    Marked st n = n ≤ (if law.contains st.seen_urls u then 1 else 0)

    same : (v : Url) → str_eq (env.urls.as_str u) (env.urls.as_str v) ≡ true → u ≡ v
    same v h = cc (
        sym (reparses u)
        ∙ ap env.urls.parse ((str_eq_iff (env.urls.as_str u) (env.urls.as_str v)).0 h)
        ∙ reparses v)

    -- What is new is marked.
    pub new-Marked :
        (st st' : CrawlerStorage F32 Filter Store) (v : Url) (n : ℕ)
        → (law.contains st.seen_urls u ≡ true → law.contains st'.seen_urls u ≡ true)
        → law.contains st.seen_urls v ≡ false
        → law.contains st'.seen_urls v ≡ true
        → Marked st n
        → Marked st' (count (env.urls.as_str u) (env.urls.as_str v ∷ []) + n)
    new-Marked st st' v n within fresh old h =
        elim (Bool-cases (str_eq (env.urls.as_str u) (env.urls.as_str v))) [
          | inr other ↦ rw other (ground (arith, within, h))
          | inl e ↦ rw e (known e)
        ]
      where
        known :
            str_eq (env.urls.as_str u) (env.urls.as_str v) ≡ true
            → 1 + 0 + n ≤ (if law.contains st'.seen_urls u then 1 else 0)
        known e =
            let was : law.contains st.seen_urls u ≡ false = rw (same v e) fresh in
            let is : law.contains st'.seen_urls u ≡ true = rw (same v e) old in
            ground (arith, h, was, is)

    found-Marked :
        (st st' : CrawlerStorage F32 Filter Store) (v : Url) (o : Outcome Bool) (n : ℕ)
        → Asked env law reparses st v (o, st')
        → Marked st n
        → Marked st' (count (env.urls.as_str u) (found_at env (env.urls.as_str v) o) + n)
    unfolding found_at
    found-Marked st st' v (ok true) n call h = ground (arith, call.within u, h)
    found-Marked st st' v (err e) n call h = ground (arith, call.within u, h)
    found-Marked st st' v panic n call h = ground (arith, call.within u, h)
    found-Marked st st' v (ok false) n call h =
        let (fresh, old) = call.when_new refl in new-Marked st st' v n (call.within u) fresh old h

    asked_storage :
        (st : CrawlerStorage F32 Filter Store) (s : Shared) (v : Url) (us : List Url)
        (kept : List String) (o : Outcome Bool)
        → (asked env s (env.urls.as_str v) us kept (o, st)).0 ≡ st
    unfolding asked looped
    asked_storage st s v us kept (ok true) = refl
    asked_storage st s v us kept (ok false) = refl
    asked_storage st s v us kept (err e) = refl
    asked_storage st s v us kept panic = refl

    found_storage :
        (st : CrawlerStorage F32 Filter Store) (s : Shared) (o : Outcome (List Url))
        → (found env st s o).0 ≡ st
    unfolding found looped
    found_storage st s (ok us) = refl
    found_storage st s (err e) = refl
    found_storage st s panic = refl

    looped_storage :
        (st : CrawlerStorage F32 Filter Store) (x : Shared × Phase Url) → (looped env st x).0 ≡ st
    unfolding looped
    looped_storage st (s, p) = refl

    pub act-Marked :
        (st : CrawlerStorage F32 Filter Store) (s : Shared) (p : Place Url) (a : Act Url) (n : ℕ)
        → Marked st n
        → Marked (act env st s p a).0 (count (env.urls.as_str u) (found_by env st p a) + n)
    unfolding act found_by looped
    act-Marked st s (filtering (v ∷ us) kept) (asks c) n h =
        let (o, st') = Links.insert_url env st c (env.urls.as_str v) in
        rw (asked_storage st' s v us kept o)
          (found-Marked st st' v o n (insert_url-Asked env law reparses st c v) h)
    act-Marked st s (filtering [] kept) (asks c) n h =
        rw (looped_storage st (worker_step env.urls s guarded (processed kept))) (omega (arith, h))
    act-Marked st s (looping guarded) (finds o) n h = rw (found_storage st s o) (omega (arith, h))
    act-Marked st s (looping guarded) (operates e) n h = omega (arith, h)
    act-Marked st s (looping guarded) (asks c) n h = omega (arith, h)
    act-Marked st s (looping idle) (operates e) n h =
        rw (looped_storage st (worker_step env.urls s idle e)) (omega (arith, h))
    act-Marked st s (looping counted) (operates e) n h =
        rw (looped_storage st (worker_step env.urls s counted e)) (omega (arith, h))
    act-Marked st s (looping ended) (operates e) n h =
        rw (looped_storage st (worker_step env.urls s ended e)) (omega (arith, h))
    act-Marked st s (looping (holding v)) (operates e) n h =
        rw (looped_storage st (worker_step env.urls s (holding v) e)) (omega (arith, h))
    act-Marked st s (looping (pushing i us)) (operates e) n h =
        rw (looped_storage st (worker_step env.urls s (pushing i us) e)) (omega (arith, h))
    act-Marked st s (looping (pushed i)) (operates e) n h =
        rw (looped_storage st (worker_step env.urls s (pushed i) e)) (omega (arith, h))
    act-Marked st s p a n h = omega (arith, h)
