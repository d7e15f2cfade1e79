-- ===== src/System/Finite.antt =====
-- A finite web, and how many of its URLs the storage does not know yet.
use polite_web_crawler.Prelude.{
  ℕ, ◌+◌, ◌≤◌, ◌≡◌, ◌⊎◌, inl, inr, true, false, List, [], ◌∷◌, All, length, arith, if◌then◌else◌,
  Bool-cases,
}
use polite_web_crawler.Common.Url.{UrlApi, parsed}
use polite_web_crawler.Storage.Seen.{IsBloom}
use polite_web_crawler.Storage.Service.{Env}
use polite_web_crawler.Worker.Core.Links.{insert_sorted, sort, dedup_after, dedup}
use polite_web_crawler.Worker.Core.Links.Once.{S, Within}

-- The URL is one of the web's.
abbrev pub In : {Url : Type 0} → List Url → Url → Type 0
In [] u = ⊥
In (v ∷ vs) u = (u ≡ v) ⊎ In vs u

-- What holds of all links holds of those that are left behind sorting and deduplicating.
module _ {Url : Type 0} (api : UrlApi Url) (P : Url → Type 0) where
  insert_sorted-All : (u : Url) (us : List Url) → P u → All P us → All P (insert_sorted api u us)
  unfolding insert_sorted
  insert_sorted-All u [] h hs = (h, tt)
  insert_sorted-All u (v ∷ us) h (k, hs) = elim (Bool-cases (api.url_le u v)) [
    | inl le ↦ rw le (h, (k, hs))
    | inr gt ↦ rw gt (k, insert_sorted-All u us h hs)
  ]

  sort-All : (us : List Url) → All P us → All P (sort api us)
  unfolding sort
  sort-All [] h = tt
  sort-All (u ∷ us) (h, hs) = insert_sorted-All u (sort api us) h (sort-All us hs)

  dedup_after-All : (u : Url) (us : List Url) → All P us → All P (dedup_after api u us)
  unfolding dedup_after
  dedup_after-All u [] h = tt
  dedup_after-All u (v ∷ us) (h, hs) = elim (Bool-cases (api.url_eq v u)) [
    | inl same ↦ rw same (dedup_after-All u us hs)
    | inr other ↦ rw other (h, dedup_after-All v us hs)
  ]

  pub dedup-sort-All : (us : List Url) → All P us → All P (dedup api (sort api us))
  unfolding dedup
  dedup-sort-All us h = go (sort api us) (sort-All us h)
    where
      go : (vs : List Url) → All P vs → All P (dedup api vs)
      go [] k = tt
      go (v ∷ vs) (k, ks) = (k, dedup_after-All v vs ks)

module _ {Url Robot F32 Filter Store : Type 0} (env : Env Url Robot F32 Filter Store)
    (law : IsBloom env.bloom)
    (reparses : (u : Url) → env.urls.parse (env.urls.as_str u) ≡ parsed u) where
  -- The URLs of the web that the filter would report as new.
  abbrev pub unseen : Filter → List Url → ℕ
  unseen filter [] = 0
  unseen filter (u ∷ us) = (if law.contains filter u then 0 else 1) + unseen filter us

  pub unseen-le-length : (filter : Filter) (web : List Url) → unseen filter web ≤ length web
  unseen-le-length filter [] = omega arith
  unseen-le-length filter (u ∷ us) = ground (arith, unseen-le-length filter us)

  pub unseen-Within :
      (s s' : S env law reparses) (web : List Url)
      → Within env law reparses s s'
      → unseen s'.seen_urls web ≤ unseen s.seen_urls web
  unseen-Within s s' [] w = omega arith
  unseen-Within s s' (u ∷ us) w = ground (arith, w u, unseen-Within s s' us w)

  pub unseen_less :
      (s s' : S env law reparses) (web : List Url) (u : Url)
      → Within env law reparses s s'
      → In web u
      → law.contains s.seen_urls u ≡ false
      → law.contains s'.seen_urls u ≡ true
      → unseen s'.seen_urls web + 1 ≤ unseen s.seen_urls web
  unseen_less s s' [] u w h fresh old = absurd h
  unseen_less s s' (v ∷ vs) u w (inl e) fresh old =
      rw (← e) (ground (arith, fresh, old, unseen-Within s s' vs w))
  unseen_less s s' (v ∷ vs) u w (inr h) fresh old =
      ground (arith, w v, unseen_less s s' vs u w h fresh old)
