-- ===== src/Worker/Core/Links/Tidy.antt =====
-- crawler_core.rs: sorting and deduplicating the links keeps each of them once.
use polite_web_crawler.Prelude.{
  ◌≡◌, refl, sym, ◌∙◌, ap, ◌↔◌, true, false, ◌||◌, List, [], ◌∷◌, any, All, arith, Bool-cases, inl,
  inr,
}
use polite_web_crawler.Common.Url.{UrlApi}
use polite_web_crawler.Worker.Core.Links.{insert_sorted, sort, dedup_after, dedup}

-- `Ord` and `Eq` of `Url`: a total order whose equality is `==`.
pub record IsOrder {Url : Type 0} (api : UrlApi Url) : Type 0 where
  pub le_total : (a b : Url) → api.url_le a b ≡ false → api.url_le b a ≡ true
  pub le_trans :
      (a b c : Url) → api.url_le a b ≡ true → api.url_le b c ≡ true → api.url_le a c ≡ true
  pub eq_of_le : (a b : Url) → api.url_le a b ≡ true → api.url_le b a ≡ true → api.url_eq a b ≡ true
  pub le_refl : (a : Url) → api.url_le a a ≡ true
  pub eq_iff : (a b : Url) → (api.url_eq a b ≡ true) ↔ (a ≡ b)

module _ {Url : Type 0} (api : UrlApi Url) (law : IsOrder api) where
  abbrev Below : Url → List Url → Type 0
  Below u us = All (λ v. api.url_le u v ≡ true) us

  abbrev IsSorted : List Url → Type 0
  IsSorted [] = Unit
  IsSorted (u ∷ us) = Below u us × IsSorted us

  -- Every URL is below all later ones and differs from them.
  abbrev pub Ascending : List Url → Type 0
  Ascending [] = Unit
  Ascending (u ∷ us) =
      All (λ v. (api.url_le u v ≡ true) × (api.url_eq u v ≡ false)) us × Ascending us

  Below-trans : (u v : Url) (us : List Url) → api.url_le u v ≡ true → Below v us → Below u us
  Below-trans u v [] h b = tt
  Below-trans u v (w ∷ us) h (b, bs) = (law.le_trans u v w h b, Below-trans u v us h bs)

  Below-insert :
      (u v : Url) (us : List Url)
      → api.url_le u v ≡ true
      → Below u us
      → Below u (insert_sorted api v us)
  unfolding insert_sorted
  Below-insert u v [] h b = (h, tt)
  Below-insert u v (w ∷ us) h (b, bs) = elim (Bool-cases (api.url_le v w)) [
    | inl le ↦ rw le (h, (b, bs))
    | inr gt ↦ rw gt (b, Below-insert u v us h bs)
  ]

  insert-IsSorted : (u : Url) (us : List Url) → IsSorted us → IsSorted (insert_sorted api u us)
  unfolding insert_sorted
  insert-IsSorted u [] s = (tt, tt)
  insert-IsSorted u (v ∷ us) (b, s) = elim (Bool-cases (api.url_le u v)) [
    | inl le ↦ rw le ((le, Below-trans u v us le b), (b, s))
    | inr gt ↦ rw gt (Below-insert v u us (law.le_total u v gt) b, insert-IsSorted u us s)
  ]

  sort-IsSorted : (us : List Url) → IsSorted (sort api us)
  unfolding sort
  sort-IsSorted [] = tt
  sort-IsSorted (u ∷ us) = insert-IsSorted u (sort api us) (sort-IsSorted us)

  Above : Url → List Url → Type 0
  Above u us = All (λ v. (api.url_le u v ≡ true) × (api.url_eq u v ≡ false)) us

  -- What is strictly above `v` is strictly above what is below `v`.
  Above-trans : (u v : Url) (us : List Url) → api.url_le u v ≡ true → Above v us → Above u us
  unfolding Above
  Above-trans u v [] h b = tt
  Above-trans u v (w ∷ us) h ((le, ne), bs) =
      ((law.le_trans u v w h le, differs), Above-trans u v us h bs)
    where
      differs : api.url_eq u w ≡ false
      differs = elim (Bool-cases (api.url_eq u w)) [
        | inr ne' ↦ ne'
        | inl eq ↦ cc (sym ne ∙ law.eq_of_le v w le (rw (sym ((law.eq_iff u w).0 eq)) h))
      ]

  dedup_after-Above :
      (u : Url) (us : List Url) → Below u us → IsSorted us → Above u (dedup_after api u us)
  unfolding dedup_after Above
  dedup_after-Above u [] b s = tt
  dedup_after-Above u (v ∷ us) (b, bs) (c, s) = elim (Bool-cases (api.url_eq v u)) [
    | inl eq ↦ rw eq (dedup_after-Above u us bs s)
    | inr ne ↦
        rw ne
          ((b, differs ne), Above-trans u v (dedup_after api v us) b (dedup_after-Above v us c s))
  ]
    where
      differs : api.url_eq v u ≡ false → api.url_eq u v ≡ false
      differs ne = elim (Bool-cases (api.url_eq u v)) [
        | inr other ↦ other
        | inl eq ↦ cc (sym ne ∙ (law.eq_iff v u).1 (sym ((law.eq_iff u v).0 eq)))
      ]

  dedup_after-Ascending : (u : Url) (us : List Url) → IsSorted us → Ascending (dedup_after api u us)
  unfolding dedup_after
  dedup_after-Ascending u [] s = tt
  dedup_after-Ascending u (v ∷ us) (c, s) = elim (Bool-cases (api.url_eq v u)) [
    | inl eq ↦ rw eq (dedup_after-Ascending u us s)
    | inr ne ↦ rw ne (unfold Above in dedup_after-Above v us c s, dedup_after-Ascending v us s)
  ]

  any-insert :
      (u v : Url) (us : List Url)
      → any (api.url_eq u) (insert_sorted api v us) ≡ (api.url_eq u v || any (api.url_eq u) us)
  unfolding insert_sorted
  any-insert u v [] = refl
  any-insert u v (w ∷ us) = ground (arith, any-insert u v us)

  any-sort : (u : Url) (us : List Url) → any (api.url_eq u) (sort api us) ≡ any (api.url_eq u) us
  unfolding sort
  any-sort u [] = refl
  any-sort u (v ∷ us) = any-insert u v (sort api us) ∙ ap (λ b. api.url_eq u v || b) (any-sort u us)

  any-dedup_after :
      (u v : Url) (us : List Url)
      → (api.url_eq u v || any (api.url_eq u) (dedup_after api v us))
        ≡ (api.url_eq u v || any (api.url_eq u) us)
  unfolding dedup_after
  any-dedup_after u v [] = refl
  any-dedup_after u v (w ∷ us) = elim (Bool-cases (api.url_eq w v)) [
    | inl eq ↦
        rw eq (any-dedup_after u v us ∙ ground (arith, ap (api.url_eq u) ((law.eq_iff w v).0 eq)))
    | inr ne ↦ rw ne (ap (λ b. api.url_eq u v || b) (any-dedup_after u w us))
  ]

  -- Sorting and deduplicating keeps every link once: the result is strictly ascending, and it holds a
  -- URL exactly if the links do. Stated for a total order whose equality is the one of URLs.
  pub dedup-sort :
      (us : List Url)
      → Ascending (dedup api (sort api us))
        × ((u : Url) → any (api.url_eq u) (dedup api (sort api us)) ≡ any (api.url_eq u) us)
  unfolding dedup Above
  dedup-sort us = go (sort api us) (sort-IsSorted us) (λ u. any-sort u us)
    where
      go :
          (vs : List Url)
          → IsSorted vs
          → ((u : Url) → any (api.url_eq u) vs ≡ any (api.url_eq u) us)
          → Ascending (dedup api vs)
            × ((u : Url) → any (api.url_eq u) (dedup api vs) ≡ any (api.url_eq u) us)
      go [] s same = (tt, same)
      go (v ∷ vs) (b, s) same = (
        (dedup_after-Above v vs b s, dedup_after-Ascending v vs s),
        λ u. any-dedup_after u v vs ∙ same u,
      )
