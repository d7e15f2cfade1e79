-- ===== src/Storage/Seen/Tests.antt =====
-- The seen URLs with a list in the place of the filter.
use polite_web_crawler.Prelude.{ℕ, ◌≡◌, refl, true, List, [], ◌∷◌, any, ◌==◌, arith}
use polite_web_crawler.Storage.Seen.{BloomApi, IsBloom, insert_url, insert_urls, insert_url_once}

abbrev listed : BloomApi (List ℕ) ℕ
listed = record { new_filter = []; insert = λ s u. (any (λ v. v == u) s, u ∷ s) }

listed-IsBloom : IsBloom listed
listed-IsBloom = record {
  contains = λ s u. any (λ v. v == u) s;
  answer = λ s u. refl;
  inserted = λ s u. ground arith;
  kept = λ s u v h. ground arith;
}

insert_url_once_example :
    (insert_url listed (insert_urls listed (insert_url listed [] 7).1 (8 ∷ 9 ∷ [])) 7).0 ≡ true
insert_url_once_example = insert_url_once listed listed-IsBloom [] 7 (8 ∷ 9 ∷ [])
