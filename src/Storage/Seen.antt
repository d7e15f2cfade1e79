-- ===== src/Storage/Seen.antt =====
-- crates/storage_service/src/storage/seen_urls.rs. The Bloom filter of the crate `fastbloom` is a
-- parameter; its lock is held for a whole operation.
mod Tests
use polite_web_crawler.Prelude.{◌≡◌, ◌∙◌, Bool, true, List, [], ◌∷◌}

-- `with_false_pos(0.001).expected_items(10_000_000)`, and `insert`, which says whether the filter had
-- the item before.
pub record BloomApi (Filter Url : Type 0) : Type 0 where
  pub new_filter : Filter
  pub insert : Filter → Url → Bool × Filter

-- What a Bloom filter promises: what was inserted is never missed. It may take others for inserted.
pub record IsBloom {Filter Url : Type 0} (b : BloomApi Filter Url) : Type 0 where
  pub contains : Filter → Url → Bool
  pub answer : (s : Filter) (u : Url) → (b.insert s u).0 ≡ contains s u
  pub inserted : (s : Filter) (u : Url) → contains (b.insert s u).1 u ≡ true
  pub kept : (s : Filter) (u v : Url) → contains s v ≡ true → contains (b.insert s u).1 v ≡ true

module _ {Filter Url : Type 0} (b : BloomApi Filter Url) where
  unfoldable pub insert_url : Filter → Url → Bool × Filter
  insert_url seen url = b.insert seen url

  unfoldable pub insert_urls : Filter → List Url → Filter
  unfolding insert_url
  insert_urls seen [] = seen
  insert_urls seen (u ∷ us) = insert_urls (insert_url seen u).1 us

  contains-insert_urls :
      (law : IsBloom b) (seen : Filter) (u : Url) (us : List Url)
      → law.contains seen u ≡ true
      → law.contains (insert_urls seen us) u ≡ true
  unfolding insert_urls
  contains-insert_urls law seen u [] h = h
  contains-insert_urls law seen u (v ∷ us) h =
      contains-insert_urls law (b.insert seen v).1 u us (law.kept seen v u h)

  -- A URL is reported as new at most once: when it has been inserted, then after any further
  -- insertions it is reported as seen. Stated for a filter that never misses what was inserted.
  pub insert_url_once :
      IsBloom b
      → (seen : Filter) (u : Url) (us : List Url)
      → (insert_url (insert_urls (insert_url seen u).1 us) u).0 ≡ true
  unfolding insert_url
  insert_url_once law seen u us =
      law.answer _ u ∙ contains-insert_urls law (b.insert seen u).1 u us (law.inserted seen u)
