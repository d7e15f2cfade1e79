-- ===== src/Storage/Dedup/Repeat.antt =====
-- What has been inserted is recognised again, whatever is inserted afterwards and however its
-- punctuation differs.
use mathlib.Core.List.{append-nil, append_assoc}
use polite_web_crawler.Prelude.{
  ℕ, zero, suc, ◌/◌, ◌≤◌, ◌≡◌, refl, ◌∙◌, Bool, true, false, List, [], ◌∷◌, ◌++◌, arith, ltb,
  le→leb, any, any-append, length,
}
use polite_web_crawler.Common.Text.{Text, Unicode}
use polite_web_crawler.Common.Text.Utf8.{as_bytes}
use polite_web_crawler.Storage.Dedup.Bits.{diff_bits}
use polite_web_crawler.Storage.Dedup.Hash.{SimHash, cleaned, calculate_hash}
use polite_web_crawler.Storage.Dedup.Index.{IsIndex, insert-IsIndex}
use polite_web_crawler.Storage.Dedup.Recall.{IsHamming, is_duplicate_complete}
use polite_web_crawler.Storage.Dedup.{ContentDeduplicator, is_duplicate, insert}

pub diff_bits_self : (n a : ℕ) → diff_bits n a a ≡ 0
unfolding diff_bits
diff_bits_self zero a = refl
diff_bits_self (suc n) a = omega (arith, diff_bits_self n (a / 2))

any_middle :
    (p : ℕ → Bool) (xs : List ℕ) (x : ℕ) (ys : List ℕ)
    → p x ≡ true
    → any p ((xs ++ x ∷ []) ++ ys) ≡ true
any_middle p xs x ys h = ground (arith, any-append p (xs ++ x ∷ []) ys, any-append p xs (x ∷ []))

last_found : (p : ℕ → Bool) (xs : List ℕ) (x : ℕ) → p x ≡ true → any p (xs ++ x ∷ []) ≡ true
last_found p xs x h = ground (arith, any-append p xs (x ∷ []))

module _ (u : Unicode) (s : SimHash) where
  -- The texts inserted one after another.
  unfoldable pub insert_all : ContentDeduplicator → List Text → ContentDeduplicator
  insert_all d [] = d
  insert_all d (t ∷ ts) = insert_all (insert u s d t).0 ts

  -- The hashes of the texts.
  abbrev pub hashes : List Text → List ℕ
  hashes [] = []
  hashes (t ∷ ts) = calculate_hash u s t ∷ hashes ts

  abbrev pub Indexes : List ℕ → ContentDeduplicator → ℕ → Type 0
  Indexes hs d dist = IsIndex hs d.bands × (d.max_dist ≡ dist)

  insert_all-Indexes :
      (d : ContentDeduplicator) (hs : List ℕ) (ts : List Text)
      → IsIndex hs d.bands
      → Indexes (hs ++ hashes ts) (insert_all d ts) d.max_dist
  unfolding insert_all
  insert_all-Indexes d hs [] i = rw append-nil (i, refl)
  insert_all-Indexes d hs (t ∷ ts) i =
      let (i', _, e) = insert-IsIndex u s d hs t i in
      let (j, f) = insert_all-Indexes (insert u s d t).0 (hs ++ calculate_hash u s t ∷ []) ts i' in
      (rw append_assoc at j, f ∙ e)

  pub same_hash :
      (a b : Text)
      → cleaned u a ≡ cleaned u b
      → 4 ≤ length (as_bytes (cleaned u a))
      → calculate_hash u s a ≡ calculate_hash u s b
  unfolding calculate_hash
  same_hash a b e long = rw (← e, big)
    where
      big : ltb (length (as_bytes (cleaned u a))) 4 ≡ false
      big = ground arith

  -- Once a text has been inserted, every text that agrees with it in letters, digits and white space
  -- up to case is a duplicate from then on, after any further insertions. Stated where the crate's
  -- distance counts the differing bits, the distance bound is at most 3, the bands index some hashes,
  -- and what is left of the text has at least 4 bytes.
  pub inserted_is_duplicate :
      (d : ContentDeduplicator) (hs : List ℕ) (a b : Text) (later : List Text)
      → IsHamming s
      → d.max_dist ≤ 3
      → IsIndex hs d.bands
      → cleaned u a ≡ cleaned u b
      → 4 ≤ length (as_bytes (cleaned u a))
      → is_duplicate u s (insert_all (insert u s d a).0 later) b ≡ true
  inserted_is_duplicate d hs a b later ham le i same long =
      let (i', _, e) = insert-IsIndex u s d hs a i in
      let (j, f) =
        insert_all-Indexes (insert u s d a).0 (hs ++ calculate_hash u s a ∷ []) later i' in
      is_duplicate_complete u s ham _ _ b (rw (f, e) le) j
      ∙ any_middle _ hs (calculate_hash u s a) (hashes later) (
          rw (same_hash a b same long, diff_bits_self 64 (calculate_hash u s b))
            (le→leb 0 _ (omega arith)))

  pub just_inserted :
      (d : ContentDeduplicator) (hs : List ℕ) (text : Text)
      → IsHamming s
      → d.max_dist ≤ 3
      → IsIndex hs d.bands
      → is_duplicate u s (insert u s d text).0 text ≡ true
  just_inserted d hs text ham le i =
      let (i', _, e) = insert-IsIndex u s d hs text i in
      is_duplicate_complete u s ham _ _ text (rw e le) i'
      ∙ last_found _ hs (calculate_hash u s text)
          (rw (diff_bits_self 64 (calculate_hash u s text)) (le→leb 0 _ (omega arith)))
