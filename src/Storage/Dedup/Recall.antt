-- ===== src/Storage/Dedup/Recall.antt =====
-- Why the search by bands misses nothing: two hashes that differ in at most three bits agree on one of
-- the four disjoint windows of 16 bits, so the candidates of the eight buckets are enough.
use native.Mathlib.Decide.{ℕ_discrete}
use polite_web_crawler.Prelude.{
  ℕ, zero, suc, ◌+◌, ◌/◌, ◌%◌, ◌≤◌, ◌≡◌, ◌≢◌, refl, sym, ◌∙◌, Bool, true, false, ◌&&◌, ◌||◌, List,
  [], ◌∷◌, arith, leb, ◌==◌, any, filter, get_or, Bool-cases, inl, inr,
}
use polite_web_crawler.Common.Text.{Text, Unicode}
use polite_web_crawler.Storage.Dedup.Bits.{diff_bits, byte_differs, diff_bits-byte}
use polite_web_crawler.Storage.Dedup.Hash.{SimHash, calculate_hash}
use polite_web_crawler.Storage.Dedup.Index.{IsIndex, bucket}
use polite_web_crawler.Storage.Dedup.{
  ContentDeduplicator, Band, band_num, extract_band, find_near, is_duplicate_hash, is_duplicate,
}

-- Whether two hashes agree on one of `n` bands from `k` on.
shares : ℕ → ℕ → ℕ → ℕ → Bool
shares zero k h x = false
shares (suc n) k h x = (extract_band x k == extract_band h k) || shares n (suc k) h x

any-filter : (p q : ℕ → Bool) (xs : List ℕ) → any p (filter q xs) ≡ any (λ x. q x && p x) xs
any-filter p q [] = refl
any-filter p q (x ∷ xs) = ground (arith, any-filter p q xs)

any-or : (p q : ℕ → Bool) (xs : List ℕ) → (any p xs || any q xs) ≡ any (λ x. p x || q x) xs
any-or p q [] = refl
any-or p q (x ∷ xs) = ground (arith, any-or p q xs)

any_cong : (p q : ℕ → Bool) (xs : List ℕ) → ((x : ℕ) → p x ≡ q x) → any p xs ≡ any q xs
any_cong p q [] h = refl
any_cong p q (x ∷ xs) h = ground (arith, h x, any_cong p q xs h)

any-false : (p : ℕ → Bool) (xs : List ℕ) → ((x : ℕ) → p x ≡ false) → any p xs ≡ false
any-false p [] h = refl
any-false p (x ∷ xs) h = ground (arith, h x, any-false p xs h)

find_near-suc :
    (near : ℕ → Bool) (n k h : ℕ) (bands : List Band)
    → find_near near (suc n) k h bands ≡ (
        any near (bucket (extract_band h k) (get_or bands k []))
        || find_near near n (suc k) h bands)
unfolding find_near bucket
find_near-suc near n k h bands = ground arith

module _ (near : ℕ → Bool) (h : ℕ) (hs : List ℕ) (bands : List Band) (i : IsIndex hs bands) where
  find_near_lem :
      (n k : ℕ)
      → k + n ≤ band_num
      → find_near near n k h bands ≡ any (λ x. shares n k h x && near x) hs
  unfolding shares
  find_near_lem zero k le = unfold find_near in sym (any-false (λ x. false) hs (λ x. refl))
  find_near_lem (suc n) k le =
      rw
        (
          find_near-suc near n k h bands,
          (i.band_at k (omega arith)).holds (extract_band h k),
          find_near_lem n (suc k) (omega arith),
          any-filter near (λ x. extract_band x k == extract_band h k) hs,
          any-or (λ x. (extract_band x k == extract_band h k) && near x)
              (λ x. shares n (suc k) h x && near x) hs,
        )
        (any_cong _ _ hs (λ x. ground arith))

-- In how many of the lowest 16 bits two words differ, byte by byte.
abbrev window_diff : ℕ → ℕ → ℕ
window_diff a b = diff_bits 8 a b + diff_bits 8 (a / 256) (b / 256)

window_differs : (a b : ℕ) → a % 65536 ≢ b % 65536 → 1 ≤ window_diff a b
window_differs a b h = elim (ℕ_discrete (a % 256) (b % 256)) [
  | yes same ↦ omega (arith, byte_differs (a / 256) (b / 256) (omega arith))
  | no differ ↦ omega (arith, byte_differs a b differ)
]

div-div-byte : (a : ℕ) → a / 65536 ≡ a / 256 / 256
div-div-byte a = omega arith

diff_bits-window :
    (n a b : ℕ)
    → diff_bits (8 + (8 + n)) a b ≡ window_diff a b + diff_bits n (a / 65536) (b / 65536)
diff_bits-window n a b =
    rw (div-div-byte a, div-div-byte b)
      (omega (arith, diff_bits-byte (8 + n) a b, diff_bits-byte n (a / 256) (b / 256)))

differ :
    (h x : ℕ)
    → shares 8 0 h x ≡ false
    → (extract_band x 0 ≢ extract_band h 0)
      × (extract_band x 2 ≢ extract_band h 2)
      × (extract_band x 4 ≢ extract_band h 4)
      × (extract_band x 6 ≢ extract_band h 6)
unfolding shares
differ h x e = ground arith

module _ (h x : ℕ) (none_shared : shares 8 0 h x ≡ false) where
  far : 4 ≤ diff_bits 64 x h
  unfolding extract_band
  far =
      let d = differ h x none_shared in
      omega (
        arith,
        diff_bits-window 48 x h,
        diff_bits-window 32 (x / 65536) (h / 65536),
        diff_bits-window 16 (x / 65536 / 65536) (h / 65536 / 65536),
        diff_bits-window 0 (x / 65536 / 65536 / 65536) (h / 65536 / 65536 / 65536),
        window_differs x h (omega (arith, d.0)),
        window_differs (x / 65536) (h / 65536) (omega (arith, d.1)),
        window_differs (x / 65536 / 65536) (h / 65536 / 65536) (omega (arith, d.2)),
        window_differs (x / 65536 / 65536 / 65536) (h / 65536 / 65536 / 65536) (omega (arith, d.3)),
      )

-- Words that differ in every band differ in at least four bits.
shares_of_near : (h x : ℕ) → diff_bits 64 x h ≤ 3 → shares 8 0 h x ≡ true
shares_of_near h x near = elim (Bool-cases (shares 8 0 h x)) [
  | inl shared ↦ shared
  | inr none_shared ↦ absurd (omega (arith, far h x none_shared))
]

-- The crate's distance is the number of bits in which two words differ.
abbrev pub IsHamming : SimHash → Type 0
IsHamming s = (a b : ℕ) → s.hamming_distance a b ≡ diff_bits 64 a b

module _ (u : Unicode) (s : SimHash) (ham : IsHamming s) where
  shared_iff_near :
      (h x dist : ℕ)
      → dist ≤ 3
      → (shares 8 0 h x && leb (s.hamming_distance x h) dist) ≡ leb (diff_bits 64 x h) dist
  shared_iff_near h x dist le = rw (ham x h) (ground (arith, shares_of_near h x))

  -- The search by bands misses nothing and finds nothing else. Where the crate's distance counts the
  -- differing bits, the distance bound is at most 3, and the bands of the deduplicator index the
  -- hashes `hs`, a text is a duplicate exactly when one of `hs`, whichever buckets it stands in,
  -- differs from the text's hash in at most as many bits as the bound.
  pub is_duplicate_complete :
      (d : ContentDeduplicator) (hs : List ℕ) (text : Text)
      → d.max_dist ≤ 3
      → IsIndex hs d.bands
      → is_duplicate u s d text
        ≡ any (λ x. leb (diff_bits 64 x (calculate_hash u s text)) d.max_dist) hs
  unfolding is_duplicate
  is_duplicate_complete d hs text le i =
      unfold is_duplicate_hash in
      (find_near_lem _ (calculate_hash u s text) hs d.bands i band_num 0 (omega arith)
        ∙ any_cong _ _ hs (λ x. shared_iff_near (calculate_hash u s text) x d.max_dist le))
