-- ===== src/Storage/Dedup.antt =====
-- crates/storage_service/src/storage/content_deduplicator.rs: the index of content hashes by bands.
-- A hash is a number below 2 ^ 64; a band is a window of 16 of its bits, and the windows overlap.
-- The crate `simhash` is a parameter. The lock around the bands is held for a whole operation.
pub mod Bits
pub mod Hash
pub mod Index
pub mod Recall
pub mod Repeat
mod Tests
use polite_web_crawler.Prelude.{
  ℕ, zero, suc, ◌*◌, ◌/◌, ◌%◌, ◌^◌, Bool, true, false, Option, none, some, List, [], ◌∷◌, ◌++◌, leb,
  ◌==◌, if◌then◌else◌, any, get_or, set, replicate, length, max,
}
use polite_web_crawler.Common.Text.{Text, Unicode}
use Hash.{SimHash, calculate_hash}

abbrev pub band_num : ℕ
band_num = 8

abbrev pub band_bits : ℕ
band_bits = 8

-- `HashMap<u16, Vec<u64>>`
abbrev pub Band : Type 0
Band = List (ℕ × List ℕ)

pub record ContentDeduplicator : Type 0 where
  pub bands : List Band
  pub max_dist : ℕ

-- `map.entry(value).or_default().push(hash)`
unfoldable pub push_at : ℕ → ℕ → Band → Band
push_at value hash [] = (value, hash ∷ []) ∷ []
push_at value hash ((v, hs) ∷ m) =
    if v == value then (v, hs ++ hash ∷ []) ∷ m else (v, hs) ∷ push_at value hash m

-- `map.get(&value)`
unfoldable pub get : ℕ → Band → Option (List ℕ)
get value [] = none
get value ((v, hs) ∷ m) = if v == value then some hs else get value m

-- `(hash >> (band_id * BAND_BITS)) as u16`
unfoldable pub extract_band : ℕ → ℕ → ℕ
extract_band hash band_id = hash / 2 ^ (band_id * band_bits) % 2 ^ 16

-- The loop over the bands that stores a hash: the rounds left, and the band of this round.
unfoldable pub push_bands : ℕ → ℕ → ℕ → List Band → List Band
push_bands zero band_id hash bands = bands
push_bands (suc n) band_id hash bands =
    push_bands n (suc band_id) hash
      (set bands band_id (push_at (extract_band hash band_id) hash (get_or bands band_id [])))

-- The loop over the stored hashes in `init`.
unfoldable pub push_all : List ℕ → List Band → List Band
push_all [] bands = bands
push_all (h ∷ hs) bands = push_all hs (push_bands band_num 0 h bands)

unfoldable pub init : List ℕ → ℕ → ContentDeduplicator
unfolding push_all push_bands
init hashes dist = record { bands = push_all hashes (replicate band_num []); max_dist = dist }

-- The loop over the bands in `is_duplicate`, for the test on a candidate.
unfoldable pub find_near : (ℕ → Bool) → ℕ → ℕ → ℕ → List Band → Bool
unfolding extract_band get
find_near near zero band_id hash bands = false
find_near near (suc n) band_id hash bands =
    let rest = find_near near n (suc band_id) hash bands in
    elim (get (extract_band hash band_id) (get_or bands band_id [])) [
      | none ↦ rest
      | some candidates ↦ if any near candidates then true else rest
    ]

-- The largest bucket of a band, and of all bands, where there is none 0.
largest_bucket : Band → ℕ
largest_bucket [] = 0
largest_bucket ((v, hs) ∷ m) = max (length hs) (largest_bucket m)

unfoldable pub max_bucket : List Band → ℕ
unfolding largest_bucket
max_bucket [] = 0
max_bucket (b ∷ bs) = max (largest_bucket b) (max_bucket bs)

unfoldable pub debug_max_bucket_size : ContentDeduplicator → ℕ
unfolding max_bucket
debug_max_bucket_size d = max_bucket d.bands

module _ (u : Unicode) (s : SimHash) where
  open s use {hamming_distance}

  unfoldable pub is_duplicate_hash : ContentDeduplicator → ℕ → Bool
  unfolding find_near
  is_duplicate_hash d text_hash =
      find_near (λ h. leb (hamming_distance h text_hash) d.max_dist) band_num 0 text_hash d.bands

  unfoldable pub is_duplicate : ContentDeduplicator → Text → Bool
  unfolding is_duplicate_hash
  is_duplicate d text = is_duplicate_hash d (calculate_hash u s text)

  unfoldable pub insert : ContentDeduplicator → Text → ContentDeduplicator × ℕ
  unfolding push_bands
  insert d text =
      let new_hash = calculate_hash u s text in
      (record d { bands = push_bands band_num 0 new_hash d.bands }, new_hash)
