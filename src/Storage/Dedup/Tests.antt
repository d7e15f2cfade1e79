-- ===== src/Storage/Dedup/Tests.antt =====
-- Runs of the deduplicator, and its theorems at concrete inputs.
use polite_web_crawler.Prelude.{
  ℕ, ◌+◌, ◌≡◌, refl, some, true, false, List, [], ◌∷◌, arith, leb, any,
}
use polite_web_crawler.Common.Text.{Text, codes, is_whitespace}
use polite_web_crawler.Common.Text.Utf8.{as_bytes}
use polite_web_crawler.Common.Text.Ascii.{ascii}
use polite_web_crawler.Storage.Dedup.Bits.{diff_bits}
use polite_web_crawler.Storage.Dedup.Hash.{SimHash, cleaned, ngrams, calculate_hash}
use polite_web_crawler.Storage.Dedup.Index.{IsIndex, init-IsIndex, insert-IsIndex}
use polite_web_crawler.Storage.Dedup.Recall.{is_duplicate_complete}
use polite_web_crawler.Storage.Dedup.Repeat.{insert_all, inserted_is_duplicate}
use polite_web_crawler.Storage.Dedup.{
  ContentDeduplicator, push_at, get, extract_band, init, insert, is_duplicate,
}

abbrev sum : List ℕ → ℕ
sum [] = 0
sum (x ∷ xs) = x + sum xs

abbrev sums : List (List ℕ) → ℕ
sums [] = 0
sums (x ∷ xs) = sum x + sums xs

-- A checksum in the place of the crate's hash.
abbrev checksum : SimHash
checksum = record { simhash = sum; simhash_stream = sums; hamming_distance = diff_bits 64 }

-- Hashes that differ from 0x100 in 0, 1 and 4 bits.
abbrev stored : List ℕ
stored = 0x100 ∷ 0x8000000000000100 ∷ 0x0100010001000000 ∷ []

abbrev started : ContentDeduplicator
started = init stored 3

abbrev shouted : Text
shouted = codes "Rust, RUST!"

abbrev plain : Text
plain = codes "rust rust"

overlapping_windows : extract_band 0x12345678 1 ≡ 0x3456
unfolding extract_band
overlapping_windows = refl

buckets_grow : get 7 (push_at 7 1 (push_at 7 2 [])) ≡ some (2 ∷ 1 ∷ [])
unfolding get push_at
buckets_grow = refl

-- Three characters outside the letters: the checksum is that of the text itself, 0x101 and 0xff.
near_found : is_duplicate ascii checksum started (126 ∷ 126 ∷ 5 ∷ []) ≡ true
unfolding is_duplicate init extract_band calculate_hash cleaned ngrams as_bytes is_whitespace
    push_at diff_bits
near_found = refl

far_passed : is_duplicate ascii checksum started (126 ∷ 126 ∷ 3 ∷ []) ≡ false
unfolding is_duplicate init extract_band calculate_hash cleaned ngrams as_bytes is_whitespace
    push_at diff_bits
far_passed = refl

init-IsIndex_example : IsIndex stored started.bands
init-IsIndex_example = init-IsIndex stored 3

insert-IsIndex_example :
    (insert ascii checksum started plain).1 ≡ calculate_hash ascii checksum plain
insert-IsIndex_example =
    (insert-IsIndex ascii checksum started stored plain (init-IsIndex stored 3)).1

is_duplicate_complete_example :
    is_duplicate ascii checksum started plain
    ≡ any (λ x. leb (diff_bits 64 x (calculate_hash ascii checksum plain)) started.max_dist) stored
is_duplicate_complete_example =
    is_duplicate_complete ascii checksum (λ a b. refl) started stored plain
      (unfold init in omega arith) (init-IsIndex stored 3)

same_cleaned : cleaned ascii shouted ≡ cleaned ascii plain
unfolding cleaned is_whitespace
same_cleaned = refl

inserted_is_duplicate_example :
    is_duplicate ascii checksum
      (insert_all ascii checksum (insert ascii checksum started shouted).0 (plain ∷ []))
      plain
    ≡ true
unfolding cleaned is_whitespace as_bytes
inserted_is_duplicate_example =
    inserted_is_duplicate ascii checksum started stored shouted plain (plain ∷ []) (λ a b. refl)
      (unfold init in omega arith) (init-IsIndex stored 3) same_cleaned (omega arith)
