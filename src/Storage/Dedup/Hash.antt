-- ===== src/Storage/Dedup/Hash.antt =====
-- content_deduplicator.rs, `calculate_hash`: which bytes of a text its hash rests on.
use polite_web_crawler.Prelude.{ℕ, ◌||◌, List, [], ◌∷◌, length, filter, ltb, if◌then◌else◌}
use polite_web_crawler.Common.Text.{Text, Unicode, is_whitespace}
use polite_web_crawler.Common.Text.Utf8.{as_bytes, valid_utf8}

-- The crate `simhash`, on the UTF-8 bytes of the texts that it takes.
pub record SimHash : Type 0 where
  pub simhash : List ℕ → ℕ
  pub simhash_stream : List (List ℕ) → ℕ
  pub hamming_distance : ℕ → ℕ → ℕ

-- `bytes.windows(4)`
unfoldable pub windows : List ℕ → List (List ℕ)
windows (a ∷ b ∷ c ∷ d ∷ rest) = (a ∷ b ∷ c ∷ d ∷ []) ∷ windows (b ∷ c ∷ d ∷ rest)
windows _ = []

module _ (u : Unicode) where
  unfoldable pub cleaned : Text → Text
  cleaned text = u.to_lowercase (filter (λ c. is_whitespace c || u.is_alphanumeric c) text)

  unfoldable pub ngrams : List ℕ → List (List ℕ)
  unfolding windows
  ngrams bytes = filter valid_utf8 (windows bytes)

  unfoldable pub calculate_hash : SimHash → Text → ℕ
  calculate_hash s text =
      let bytes = as_bytes (cleaned text) in
      if ltb (length bytes) 4 then s.simhash (as_bytes text) else s.simhash_stream (ngrams bytes)
