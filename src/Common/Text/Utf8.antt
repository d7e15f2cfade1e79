-- ===== src/Common/Text/Utf8.antt =====
-- UTF-8: the bytes of a text (`str::as_bytes`), and whether bytes are a text (`str::from_utf8`).
use polite_web_crawler.Prelude.{
  ℕ, zero, suc, ◌+◌, ◌/◌, ◌%◌, ◌<◌, ◌≡◌, refl, Bool, true, false, ◌&&◌, Option, none, some, List,
  [], ◌∷◌, ◌++◌, All, arith, ltb, leb, ◌==◌, if◌then◌else◌,
}

-- The bytes of one code point.
encode_char : ℕ → List ℕ
encode_char c =
    if ltb c 0x80
    then c ∷ []
    else if ltb c 0x800
    then (0xc0 + c / 64) ∷ (0x80 + c % 64) ∷ []
    else if ltb c 0x10000
    then (0xe0 + c / 4096) ∷ (0x80 + c / 64 % 64) ∷ (0x80 + c % 64) ∷ []
    else (0xf0 + c / 262144) ∷ (0x80 + c / 4096 % 64) ∷ (0x80 + c / 64 % 64) ∷ (0x80 + c % 64) ∷ []

unfoldable pub as_bytes : List ℕ → List ℕ
unfolding encode_char
as_bytes [] = []
as_bytes (c ∷ cs) = encode_char c ++ as_bytes cs

-- What must follow a leading byte: how many bytes, and the range of the first of them.
lead : ℕ → Option (ℕ × ℕ × ℕ)
lead b =
    if ltb b 0x80
    then some (0, 0x80, 0xbf)
    else if ltb b 0xc2
    then none
    else if ltb b 0xe0
    then some (1, 0x80, 0xbf)
    else if b == 0xe0
    then some (2, 0xa0, 0xbf)
    else if b == 0xed
    then some (2, 0x80, 0x9f)
    else if ltb b 0xf0
    then some (2, 0x80, 0xbf)
    else if b == 0xf0
    then some (3, 0x90, 0xbf)
    else if ltb b 0xf4
    then some (3, 0x80, 0xbf)
    else if b == 0xf4
    then some (3, 0x80, 0x8f)
    else none

-- The rest of a text, where `n` bytes of a character are due, the next of them in a range.
valid_from : ℕ → ℕ → ℕ → List ℕ → Bool
unfolding lead
valid_from zero lo hi [] = true
valid_from (suc n) lo hi [] = false
valid_from zero lo hi (b ∷ bs) = elim (lead b) [
  | none ↦ false
  | some (n, lo', hi') ↦ valid_from n lo' hi' bs
]
valid_from (suc n) lo hi (b ∷ bs) = (leb lo b && leb b hi) && valid_from n 0x80 0xbf bs

unfoldable pub valid_utf8 : List ℕ → Bool
unfolding valid_from
valid_utf8 bs = valid_from 0 0x80 0xbf bs

pub ascii-valid_utf8 : (bs : List ℕ) → All (λ b. b < 0x80) bs → valid_utf8 bs ≡ true
unfolding valid_utf8
ascii-valid_utf8 [] h = refl
ascii-valid_utf8 (b ∷ bs) h = ground (arith, ascii-valid_utf8 bs h.1)
