-- ===== src/Storage/Dedup/Bits.antt =====
-- Words as sequences of bits: the Hamming distance by definition, and its parts by bytes.
use Prim.Native.Nat.add
use polite_web_crawler.Prelude.{ℕ, zero, suc, ◌+◌, ◌*◌, ◌-◌, ◌/◌, ◌%◌, ◌≤◌, ◌≡◌, ◌≢◌, refl, arith}

-- 1 if the lowest bits of two words differ.
bit_diff : ℕ → ℕ → ℕ
bit_diff a b = (a % 2 - b % 2) + (b % 2 - a % 2)

-- In how many of the lowest `n` bits two words differ.
unfoldable pub diff_bits : ℕ → ℕ → ℕ → ℕ
unfolding bit_diff
diff_bits zero a b = 0
diff_bits (suc n) a b = bit_diff a b + diff_bits n (a / 2) (b / 2)

-- The lowest `n` bits, digit by digit.
low : ℕ → ℕ → ℕ
low zero a = 0
low (suc n) a = a % 2 + 2 * low n (a / 2)

-- Without the lowest `n` bits.
shift : ℕ → ℕ → ℕ
shift zero a = a
shift (suc n) a = shift n (a / 2)

low_of_diff_bits : (n a b : ℕ) → diff_bits n a b ≡ 0 → low n a ≡ low n b
unfolding diff_bits low
low_of_diff_bits zero a b h = refl
low_of_diff_bits (suc n) a b h = omega (arith, low_of_diff_bits n (a / 2) (b / 2) (omega arith))

low-eight : (a : ℕ) → low 8 a ≡ a % 256
unfolding low
low-eight a = omega arith

shift-eight : (a : ℕ) → shift 8 a ≡ a / 256
unfolding shift
shift-eight a = omega arith

pub byte_differs : (a b : ℕ) → a % 256 ≢ b % 256 → 1 ≤ diff_bits 8 a b
byte_differs a b h = omega (arith, λ (e : diff_bits 8 a b ≡ 0). h (bytes_agree e))
  where
    bytes_agree : diff_bits 8 a b ≡ 0 → a % 256 ≡ b % 256
    bytes_agree e = omega (arith, low-eight a, low-eight b, low_of_diff_bits 8 a b e)

diff_bits-add :
    (n m a b : ℕ) → diff_bits (n + m) a b ≡ diff_bits n a b + diff_bits m (shift n a) (shift n b)
unfolding diff_bits shift
diff_bits-add zero m a b = rw (add.zero m) (omega arith)
diff_bits-add (suc n) m a b = rw (add.suc n m) (omega (arith, diff_bits-add n m (a / 2) (b / 2)))

pub diff_bits-byte :
    (n a b : ℕ) → diff_bits (8 + n) a b ≡ diff_bits 8 a b + diff_bits n (a / 256) (b / 256)
diff_bits-byte n a b = rw (← shift-eight a, ← shift-eight b) (diff_bits-add 8 n a b)
