-- ===== src/Storage/Db/Casts.antt =====
-- The casts between `u64` and `i64` by which a hash is stored (db.rs, `h as i64` and `h as u64`).
use polite_web_crawler.Prelude.{ℕ, ◌-◌, ◌^◌, ◌<◌, ◌≡◌, arith, ltb, if◌then◌else◌}

-- `negsuc n` is -(n + 1).
pub data ℤ : Type 0 where
  pos : ℕ → ℤ
  negsuc : ℕ → ℤ

-- `h as i64` of a `u64`
unfoldable pub as_i64 : ℕ → ℤ
as_i64 h = if ltb h (2 ^ 63) then pos h else negsuc (2 ^ 64 - 1 - h)

-- `h as u64` of an `i64`
unfoldable pub as_u64 : ℤ → ℕ
as_u64 (pos n) = n
as_u64 (negsuc n) = 2 ^ 64 - 1 - n

-- A hash comes back from the column as it was.
pub as_u64-as_i64 : (h : ℕ) → h < 2 ^ 64 → as_u64 (as_i64 h) ≡ h
unfolding as_u64 as_i64
as_u64-as_i64 h lt = ground arith
