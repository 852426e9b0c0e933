-- ===== src/Base/Int.antt =====
-- Signed integers over the native numbers, and the wrap-around of Go's 64-bit `int`.
use go_mongo_boilerplate.Base.{
  ℕ, suc, ◌+◌, ◌-◌, ◌*◌, ◌%◌, ◌^◌, ◌≤◌, ◌<◌, ◌≡◌, Bool, arith, ltb, leb, if◌then◌else◌,
}

-- `negsuc n` is -(n + 1).
pub data ℤ : Type 0 where
  pos : ℕ → ℤ
  negsuc : ℕ → ℤ

abbrev pub pos_part : ℤ → ℕ
pos_part (pos n) = n
pos_part (negsuc n) = 0

abbrev pub neg_part : ℤ → ℕ
neg_part (pos n) = 0
neg_part (negsuc n) = suc n

-- a - b, as an integer.
abbrev pub sub_ℕ : ℕ → ℕ → ℤ
sub_ℕ a b = if leb b a then pos (a - b) else negsuc (b - a - 1)

infix 50 ◌≤ℤ◌ ◌<ℤ◌
abbrev pub ◌≤ℤ◌ : ℤ → ℤ → Type 0
a ≤ℤ b = pos_part a + neg_part b ≤ pos_part b + neg_part a

abbrev pub ◌<ℤ◌ : ℤ → ℤ → Type 0
a <ℤ b = pos_part a + neg_part b < pos_part b + neg_part a

abbrev pub ltb_ℤ : ℤ → ℤ → Bool
ltb_ℤ a b = ltb (pos_part a + neg_part b) (pos_part b + neg_part a)

abbrev pub leb_ℤ : ℤ → ℤ → Bool
leb_ℤ a b = leb (pos_part a + neg_part b) (pos_part b + neg_part a)

-- The values of Go's `int`, `int64` and `time.Duration`.
abbrev pub IsInt64 : ℤ → Type 0
IsInt64 a = (pos_part a < 2 ^ 63) × (neg_part a ≤ 2 ^ 63)

-- The signed reading of a bit pattern below 2 ^ 64.
abbrev pub signed64 : ℕ → ℤ
signed64 r = if ltb r (2 ^ 63) then pos r else negsuc (2 ^ 64 - 1 - r)

-- The int64 that an integer is stored as.
abbrev pub wrap64 : ℤ → ℤ
wrap64 (pos n) = signed64 (n % 2 ^ 64)
wrap64 (negsuc n) = signed64 (2 ^ 64 - 1 - n % 2 ^ 64)

-- a + n and a * n in int64 arithmetic, for a factor n that is not negative.
unfoldable pub add64 : ℤ → ℕ → ℤ
add64 (pos a) n = wrap64 (pos (a + n))
add64 (negsuc a) n = wrap64 (sub_ℕ n (suc a))

unfoldable pub mul64 : ℤ → ℕ → ℤ
mul64 (pos a) n = wrap64 (pos (a * n))
mul64 (negsuc a) n = wrap64 (sub_ℕ 0 (suc a * n))

-- Without an overflow the product is exact.
pub mul64_exact : (a n : ℕ) → a * n < 2 ^ 63 → mul64 (pos a) n ≡ pos (a * n)
unfolding mul64
mul64_exact a n h = ground arith

pub add64_exact : (a n : ℕ) → a + n < 2 ^ 63 → add64 (pos a) n ≡ pos (a + n)
unfolding add64
add64_exact a n h = ground arith

pub wrap64-IsInt64 : (a : ℤ) → IsInt64 (wrap64 a)
wrap64-IsInt64 (pos n) = ground arith
wrap64-IsInt64 (negsuc n) = ground arith
