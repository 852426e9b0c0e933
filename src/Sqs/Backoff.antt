-- ===== src/Sqs/Backoff.antt =====
-- internal/platform/sqs/backoff.go. A `time.Duration` is a number of nanoseconds, an int64.
use Prim.Native.Nat.{min}
use native.Mathlib.Nat.{pow-le-pow_right, one-le-pow}
use go_mongo_boilerplate.Base.{ℕ, ◌*◌, ◌^◌, ◌≤◌, ◌<◌, ◌≡◌, ◌||◌, arith, ltb, if◌then◌else◌}
use go_mongo_boilerplate.Base.Int.{ℤ, pos, negsuc, ltb_ℤ, leb_ℤ, ◌≤ℤ◌, ◌<ℤ◌, mul64, mul64_exact}

abbrev pub second : ℕ
second = 1000000000

-- `SQSMaxDelay`, 900 seconds.
abbrev pub sqs_max_delay : ℤ
sqs_max_delay = pos (900 * second)

-- The shift amount: `n` held to [0, 16].
unfoldable pub shift_amount : ℤ → ℕ
shift_amount (negsuc _) = 0
shift_amount (pos n) = if ltb 16 n then 16 else n

-- The last two tests: the product, unless it is not positive or above the maximum.
unfoldable pub capped : ℤ → ℤ → ℤ
capped d max = if leb_ℤ d (pos 0) || ltb_ℤ max d then max else d

unfoldable pub backoff_delay : ℤ → ℤ → ℤ → ℤ
unfolding shift_amount
backoff_delay base max n =
    let max' = if ltb_ℤ sqs_max_delay max then sqs_max_delay else max in
    let d = mul64 base (2 ^ shift_amount n) in capped d max'

pub capped_bounds : (d max : ℤ) → pos 0 <ℤ max → (pos 0 <ℤ capped d max) × (capped d max ≤ℤ max)
unfolding capped
capped_bounds d max h = ground arith

-- Whatever the base, the overflow of the product and the count: a delay is positive, and within both
-- the configured maximum and the limit of SQS, provided that the configured maximum is positive.
pub backoff_delay_bounds :
    (base max n : ℤ)
    → pos 0 <ℤ max
    → (pos 0 <ℤ backoff_delay base max n)
      × (backoff_delay base max n ≤ℤ max)
      × (backoff_delay base max n ≤ℤ sqs_max_delay)
unfolding backoff_delay
backoff_delay_bounds base max n h =
    let d = mul64 base (2 ^ shift_amount n) in
    ground (arith, capped_bounds d max, capped_bounds d sqs_max_delay)

pow-shift-le : (s : ℕ) → s ≤ 16 → 2 ^ s ≤ 65536
pow-shift-le s h = pow-le-pow_right {n = 2} (omega arith) h

product-lt : (base s : ℕ) → base < 2 ^ 47 → s ≤ 16 → base * 2 ^ s < 2 ^ 63
product-lt base s k h = grind (arith, pow-shift-le s h)

product_pos : (base s : ℕ) → 0 < base → 0 < base * 2 ^ s
product_pos base s h = grind (arith, one-le-pow s 2 (omega arith))

shift_amount-eq-min : (n : ℕ) → shift_amount (pos n) ≡ min n 16
unfolding shift_amount
shift_amount-eq-min n = ground arith

capped-eq-min :
    (d max : ℕ)
    → 0 < d
    → capped (pos d) (if ltb_ℤ sqs_max_delay (pos max) then sqs_max_delay else pos max)
      ≡ pos (min d (min max (900 * second)))
unfolding capped
capped-eq-min d max h = ground arith

-- For a positive base below 39 hours the product does not overflow: the delay is the base doubled `n` times,
-- at most 16, and cut at the smaller of the maximum and 900 seconds.
pub backoff_delay-eq-min :
    (base max n : ℕ)
    → 0 < base
    → base < 2 ^ 47
    → backoff_delay (pos base) (pos max) (pos n)
      ≡ pos (min (base * 2 ^ min n 16) (min max (900 * second)))
unfolding backoff_delay
backoff_delay-eq-min base max n h k =
    let s = min n 16 in
    rw (shift_amount-eq-min n, mul64_exact base (2 ^ s) (product-lt base s k (omega arith)))
      (capped-eq-min (base * 2 ^ s) max (product_pos base s h))

min_mono : (n m : ℕ) → n ≤ m → min n 16 ≤ min m 16
min_mono n m h = omega arith

-- For a positive base below 39 hours, more retries never wait less.
pub backoff_delay_mono :
    (base max n m : ℕ)
    → 0 < base
    → base < 2 ^ 47
    → n ≤ m
    → backoff_delay (pos base) (pos max) (pos n) ≤ℤ backoff_delay (pos base) (pos max) (pos m)
backoff_delay_mono base max n m h k le =
    rw (backoff_delay-eq-min base max n h k, backoff_delay-eq-min base max m h k)
      (grind (arith, pow-le-pow_right {n = 2} (omega arith) (min_mono n m le)))
