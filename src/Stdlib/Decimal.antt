-- ===== src/Stdlib/Decimal.antt =====
-- `strconv.Itoa` and `strconv.Atoi` on Go's 64-bit `int`.
use native.Mathlib.Nat.{pow-suc}
use mathlib.Core.Path.{subst}
use go_mongo_boilerplate.Base.{
  ℕ, zero, suc, ◌+◌, ◌-◌, ◌*◌, ◌/◌, ◌%◌, ◌^◌, ◌≤◌, ◌<◌, ◌≡◌, ◌∙◌, ◌&&◌, [], ◌∷◌, Option, none, some,
  inl, inr, arith, ◌≢◌, ltb, leb, ◌==◌, if◌then◌else◌, Bool-cases, some_inj, lt→ltb, ltb→lt,
}
use go_mongo_boilerplate.Base.Int.{ℤ, pos, negsuc, IsInt64}
use go_mongo_boilerplate.Stdlib.Text.{Text}

-- The digits of a number before `acc`, last digit first; a round for each digit.
digits_from : ℕ → ℕ → Text → Text
digits_from zero n acc = acc
digits_from (suc f) n acc =
    let rest = digits_from f (n / 10) ((b'0' + n % 10) ∷ acc) in
    if ltb n 10 then (b'0' + n) ∷ acc else rest

-- Twenty rounds are enough for every int64, which has at most nineteen digits.
unfoldable pub itoa : ℤ → Text
unfolding digits_from
itoa (pos n) = digits_from 20 n []
itoa (negsuc n) = b'-' ∷ digits_from 20 (suc n) []

parse_digits : ℕ → Text → Option ℕ
parse_digits acc [] = some acc
parse_digits acc (c ∷ cs) =
    if leb b'0' c && leb c b'9' then parse_digits (acc * 10 + (c - b'0')) cs else none

unsigned : Text → Option ℕ
unsigned [] = none
unsigned (c ∷ cs) = parse_digits 0 (c ∷ cs)

-- A value out of range is an error.
in_range : Option ℕ → Option ℤ
in_range none = none
in_range (some n) = if ltb n (2 ^ 63) then some (pos n) else none

in_range_negated : Option ℕ → Option ℤ
in_range_negated none = none
in_range_negated (some zero) = some (pos 0)
in_range_negated (some (suc n)) = if ltb n (2 ^ 63) then some (negsuc n) else none

unfoldable pub atoi : Text → Option ℤ
unfolding parse_digits unsigned in_range in_range_negated
atoi [] = none
atoi (c ∷ cs) =
    if c == b'-'
    then in_range_negated (unsigned cs)
    else if c == b'+'
    then in_range (unsigned cs)
    else in_range (unsigned (c ∷ cs))

abbrev StartsWithDigit : Text → Type 0
StartsWithDigit [] = ⊥
StartsWithDigit (c ∷ _) = (b'0' ≤ c) × (c ≤ b'9')

StartsWithDigit-ne-nil : (s : Text) → StartsWithDigit s → s ≢ []
StartsWithDigit-ne-nil [] d e = d
StartsWithDigit-ne-nil (c ∷ cs) d e = cc

digits_from-StartsWithDigit :
    (f n : ℕ) (acc : Text) → StartsWithDigit acc → StartsWithDigit (digits_from f n acc)
unfolding digits_from
digits_from-StartsWithDigit zero n acc h = h
digits_from-StartsWithDigit (suc f) n acc h = elim (Bool-cases (ltb n 10)) [
  | inl small ↦ rw small (ground arith, ground arith)
  | inr large ↦
      rw large (digits_from-StartsWithDigit f (n / 10) ((b'0' + n % 10) ∷ acc) (omega arith))
]

itoa-StartsWithDigit : (n : ℕ) → StartsWithDigit (digits_from 20 n [])
unfolding digits_from
itoa-StartsWithDigit n = elim (Bool-cases (ltb n 10)) [
  | inl small ↦ rw small (ground arith, ground arith)
  | inr large ↦
      rw large (digits_from-StartsWithDigit 19 (n / 10) ((b'0' + n % 10) ∷ []) (omega arith))
]

parse-one :
    (n : ℕ) (rest : Text) → n < 10 → parse_digits 0 ((b'0' + n) ∷ rest) ≡ parse_digits n rest
unfolding parse_digits
parse-one n rest h = ground arith

parse-step :
    (n : ℕ) (rest : Text) → parse_digits (n / 10) ((b'0' + n % 10) ∷ rest) ≡ parse_digits n rest
unfolding parse_digits
parse-step n rest = ground arith

-- Reading the digits of `n` brings the reader to `n`, whatever follows.
parse-digits :
    (f n : ℕ) (rest : Text)
    → n < 10 ^ suc f
    → parse_digits 0 (digits_from (suc f) n rest) ≡ parse_digits n rest
unfolding digits_from
parse-digits zero n rest h = rw (lt→ltb n 10 (omega arith)) (parse-one n rest (omega arith))
parse-digits (suc f) n rest h = elim (Bool-cases (ltb n 10)) [
  | inl small ↦ rw small (parse-one n rest (ltb→lt n 10 small))
  | inr large ↦ rw large (
      parse-digits f (n / 10) ((b'0' + n % 10) ∷ rest) (omega (arith, pow-suc 10 (suc f)))
      ∙ parse-step n rest)
]

atoi-unsigned :
    (s : Text) (n : ℕ)
    → StartsWithDigit s
    → n < 2 ^ 63
    → parse_digits 0 s ≡ some n
    → atoi s ≡ some (pos n)
unfolding atoi
atoi-unsigned [] n d h e = absurd d
atoi-unsigned (c ∷ cs) n d h e = ground arith

-- Every non-negative int64 is read back from its decimal text.
pub atoi-itoa : (n : ℕ) → n < 2 ^ 63 → atoi (itoa (pos n)) ≡ some (pos n)
unfolding itoa parse_digits
atoi-itoa n h =
    atoi-unsigned (digits_from 20 n []) n (itoa-StartsWithDigit n) h
      (parse-digits 19 n [] (omega arith))

pub itoa-ne-nil : (n : ℕ) → itoa (pos n) ≢ []
unfolding itoa
itoa-ne-nil n e = StartsWithDigit-ne-nil (digits_from 20 n []) (itoa-StartsWithDigit n) e

in_range-IsInt64 : (o : Option ℕ) {z : ℤ} → in_range o ≡ some z → IsInt64 z
unfolding in_range
in_range-IsInt64 none h = absurd (cc h)
in_range-IsInt64 (some n) h = elim (Bool-cases (ltb n (2 ^ 63))) [
  | inl small ↦ subst IsInt64 (some_inj (rw small at h)) (ltb→lt n (2 ^ 63) small, omega arith)
  | inr large ↦ absurd (cc (rw large at h))
]

in_range_negated-IsInt64 : (o : Option ℕ) {z : ℤ} → in_range_negated o ≡ some z → IsInt64 z
unfolding in_range_negated
in_range_negated-IsInt64 none h = absurd (cc h)
in_range_negated-IsInt64 (some zero) h = subst IsInt64 (some_inj h) (omega arith)
in_range_negated-IsInt64 (some (suc n)) h = elim (Bool-cases (ltb n (2 ^ 63))) [
  | inl small ↦ subst IsInt64 (some_inj (rw small at h)) (omega arith, ltb→lt n (2 ^ 63) small)
  | inr large ↦ absurd (cc (rw large at h))
]

-- A parsed number is within the range of an int64.
pub atoi-IsInt64 : (s : Text) {z : ℤ} → atoi s ≡ some z → IsInt64 z
unfolding atoi
atoi-IsInt64 [] h = absurd (cc h)
atoi-IsInt64 (c ∷ cs) h = elim (Bool-cases (c == b'-')) [
  | inl minus ↦ in_range_negated-IsInt64 (unsigned cs) (rw minus at h)
  | inr other ↦ elim (Bool-cases (c == b'+')) [
    | inl plus ↦ in_range-IsInt64 (unsigned cs) (rw (other, plus) at h)
    | inr digits ↦ in_range-IsInt64 (unsigned (c ∷ cs)) (rw (other, digits) at h)
  ]
]
