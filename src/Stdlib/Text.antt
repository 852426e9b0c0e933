-- ===== src/Stdlib/Text.antt =====
-- Go strings and byte slices as lists of numbers: `strings.TrimSuffix`, `LastIndex`, `ToLower` and
-- `EqualFold`. Names are lists of code points, payloads lists of bytes.
use Prim.Native.Char.{code}
use Prim.Native.String.{String}
use native.Mathlib.Nat.{zero-add, suc-add}
use go_mongo_boilerplate.Base.{
  ◌<◌, ℕ, ◌+◌, ◌≡◌, refl, ◌↔◌, Bool, true, false, ◌&&◌, List, [], ◌∷◌, map, arith, leb, ◌==◌,
  if◌then◌else◌, suc, Option, none, some, ◌≢◌, inl, inr, Bool-cases, ap, length, take, drop,
  length-append, ◌++◌, All,
}

abbrev pub Text : Type 0
Text = List ℕ

-- The code points of a literal: its bytes, if it is ASCII.
abbrev pub codes : String → Text
codes String.[] = []
codes (String.◌∷◌ c s) = code c ∷ codes s

unfoldable pub text_eq : Text → Text → Bool
text_eq [] [] = true
text_eq (x ∷ xs) (y ∷ ys) = x == y && text_eq xs ys
text_eq _ _ = false

pub text_eq_refl : (s : Text) → text_eq s s ≡ true
unfolding text_eq
text_eq_refl [] = refl
text_eq_refl (x ∷ xs) = ground (arith, text_eq_refl xs)

pub text_eq→eq : (s t : Text) → text_eq s t ≡ true → s ≡ t
unfolding text_eq
text_eq→eq [] [] h = refl
text_eq→eq (x ∷ xs) (y ∷ ys) h = ground (arith, text_eq→eq xs ys)
text_eq→eq [] (y ∷ ys) h = cc
text_eq→eq (x ∷ xs) [] h = cc

pub text_eq_iff : (s t : Text) → (text_eq s t ≡ true) ↔ (s ≡ t)
text_eq_iff s t = (text_eq→eq s t, λ e. ground (arith, text_eq_refl s))

abbrev pub is_empty : Text → Bool
is_empty [] = true
is_empty (_ ∷ _) = false

-- `strings.TrimSuffix`.
unfoldable pub trim_suffix : Text → Text → Text
trim_suffix [] suffix = []
trim_suffix (x ∷ xs) suffix = if text_eq (x ∷ xs) suffix then [] else x ∷ trim_suffix xs suffix

-- `unicode.ToLower`, with what lies outside ASCII left alone unless it falls into ASCII: the Kelvin
-- sign and the dotted capital I.
unfoldable pub lower_rune : ℕ → ℕ
lower_rune c =
    if leb b'A' c && leb c b'Z'
    then c + 32
    else if c == 0x212a
    then b'k'
    else if c == 0x130
    then b'i'
    else c

unfoldable pub to_lower : Text → Text
unfolding lower_rune
to_lower = map lower_rune

-- The representative of a code point under Unicode simple folding, so far as it concerns ASCII: the
-- Kelvin sign folds to k and the long s to s.
unfoldable pub fold_rune : ℕ → ℕ
fold_rune c =
    if leb b'A' c && leb c b'Z'
    then c + 32
    else if c == 0x212a
    then b'k'
    else if c == 0x17f
    then b's'
    else c

-- `strings.EqualFold`, for a second argument in ASCII.
unfoldable pub equal_fold : Text → Text → Bool
unfolding fold_rune text_eq
equal_fold s t = text_eq (map fold_rune s) (map fold_rune t)

-- `strings.LastIndex` for a one-byte substring; `none` is the result -1.
unfoldable pub last_index : ℕ → Text → Option ℕ
last_index c [] = none
last_index c (x ∷ xs) = elim (last_index c xs) [
  | some i ↦ some (suc i)
  | none ↦ if x == c then some 0 else none
]

-- No element is the given one.
abbrev pub Lacks : ℕ → Text → Type 0
Lacks c = All (λ x. x ≢ c)

pub last_index-eq-none : (c : ℕ) (s : Text) → Lacks c s → last_index c s ≡ none
unfolding last_index
last_index-eq-none c [] h = refl
last_index-eq-none c (x ∷ xs) h = ground (arith, last_index-eq-none c xs)

-- What stands behind the last separator holds none.
pub last_index-append :
    (c : ℕ) (p s : Text) → Lacks c s → last_index c (p ++ (c ∷ s)) ≡ some (length p)
unfolding last_index
last_index-append c [] s h = rw (last_index-eq-none c s h) (ground arith)
last_index-append c (x ∷ p) s h = rw (last_index-append c p s h)

text_eq-longer : (x : ℕ) (s suffix : Text) → text_eq (x ∷ (s ++ suffix)) suffix ≡ false
text_eq-longer x s suffix = elim (Bool-cases (text_eq (x ∷ (s ++ suffix)) suffix)) [
  | inl same ↦ absurd (
      omega (arith, ap length (text_eq→eq (x ∷ (s ++ suffix)) suffix same), length-append s suffix))
  | inr other ↦ other
]

-- `TrimSuffix` takes off what was put on.
pub trim_suffix-append : (s suffix : Text) → trim_suffix (s ++ suffix) suffix ≡ s
unfolding trim_suffix
trim_suffix-append [] [] = refl
trim_suffix-append [] (x ∷ xs) = rw (text_eq_refl (x ∷ xs))
trim_suffix-append (x ∷ s) suffix = rw (text_eq-longer x s suffix, trim_suffix-append s suffix)

pub take-append-length : (p s : Text) (n : ℕ) → take (length p + n) (p ++ s) ≡ p ++ take n s
take-append-length [] s n = rw zero-add
take-append-length (x ∷ p) s n = rw (suc-add, take-append-length p s n)

pub drop-append-length : (p s : Text) (n : ℕ) → drop (length p + n) (p ++ s) ≡ drop n s
drop-append-length [] s n = rw zero-add
drop-append-length (x ∷ p) s n = rw (suc-add, drop-append-length p s n)

pub equal_fold_refl : (s : Text) → equal_fold s s ≡ true
unfolding equal_fold
equal_fold_refl s = text_eq_refl (map fold_rune s)

-- ASCII that both foldings leave alone, and that nothing outside ASCII folds to.
abbrev pub IsFoldStable : Text → Type 0
IsFoldStable = All (λ c. (fold_rune c ≡ c) × (c < 128) × (c ≢ b'k') × (c ≢ b's'))

lower_rune_of_fold : (c d : ℕ) → d < 128 → d ≢ b'k' → d ≢ b's' → fold_rune c ≡ d → lower_rune c ≡ d
unfolding fold_rune lower_rune
lower_rune_of_fold c d b k s h = ground arith

to_lower-of_map : (k t : Text) → IsFoldStable t → map fold_rune k ≡ map fold_rune t → to_lower k ≡ t
unfolding to_lower
to_lower-of_map [] [] h e = refl
to_lower-of_map (c ∷ k) [] h e = cc
to_lower-of_map [] (d ∷ t) h e = cc
to_lower-of_map (c ∷ k) (d ∷ t) h e =
    cc (lower_rune_of_fold c d h.0.1 h.0.2 h.0.3 (cc h.0.0), to_lower-of_map k t h.1 (cc))

-- A name that equals such a text up to case is lowered to it.
pub to_lower_of_equal_fold : (k t : Text) → IsFoldStable t → equal_fold k t ≡ true → to_lower k ≡ t
unfolding equal_fold
to_lower_of_equal_fold k t h e =
    to_lower-of_map k t h (text_eq→eq (map fold_rune k) (map fold_rune t) e)
