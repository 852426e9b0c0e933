-- ===== src/Stdlib/Search.antt =====
-- Searching in strings, and their lines: `bytes.Contains`, `strings.HasPrefix`, `strings.TrimSpace` and
-- `bufio.ScanLines`.
use go_mongo_boilerplate.Base.{
  ℕ, Bool, true, false, ◌&&◌, ◌||◌, [], ◌∷◌, List, Option, none, some, leb, ◌==◌, map,
  if◌then◌else◌,
}
use go_mongo_boilerplate.Stdlib.Text.{Text, trim_suffix}

unfoldable pub has_prefix : Text → Text → Bool
has_prefix s [] = true
has_prefix [] (y ∷ ys) = false
has_prefix (x ∷ xs) (y ∷ ys) = x == y && has_prefix xs ys

unfoldable pub contains : Text → Text → Bool
unfolding has_prefix
contains [] t = has_prefix [] t
contains (x ∷ xs) t = has_prefix (x ∷ xs) t || contains xs t

-- `unicode.IsSpace`.
unfoldable pub is_space : ℕ → Bool
is_space c =
    leb 9 c && leb c 13
    || c == 32
    || c == 0x85
    || c == 0xa0
    || c == 0x1680
    || leb 0x2000 c && leb c 0x200a
    || c == 0x2028
    || c == 0x2029
    || c == 0x202f
    || c == 0x205f
    || c == 0x3000

-- Whether `strings.TrimSpace` leaves nothing.
unfoldable pub is_blank : Text → Bool
unfolding is_space
is_blank [] = true
is_blank (c ∷ s) = is_space c && is_blank s

abbrev pub last? : Text → Option ℕ
last? [] = none
last? (x ∷ []) = some x
last? (x ∷ y ∷ s) = last? (y ∷ s)

abbrev pub drop_last : Text → Text
drop_last [] = []
drop_last (x ∷ []) = []
drop_last (x ∷ y ∷ s) = x ∷ drop_last (y ∷ s)

unfoldable pub push_char : ℕ → List Text → List Text
push_char c [] = (c ∷ []) ∷ []
push_char c (l ∷ ls) = (c ∷ l) ∷ ls

unfoldable pub raw_lines : Text → List Text
unfolding push_char
raw_lines [] = []
raw_lines (c ∷ s) = let rest = raw_lines s in if c == 10 then [] ∷ rest else push_char c rest

-- The lines of a scanner, each without a carriage return at its end.
unfoldable pub scan_lines : Text → List Text
unfolding raw_lines
scan_lines s = map (λ l. trim_suffix l (13 ∷ [])) (raw_lines s)
