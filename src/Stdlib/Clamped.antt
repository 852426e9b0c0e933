-- ===== src/Stdlib/Clamped.antt =====
-- The number that `strconv.Atoi` returns beside its error: zero for a syntax error, the nearest
-- int64 for a number out of range.
use go_mongo_boilerplate.Base.{
  ℕ, zero, suc, ◌+◌, ◌-◌, ◌*◌, ◌^◌, ◌&&◌, [], ◌∷◌, Option, none, some, ltb, leb, ◌==◌,
  if◌then◌else◌,
}
use go_mongo_boilerplate.Base.Int.{ℤ, pos, negsuc}
use go_mongo_boilerplate.Stdlib.Text.{Text}

-- The uint64 read so far; a number beyond them ends the scan at the largest one.
scan_digits : ℕ → Text → Option ℕ
scan_digits acc [] = some acc
scan_digits acc (c ∷ cs) =
    let next = scan_digits (acc * 10 + (c - b'0')) cs in
    if leb b'0' c && leb c b'9'
    then (if ltb (acc * 10 + (c - b'0')) (2 ^ 64) then next else some (2 ^ 64 - 1))
    else none

scan_unsigned : Text → Option ℕ
unfolding scan_digits
scan_unsigned [] = none
scan_unsigned (c ∷ cs) = scan_digits 0 (c ∷ cs)

clamped : Option ℕ → ℤ
clamped none = pos 0
clamped (some n) = if ltb n (2 ^ 63) then pos n else pos (2 ^ 63 - 1)

clamped_negated : Option ℕ → ℤ
clamped_negated none = pos 0
clamped_negated (some zero) = pos 0
clamped_negated (some (suc n)) = if ltb n (2 ^ 63) then negsuc n else negsuc (2 ^ 63 - 1)

unfoldable pub atoi_value : Text → ℤ
unfolding scan_unsigned clamped clamped_negated
atoi_value [] = pos 0
atoi_value (c ∷ cs) =
    if c == b'-'
    then clamped_negated (scan_unsigned cs)
    else if c == b'+'
    then clamped (scan_unsigned cs)
    else clamped (scan_unsigned (c ∷ cs))
