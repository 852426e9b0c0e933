-- ===== src/Stdlib/Base64.antt =====
-- `base64.RawURLEncoding` of encoding/base64: four characters for three bytes, no padding, the
-- alphabet of URLs. The decoder skips line breaks and does not look at the bits left over.
use go_mongo_boilerplate.Base.{
  ℕ, ◌+◌, ◌-◌, ◌*◌, ◌/◌, ◌%◌, ◌<◌, ◌≡◌, refl, ◌∙◌, ap, Bool, true, false, ◌||◌, ◌&&◌, List, [], ◌∷◌,
  ◌++◌, Option, none, some, map, All, ltb, leb, ◌==◌, if◌then◌else◌, arith,
}
use go_mongo_boilerplate.Stdlib.Text.{Text}

unfoldable pub sextet_char : ℕ → ℕ
sextet_char n =
    if ltb n 26
    then b'A' + n
    else if ltb n 52
    then b'a' + (n - 26)
    else if ltb n 62
    then b'0' + (n - 52)
    else if n == 62
    then b'-'
    else b'_'

unfoldable pub char_sextet : ℕ → Option ℕ
char_sextet c =
    if leb b'A' c && leb c b'Z'
    then some (c - b'A')
    else if leb b'a' c && leb c b'z'
    then some (c - b'a' + 26)
    else if leb b'0' c && leb c b'9'
    then some (c - b'0' + 52)
    else if c == b'-'
    then some 62
    else if c == b'_'
    then some 63
    else none

unfoldable pub to_sextets : List ℕ → List ℕ
to_sextets [] = []
to_sextets (a ∷ []) = a / 4 ∷ (a % 4) * 16 ∷ []
to_sextets (a ∷ b ∷ []) = a / 4 ∷ ((a % 4) * 16 + b / 16) ∷ (b % 16) * 4 ∷ []
to_sextets (a ∷ b ∷ c ∷ rest) =
    a / 4 ∷ ((a % 4) * 16 + b / 16) ∷ ((b % 16) * 4 + c / 64) ∷ c % 64 ∷ to_sextets rest

prepend : List ℕ → Option (List ℕ) → Option (List ℕ)
prepend triple none = none
prepend triple (some bytes) = some (triple ++ bytes)

-- One character that is left over is an error.
unfoldable pub from_sextets : List ℕ → Option (List ℕ)
unfolding prepend
from_sextets [] = some []
from_sextets (p ∷ []) = none
from_sextets (p ∷ q ∷ []) = some ((p * 4 + q / 16) ∷ [])
from_sextets (p ∷ q ∷ r ∷ []) = some ((p * 4 + q / 16) ∷ ((q % 16) * 16 + r / 4) ∷ [])
from_sextets (p ∷ q ∷ r ∷ s ∷ rest) =
    let bytes = from_sextets rest in
    prepend ((p * 4 + q / 16) ∷ ((q % 16) * 16 + r / 4) ∷ ((r % 4) * 64 + s) ∷ []) bytes

read_char : Bool → Option ℕ → Option (List ℕ) → Option (List ℕ)
read_char true _ rest = rest
read_char false (some n) (some rest) = some (n ∷ rest)
read_char false _ _ = none

unfoldable pub read_sextets : Text → Option (List ℕ)
unfolding read_char char_sextet
read_sextets [] = some []
read_sextets (c ∷ cs) = read_char (c == b'\n' || c == b'\r') (char_sextet c) (read_sextets cs)

unfoldable pub base64_encode : List ℕ → Text
unfolding to_sextets sextet_char
base64_encode bytes = map sextet_char (to_sextets bytes)

decoded : Option (List ℕ) → Option (List ℕ)
decoded none = none
decoded (some ns) = from_sextets ns

unfoldable pub base64_decode : Text → Option (List ℕ)
unfolding read_sextets decoded
base64_decode s = decoded (read_sextets s)

sextet_char-plain : (n : ℕ) → n < 64 → (sextet_char n == b'\n' || sextet_char n == b'\r') ≡ false
unfolding sextet_char
sextet_char-plain n h = ground arith

char_sextet-sextet_char : (n : ℕ) → n < 64 → char_sextet (sextet_char n) ≡ some n
unfolding sextet_char char_sextet
char_sextet-sextet_char n h = ground arith

read_sextets-map :
    (ns : List ℕ) → All (λ n. n < 64) ns → read_sextets (map sextet_char ns) ≡ some ns
unfolding read_sextets read_char
read_sextets-map [] h = refl
read_sextets-map (n ∷ ns) h =
    rw (read_sextets-map ns h.1, sextet_char-plain n h.0, char_sextet-sextet_char n h.0)

to_sextets-small : (bs : List ℕ) → All (λ b. b < 256) bs → All (λ n. n < 64) (to_sextets bs)
unfolding to_sextets
to_sextets-small [] h = tt
to_sextets-small (a ∷ []) h = (omega arith, (omega arith, tt))
to_sextets-small (a ∷ b ∷ []) h = (omega arith, (omega arith, (omega arith, tt)))
to_sextets-small (a ∷ b ∷ c ∷ rest) h =
    (omega arith, (omega arith, (omega arith, (omega arith, to_sextets-small rest h.1.1.1))))

list_eq : {x y : ℕ} {xs ys : List ℕ} → x ≡ y → xs ≡ ys → x ∷ xs ≡ y ∷ ys
list_eq p q = cc

from_sextets-to_sextets :
    (bs : List ℕ) → All (λ b. b < 256) bs → from_sextets (to_sextets bs) ≡ some bs
unfolding to_sextets from_sextets prepend
from_sextets-to_sextets [] h = refl
from_sextets-to_sextets (a ∷ []) h = ap some (ap (λ x. x ∷ []) (omega arith))
from_sextets-to_sextets (a ∷ b ∷ []) h =
    ap some (list_eq (omega arith) (list_eq (omega arith) refl))
from_sextets-to_sextets (a ∷ b ∷ c ∷ rest) h =
    rw (from_sextets-to_sextets rest h.1.1.1)
      (ap some (list_eq (omega arith) (list_eq (omega arith) (list_eq (omega arith) refl))))

-- Decoding gives back the bytes that were encoded.
pub base64_decode-base64_encode :
    (bs : List ℕ) → All (λ b. b < 256) bs → base64_decode (base64_encode bs) ≡ some bs
unfolding base64_decode base64_encode decoded
base64_decode-base64_encode bs h =
    ap decoded (read_sextets-map (to_sextets bs) (to_sextets-small bs h))
    ∙ from_sextets-to_sextets bs h
