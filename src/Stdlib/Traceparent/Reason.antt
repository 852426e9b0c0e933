-- ===== src/Stdlib/Traceparent/Reason.antt =====
-- The text that a handler error leaves in a message.
use go_mongo_boilerplate.Base.{
  ℕ, if◌then◌else◌, ltb, take_of_length-le, ◌≤◌, ◌<◌, ◌≡◌, refl, [], ◌∷◌, Option, none, some, arith,
  length, take, All, All-take, length-take, take_of_length-le,
}
use go_mongo_boilerplate.Stdlib.Text.{Text}
use go_mongo_boilerplate.Stdlib.Errors.{GoError, error_text}
use go_mongo_boilerplate.Stdlib.Traceparent.{sanitize_rune, sanitize_runes, sanitize_error}

-- ASCII, and no control character below the space.
abbrev pub IsHeaderSafe : Text → Type 0
IsHeaderSafe = All (λ c. (0x20 ≤ c) × (c < 128))

sanitize_runes-IsHeaderSafe : (s : Text) → IsHeaderSafe (sanitize_runes s)
unfolding sanitize_runes sanitize_rune
sanitize_runes-IsHeaderSafe [] = tt
sanitize_runes-IsHeaderSafe (r ∷ rs) =
    ((ground arith, ground arith), sanitize_runes-IsHeaderSafe rs)

sanitize_runes_safe : (s : Text) → IsHeaderSafe s → sanitize_runes s ≡ s
unfolding sanitize_runes sanitize_rune
sanitize_runes_safe [] h = refl
sanitize_runes_safe (r ∷ rs) h = ground (arith, sanitize_runes_safe rs)

cut-eq-take : (n : ℕ) (s : Text) → (if ltb n (length s) then take n s else s) ≡ take n s
cut-eq-take n s = ground (arith, take_of_length-le n s)

sanitize_error-eq-take :
    (err : GoError) → sanitize_error (some err) ≡ take 256 (sanitize_runes (error_text err))
unfolding sanitize_error
sanitize_error-eq-take err = cut-eq-take 256 (sanitize_runes (error_text err))

-- The reason of every error, nil included, is header-safe ASCII of at most 256 characters.
pub sanitize_error-IsHeaderSafe :
    (err : Option GoError) → IsHeaderSafe (sanitize_error err) × (length (sanitize_error err) ≤ 256)
unfolding sanitize_error
sanitize_error-IsHeaderSafe none = omega arith
sanitize_error-IsHeaderSafe (some err) = rw (sanitize_error-eq-take err) (
  All-take (λ c. (0x20 ≤ c) × (c < 128)) 256 (sanitize_runes (error_text err))
      (sanitize_runes-IsHeaderSafe (error_text err)),
  omega (arith, length-take 256 (sanitize_runes (error_text err))),
)

-- A message that is header-safe already is cut to 256 characters and changed in no other way.
pub sanitize_error_safe :
    (err : GoError)
    → IsHeaderSafe (error_text err)
    → sanitize_error (some err) ≡ take 256 (error_text err)
sanitize_error_safe err h = rw (sanitize_error-eq-take err, sanitize_runes_safe (error_text err) h)
