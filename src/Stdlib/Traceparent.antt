-- ===== src/Stdlib/Traceparent.antt =====
-- The regular expression `traceparentRe`, which internal/platform/sqs/headers.go and
-- internal/platform/kafka/headers.go both declare, and the error texts that both sanitise.
pub mod Grammar
pub mod Reason
use go_mongo_boilerplate.Base.{
  ℕ, zero, suc, Bool, true, false, ◌&&◌, ◌||◌, [], ◌∷◌, Option, none, some, ltb, leb, ◌==◌,
  if◌then◌else◌, length, take,
}
use go_mongo_boilerplate.Stdlib.Text.{Text, codes}
use go_mongo_boilerplate.Stdlib.Errors.{GoError, error_text}

unfoldable pub is_hex : ℕ → Bool
is_hex c = leb b'0' c && leb c b'9' || leb b'a' c && leb c b'f'

-- `[0-9a-f]{n}` at the start of a text: what stands behind.
unfoldable pub hex_run : ℕ → Text → Option Text
unfolding is_hex
hex_run zero s = some s
hex_run (suc n) [] = none
hex_run (suc n) (c ∷ s) = if is_hex c then hex_run n s else none

-- `-` at the start of a text.
unfoldable pub dash : Text → Option Text
dash [] = none
dash (c ∷ s) = if c == b'-' then some s else none

infixl 5 ◌>>=◌
abbrev pub ◌>>=◌ : Option Text → (Text → Option Text) → Option Text
none >>= f = none
some s >>= f = f s

-- The version, the trace id, the span id and the flags, with what follows them.
unfoldable pub traceparent_fields : Text → Option Text
unfolding hex_run dash
traceparent_fields s = do
  a ← hex_run 2 s
  b ← dash a
  c ← hex_run 32 b
  d ← dash c
  e ← hex_run 16 d
  f ← dash e
  hex_run 2 f

abbrev pub at_end : Option Text → Bool
at_end (some []) = true
at_end _ = false

-- `traceparentRe.MatchString`.
unfoldable pub traceparent_matches : Text → Bool
unfolding traceparent_fields
traceparent_matches s = at_end (traceparent_fields s)

-- `maxErrorReasonLen`.
abbrev pub max_error_reason_len : ℕ
max_error_reason_len = 256

-- One round of the loop of `SanitizeError`, over the runes of the message.
unfoldable pub sanitize_rune : ℕ → ℕ
sanitize_rune r = if ltb 127 r || ltb r 0x20 then b'?' else r

unfoldable pub sanitize_runes : Text → Text
sanitize_runes [] = []
sanitize_runes (r ∷ rs) = sanitize_rune r ∷ sanitize_runes rs

-- `SanitizeError`; `none` is the nil error.
unfoldable pub sanitize_error : Option GoError → Text
unfolding sanitize_runes sanitize_rune
sanitize_error none = codes "unknown"
sanitize_error (some err) =
    let out = sanitize_runes (error_text err) in
    if ltb max_error_reason_len (length out) then take max_error_reason_len out else out
