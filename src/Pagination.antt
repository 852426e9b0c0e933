-- ===== src/Pagination.antt =====
-- internal/platform/pagination/cursor.go. An object id is the number that its twelve bytes spell, so
-- that the order of the server on ids is that of the numbers, and zero is the zero id.
use go_mongo_boilerplate.Base.{
  ℕ, ◌<◌, ◌≡◌, ◌≢◌, refl, ◌∙◌, ap, Bool, true, ◌&&◌, ltb→lt, and-eq-true, List, [], ◌∷◌, ◌++◌,
  Option, none, some, All, ltb, if◌then◌else◌, ◌≤◌, arith, All-append,
}
use go_mongo_boilerplate.Base.Int.{ℤ, pos, negsuc}
use go_mongo_boilerplate.Stdlib.Text.{Text, codes}
use go_mongo_boilerplate.Stdlib.Errors.{GoError}
use go_mongo_boilerplate.Stdlib.Outcome.{Outcome}
use go_mongo_boilerplate.Stdlib.Base64.{
  base64_encode, base64_decode, base64_decode-base64_encode, to_sextets,
}

abbrev pub max_limit : ℕ
max_limit = 100

abbrev pub default_limit : ℕ
default_limit = 20

pub record Cursor : Type 0 where
  pub last_id : ℕ

-- The driver's `ObjectID`: `Hex`, `ObjectIDFromHex`, and `json.Unmarshal` into a `Cursor`, which
-- calls its `UnmarshalJSON`; `none` is an error.
pub record ObjectIds : Type 0 where
  pub hex : ℕ → Text
  pub from_hex : Text → Option ℕ
  pub unmarshal : List ℕ → Option Cursor

-- `json.Marshal` of a cursor: an id is written as its hexadecimal digits.
unfoldable pub cursor_json : ObjectIds → Cursor → List ℕ
cursor_json ids c = codes "{\"last_id\":\"" ++ (ids.hex c.last_id ++ codes "\"}")

unfoldable pub encode : ObjectIds → Cursor → Text
unfolding cursor_json
encode ids c = base64_encode (cursor_json ids c)

abbrev pub zero_cursor : Cursor
zero_cursor = record { last_id = 0 }

decode_payload : Option Cursor → Outcome Cursor
decode_payload none = Outcome.err (GoError.plain (codes "invalid cursor payload"))
decode_payload (some c) = Outcome.ok c

decode_raw : ObjectIds → Option (List ℕ) → Outcome Cursor
unfolding decode_payload
decode_raw ids none = Outcome.err (GoError.plain (codes "invalid cursor encoding"))
decode_raw ids (some raw) = decode_payload (ids.unmarshal raw)

unfoldable pub decode_cursor : ObjectIds → Text → Outcome Cursor
unfolding decode_raw
decode_cursor ids [] = Outcome.ok zero_cursor
decode_cursor ids (c ∷ cs) = decode_raw ids (base64_decode (c ∷ cs))

pub record Page {ℓ} (A : Type ℓ) : Type ℓ where
  pub items : List A
  pub next_cursor : Text
  pub has_more : Bool

-- The result is positive, and stands here as a natural number.
unfoldable pub clamp_limit : ℤ → ℕ
clamp_limit (negsuc _) = default_limit
clamp_limit (pos req) =
    if ltb 0 req then (if ltb max_limit req then max_limit else req) else default_limit

-- Whatever the client asks for, a page has between one and a hundred rows.
pub clamp_limit_bounds : (req : ℤ) → (1 ≤ clamp_limit req) × (clamp_limit req ≤ max_limit)
unfolding clamp_limit
clamp_limit_bounds (negsuc n) = (omega arith, omega arith)
clamp_limit_bounds (pos n) = ground arith

-- The driver spells the id in ASCII, and reads it back from the JSON of its cursor.
abbrev pub IsReadable : ObjectIds → ℕ → Type 0
IsReadable ids id =
    All (λ c. c < 256) (ids.hex id)
    × (ids.unmarshal (cursor_json ids (record { last_id = id })) ≡ some (record { last_id = id }))

is_bytes : Text → Bool
is_bytes [] = true
is_bytes (c ∷ cs) = ltb c 256 && is_bytes cs

bytes-of_check : (s : Text) → is_bytes s ≡ true → All (λ c. c < 256) s
unfolding is_bytes
bytes-of_check [] h = tt
bytes-of_check (c ∷ cs) h =
    (ltb→lt c 256 (and-eq-true _ _ h).0, bytes-of_check cs (and-eq-true _ _ h).1)

cursor_json-bytes :
    (ids : ObjectIds) (id : ℕ)
    → All (λ c. c < 256) (ids.hex id)
    → All (λ c. c < 256) (cursor_json ids (record { last_id = id }))
unfolding cursor_json is_bytes
cursor_json-bytes ids id h =
    All-append (λ c. c < 256) (codes "{\"last_id\":\"") (ids.hex id ++ codes "\"}")
      (bytes-of_check (codes "{\"last_id\":\"") refl)
      (All-append (λ c. c < 256) (ids.hex id) (codes "\"}") h (bytes-of_check (codes "\"}") refl))

decode_cursor-eq :
    (ids : ObjectIds) (s : Text) → s ≢ [] → decode_cursor ids s ≡ decode_raw ids (base64_decode s)
unfolding decode_cursor
decode_cursor-eq ids [] h = absurd (h refl)
decode_cursor-eq ids (c ∷ cs) h = refl

encode-ne-nil : (ids : ObjectIds) (c : Cursor) → encode ids c ≢ []
unfolding encode cursor_json base64_encode to_sextets
encode-ne-nil ids c e = cc

-- For an id that the driver can read back, the text of a cursor decodes to that cursor.
pub decode_cursor-encode :
    (ids : ObjectIds) (id : ℕ)
    → IsReadable ids id
    → decode_cursor ids (encode ids (record { last_id = id }))
      ≡ Outcome.ok (record { last_id = id })
unfolding encode decode_raw decode_payload
decode_cursor-encode ids id h =
    decode_cursor-eq ids (encode ids (record { last_id = id })) (encode-ne-nil ids _)
    ∙ ap (decode_raw ids)
        (base64_decode-base64_encode (cursor_json ids _) (cursor_json-bytes ids id h.0))
    ∙ ap decode_payload h.1
