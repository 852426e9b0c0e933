-- ===== src/Cors.antt =====
-- internal/middleware/cors.go, and Validate of internal/platform/config/config.go, which keeps unsafe
-- policies away from it.
pub mod Policy
mod Tests
use go_mongo_boilerplate.Base.{
  ℕ, Bool, true, false, ◌&&◌, ◌||◌, not, List, [], ◌∷◌, ◌++◌, Option, none, some, if◌then◌else◌,
}
use go_mongo_boilerplate.Base.Int.{ℤ}
use go_mongo_boilerplate.Stdlib.Text.{Text, codes, text_eq, is_empty}
use go_mongo_boilerplate.Stdlib.Decimal.{itoa}
use go_mongo_boilerplate.Stdlib.Errors.{GoError, plain}
use go_mongo_boilerplate.Stdlib.Search.{is_space, has_prefix}

-- `CORSConfig`.
pub record CorsConfig : Type 0 where
  pub allowed_origins : List Text
  pub allowed_methods : List Text
  pub allowed_headers : List Text
  pub allow_credentials : Bool
  pub max_age_seconds : ℤ

-- The fields of `Config` that `Validate` reads.
pub record Config : Type 0 where
  pub observability_enabled : Bool
  pub observability_insecure : Bool
  pub ingestion_key : Text
  pub cors : CorsConfig

abbrev pub star : Text
star = codes "*"

unfoldable pub listed : Text → List Text → Bool
listed o [] = false
listed o (x ∷ xs) = text_eq x o || listed o xs

unfoldable pub trim_left : Text → Text
trim_left [] = []
trim_left (c ∷ s) = let rest = trim_left s in if is_space c then rest else c ∷ s

unfoldable pub trim_right : Text → Text
trim_right [] = []
trim_right (c ∷ s) = let rest = trim_right s in if is_empty rest && is_space c then [] else c ∷ rest

-- Whether the key is a placeholder.
unfoldable pub is_unset : Text → Bool
unfolding trim_left trim_right
is_unset key =
    let k = trim_right (trim_left key) in
    is_empty k || text_eq k (codes "changeme") || has_prefix k (codes "<")

unfoldable pub validate_cors : CorsConfig → Option GoError
unfolding listed
validate_cors c =
    if c.allow_credentials && listed star c.allowed_origins
    then some (plain (codes "cors: allow_credentials=true incompatible with origin '*'"))
    else none

unfoldable pub validate : Config → Option GoError
unfolding validate_cors is_unset
validate c =
    if c.observability_enabled && not c.observability_insecure && is_unset c.ingestion_key
    then some (plain (codes "observability: ingestion_key required when insecure=false"))
    else validate_cors c.cors

-- `strings.Join` with ", ".
unfoldable pub join_comma : List Text → Text
join_comma [] = []
join_comma (x ∷ []) = x
join_comma (x ∷ y ∷ xs) = x ++ (codes ", " ++ join_comma (y ∷ xs))

-- What the handler sets: the headers, and the status with which it stops the chain, if it does.
pub record Response : Type 0 where
  pub allow_origin : Option Text
  pub vary_origin : Bool
  pub allow_methods : Text
  pub allow_headers : Text
  pub max_age : Text
  pub credentials : Bool
  pub aborted : Option ℕ

unfoldable pub allow_origin_for : CorsConfig → Text → Option Text × Bool
unfolding listed
allow_origin_for cfg origin =
    if is_empty origin
    then (none, false)
    else if listed star cfg.allowed_origins && not cfg.allow_credentials
    then (some star, false)
    else if listed origin cfg.allowed_origins
    then (some origin, true)
    else (none, false)

unfoldable pub respond : CorsConfig → Text → (is_options : Bool) → Response
unfolding allow_origin_for join_comma
respond cfg origin is_options = record {
  allow_origin = (allow_origin_for cfg origin).0;
  vary_origin = (allow_origin_for cfg origin).1;
  allow_methods = join_comma cfg.allowed_methods;
  allow_headers = join_comma cfg.allowed_headers;
  max_age = itoa cfg.max_age_seconds;
  credentials = cfg.allow_credentials;
  aborted = if is_options then some 204 else none;
}
