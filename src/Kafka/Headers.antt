-- ===== src/Kafka/Headers.antt =====
-- internal/platform/kafka/headers.go: the headers of a record that the platform reads and writes. The
-- grammar of `traceparent` and SanitizeError are in Stdlib/Traceparent.
pub mod Carrier
use go_mongo_boilerplate.Base.{
  Bool, true, false, ◌||◌, not, List, [], ◌∷◌, ◌++◌, map, Option, none, some, if◌then◌else◌,
}
use go_mongo_boilerplate.Base.Int.{ℤ, pos, add64}
use go_mongo_boilerplate.Stdlib.Text.{Text, codes, text_eq, to_lower, equal_fold, is_empty}
use go_mongo_boilerplate.Stdlib.Decimal.{itoa, atoi}
use go_mongo_boilerplate.Stdlib.Errors.{GoError, sentinel, wrap}
use go_mongo_boilerplate.Stdlib.Traceparent.{traceparent_matches, sanitize_error}
use go_mongo_boilerplate.Sqs.Headers.{
  header_trace_parent, header_idempotency_key, header_retry_count, header_error_reason, parse_count,
}
use go_mongo_boilerplate.Kafka.World.{Headers, Record}

-- `recordCarrier.Get`.
unfoldable pub get : Headers → Text → Text
get [] key = []
get ((k, v) ∷ hs) key = if equal_fold k key then v else get hs key

-- `recordCarrier.Set`.
unfoldable pub set : Headers → Text → Text → Headers
set [] key value = (key, value) ∷ []
set ((k, v) ∷ hs) key value =
    if equal_fold k key then (k, value) ∷ hs else (k, v) ∷ set hs key value

unfoldable pub keys : Headers → List Text
keys hs = map (λ h. h.0) hs

-- `generated` is the UUID that is used if the key is empty.
unfoldable pub set_idempotency_key : Headers → Text → Text → Headers × Text
set_idempotency_key hs key generated =
    let key' = if is_empty key then generated else key in (set hs header_idempotency_key key', key')

unfoldable pub get_idempotency_key : Headers → Text
get_idempotency_key hs = get hs header_idempotency_key

-- `parse_count` is the reading that the SQS package writes in the same words.
unfoldable pub retry_count : Headers → ℤ
retry_count hs = parse_count (get hs header_retry_count)

unfoldable pub inc_retry_count : Headers → Headers × ℤ
unfolding retry_count
inc_retry_count hs = let n = add64 (retry_count hs) 1 in (set hs header_retry_count (itoa n), n)

-- Whether the `switch` of `SanitizeForRepublish` lets a header pass.
unfoldable pub is_kept : Text → Text → Bool
is_kept key value =
    let k = to_lower key in
    if text_eq k header_retry_count || text_eq k header_error_reason
    then false
    else if text_eq k header_trace_parent
    then traceparent_matches value
    else true

unfoldable pub keep_headers : Headers → Headers
unfolding is_kept
keep_headers [] = []
keep_headers ((k, v) ∷ hs) =
    let rest = keep_headers hs in if is_kept k v then (k, v) ∷ rest else rest

unfoldable pub sanitize_for_republish : Record → Text → Record
unfolding keep_headers
sanitize_for_republish src topic = record {
  topic = topic;
  key = src.key;
  value = src.value;
  headers = keep_headers src.headers;
  offset = 0;
}

unfoldable pub set_error_reason : Headers → Option GoError → Headers
set_error_reason hs err = set hs header_error_reason (sanitize_error err)

-- The text of the sentinel `ErrInvalidTraceparent`.
abbrev pub err_invalid_traceparent : Text
err_invalid_traceparent = codes "kafka: invalid traceparent header"

-- `ErrInvalidTraceparent`.
abbrev pub invalid_traceparent : Text
invalid_traceparent = codes "kafka: invalid traceparent header"

-- `quote` is the `%q` of the standard library.
unfoldable pub assert_valid_traceparent : (Text → Text) → Text → Option GoError
assert_valid_traceparent quote v =
    if is_empty v
    then none
    else if traceparent_matches v
    then none
    else some (wrap [] (sentinel invalid_traceparent) (codes ": " ++ quote v))
