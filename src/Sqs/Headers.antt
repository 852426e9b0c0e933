-- ===== src/Sqs/Headers.antt =====
-- internal/platform/sqs/headers.go: the attributes of a message that the platform reads and writes.
-- The list of a map is in the order in which the loops of one run visit it; where the order
-- decides, the theorems hold for each.
pub mod Counts
pub mod Sanitize
use go_mongo_boilerplate.Base.{
  ℕ, ◌-◌, Bool, true, false, ◌&&◌, ◌||◌, not, List, [], ◌∷◌, Option, none, some, arith,
  if◌then◌else◌, is_some,
}
use go_mongo_boilerplate.Base.Int.{ℤ, pos, negsuc, add64}
use go_mongo_boilerplate.Stdlib.Text.{Text, codes, text_eq, to_lower, equal_fold, is_empty}
use go_mongo_boilerplate.Stdlib.Decimal.{atoi, itoa}
use go_mongo_boilerplate.Stdlib.Errors.{GoError}
use go_mongo_boilerplate.Stdlib.Maps.{Map, insert}
use go_mongo_boilerplate.Stdlib.Traceparent.{traceparent_matches, sanitize_error}

abbrev pub header_trace_parent : Text
header_trace_parent = codes "traceparent"

abbrev pub header_trace_state : Text
header_trace_state = codes "tracestate"

abbrev pub header_idempotency_key : Text
header_idempotency_key = codes "x-idempotency-key"

abbrev pub header_retry_count : Text
header_retry_count = codes "x-retry-count"

abbrev pub header_error_reason : Text
header_error_reason = codes "x-error-reason"

-- `MaxAttributes - ReservedAttributes`.
abbrev pub max_custom_attributes : ℕ
max_custom_attributes = 10 - 3

-- The fields of `types.MessageAttributeValue` that the program sets, reads or copies.
pub record AttributeValue : Type 0 where
  pub data_type : Option Text
  pub string_value : Option Text
  pub binary_value : Option Text

abbrev pub Attributes : Type 0
Attributes = Map AttributeValue

-- `types.Message`; a nil pointer is `none`.
pub record Message : Type 0 where
  pub message_id : Option Text
  pub receipt_handle : Option Text
  pub body : Option Text
  pub attributes : Attributes

abbrev pub string_attribute : Text → AttributeValue
string_attribute value = record {
  data_type = some (codes "String");
  string_value = some value;
  binary_value = none;
}

unfoldable pub set_string_attribute : Attributes → Text → Text → Attributes
set_string_attribute attrs key value = insert key (string_attribute value) attrs

-- The value that the loop of `GetStringAttribute` returns at an entry, if it returns there.
unfoldable pub string_value_for : Text → Text → AttributeValue → Option Text
string_value_for key k v = if equal_fold k key then v.string_value else none

unfoldable pub get_string_attribute : Attributes → Text → Text
unfolding string_value_for
get_string_attribute [] key = []
get_string_attribute ((k, v) ∷ attrs) key =
    let rest = get_string_attribute attrs key in
    elim (string_value_for key k v) [ some value ↦ value | none ↦ rest ]

-- `SetIdempotencyKey`; `generated` is the UUID that is used if the key is empty.
unfoldable pub set_idempotency_key : Attributes → Text → Text → Attributes × Text
set_idempotency_key attrs key generated =
    let key' = if is_empty key then generated else key in
    (set_string_attribute attrs header_idempotency_key key', key')

unfoldable pub get_idempotency_key : Option Message → Text
get_idempotency_key none = []
get_idempotency_key (some msg) = get_string_attribute msg.attributes header_idempotency_key

count_or_zero : Option ℤ → ℤ
count_or_zero none = pos 0
count_or_zero (some (pos n)) = pos n
count_or_zero (some (negsuc _)) = pos 0

-- A parsed counter, 0 if it is absent, invalid or negative.
unfoldable pub parse_count : Text → ℤ
unfolding count_or_zero
parse_count v = if is_empty v then pos 0 else count_or_zero (atoi v)

unfoldable pub retry_count : Option Message → ℤ
unfolding parse_count
retry_count none = pos 0
retry_count (some msg) = parse_count (get_string_attribute msg.attributes header_retry_count)

-- The new attributes and the new count.
unfoldable pub inc_retry_count : Attributes → Attributes × ℤ
unfolding parse_count
inc_retry_count attrs =
    let n = add64 (parse_count (get_string_attribute attrs header_retry_count)) 1 in
    (set_string_attribute attrs header_retry_count (itoa n), n)

-- Whether the `switch` of `SanitizeForRepublish` lets an attribute pass.
unfoldable pub is_kept : Text → AttributeValue → Bool
is_kept k v =
    let lk = to_lower k in
    if text_eq lk header_retry_count || text_eq lk header_error_reason
    then false
    else if text_eq lk header_trace_parent
    then elim v.string_value [ none ↦ false | some s ↦ traceparent_matches s ]
    else true

keep_attributes : Attributes → Attributes
keep_attributes [] = []
keep_attributes ((k, v) ∷ attrs) =
    let rest = keep_attributes attrs in if is_kept k v then (k, v) ∷ rest else rest

unfoldable pub sanitize_for_republish : Message → Attributes
unfolding keep_attributes is_kept
sanitize_for_republish msg = keep_attributes msg.attributes

unfoldable pub set_error_reason : Attributes → Option GoError → Attributes
set_error_reason attrs err = set_string_attribute attrs header_error_reason (sanitize_error err)
