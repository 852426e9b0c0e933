-- ===== src/Sqs/Headers/Sanitize.antt =====
-- What SanitizeForRepublish lets through.
use mathlib.Core.Path.{subst}
use go_mongo_boilerplate.Base.{
  ◌≡◌, refl, ◌⊎◌, true, false, [], ◌∷◌, some, inl, inr, arith, All, Bool-cases, Option-cases,
}
use go_mongo_boilerplate.Stdlib.Text.{
  Text, text_eq, text_eq_refl, equal_fold, fold_rune, to_lower_of_equal_fold, IsFoldStable,
}
use go_mongo_boilerplate.Stdlib.Traceparent.{traceparent_matches}
use go_mongo_boilerplate.Sqs.Headers.{
  Attributes, AttributeValue, Message, header_retry_count, header_trace_parent, string_value_for,
  get_string_attribute, is_kept, keep_attributes, sanitize_for_republish,
}

-- What may be read from attributes of which every entry was kept.
abbrev IsKept : Attributes → Type 0
IsKept = All (λ e. is_kept e.0 e.1 ≡ true)

keep_attributes-IsKept : (attrs : Attributes) → IsKept (keep_attributes attrs)
unfolding keep_attributes
keep_attributes-IsKept [] = tt
keep_attributes-IsKept ((k, v) ∷ attrs) = elim (Bool-cases (is_kept k v)) [
  | inl kept ↦ rw kept (kept, keep_attributes-IsKept attrs)
  | inr stripped ↦ rw stripped (keep_attributes-IsKept attrs)
]

pub header_retry_count-IsFoldStable : IsFoldStable header_retry_count
unfolding fold_rune
header_retry_count-IsFoldStable = ground arith

retry_count_stripped :
    (k : Text) (v : AttributeValue) → is_kept k v ≡ true → equal_fold k header_retry_count ≡ false
unfolding is_kept fold_rune
retry_count_stripped k v h = elim (Bool-cases (equal_fold k header_retry_count)) [
  | inl folds ↦
      let e = to_lower_of_equal_fold k header_retry_count header_retry_count-IsFoldStable folds in
      absurd (cc (rw (e, text_eq_refl header_retry_count) at h))
  | inr apart ↦ apart
]

get-IsKept :
    (attrs : Attributes) → IsKept attrs → get_string_attribute attrs header_retry_count ≡ []
unfolding get_string_attribute
get-IsKept [] h = refl
get-IsKept ((k, v) ∷ attrs) h = ground (arith, retry_count_stripped k v h.0, get-IsKept attrs h.1)

header_trace_parent-IsFoldStable : IsFoldStable header_trace_parent
unfolding fold_rune
header_trace_parent-IsFoldStable = ground arith

-- A text that a reader of `traceparent` takes for absent or finds well-formed.
abbrev pub IsTrusted : Text → Type 0
IsTrusted s = (s ≡ []) ⊎ (traceparent_matches s ≡ true)

trace_parent_checked :
    (k : Text) (v : AttributeValue) (s : Text)
    → is_kept k v ≡ true
    → string_value_for header_trace_parent k v ≡ some s
    → traceparent_matches s ≡ true
unfolding is_kept string_value_for text_eq
trace_parent_checked k v s h e = elim (Bool-cases (equal_fold k header_trace_parent)) [
  | inl folds ↦
      let lower =
        to_lower_of_equal_fold k header_trace_parent header_trace_parent-IsFoldStable folds in
      let value : v.string_value ≡ some s = rw folds at e in rw (lower, value) at h
  | inr apart ↦ absurd (cc (rw apart at e))
]

get-IsTrusted :
    (attrs : Attributes) → IsKept attrs → IsTrusted (get_string_attribute attrs header_trace_parent)
unfolding get_string_attribute
get-IsTrusted [] h = inl refl
get-IsTrusted ((k, v) ∷ attrs) h = elim (Option-cases (string_value_for header_trace_parent k v)) [
  | inl absent ↦ subst IsTrusted (ground arith) (get-IsTrusted attrs h.1)
  | inr (s, found) ↦ subst IsTrusted (ground arith) (inr (trace_parent_checked k v s h.0 found))
]

-- Of a sanitised message a reader sees no retry count, whatever the case in which the sender spelled
-- the name, and no `traceparent` but a well-formed one.
pub sanitize_for_republish-IsTrusted :
    (msg : Message)
    → (get_string_attribute (sanitize_for_republish msg) header_retry_count ≡ [])
      × IsTrusted (get_string_attribute (sanitize_for_republish msg) header_trace_parent)
unfolding sanitize_for_republish
sanitize_for_republish-IsTrusted msg =
    let kept = keep_attributes-IsKept msg.attributes in
    (
      get-IsKept (keep_attributes msg.attributes) kept,
      get-IsTrusted (keep_attributes msg.attributes) kept,
    )

keep_attributes_apart :
    (attrs : Attributes) → IsKept attrs → All (λ e. equal_fold e.0 header_retry_count ≡ false) attrs
keep_attributes_apart [] h = tt
keep_attributes_apart ((k, v) ∷ attrs) h =
    (retry_count_stripped k v h.0, keep_attributes_apart attrs h.1)

-- No key of a sanitised message is read as the retry counter.
pub sanitize_for_republish_apart :
    (msg : Message)
    → All (λ e. equal_fold e.0 header_retry_count ≡ false) (sanitize_for_republish msg)
unfolding sanitize_for_republish
sanitize_for_republish_apart msg =
    keep_attributes_apart (keep_attributes msg.attributes) (keep_attributes-IsKept msg.attributes)
