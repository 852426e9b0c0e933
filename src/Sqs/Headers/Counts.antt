-- ===== src/Sqs/Headers/Counts.antt =====
-- The retry counter of a message: its range, and that a bump is read back.
use go_mongo_boilerplate.Base.{
  ℕ, ◌+◌, ◌^◌, ◌<◌, ◌≡◌, refl, ap, ◌∙◌, true, [], ◌∷◌, Option, none, some, arith, All, ◌≢◌,
}
use go_mongo_boilerplate.Base.Int.{ℤ, pos, negsuc, add64_exact, ◌≤ℤ◌, IsInt64}
use go_mongo_boilerplate.Stdlib.Text.{Text, text_eq_iff, equal_fold, equal_fold_refl}
use go_mongo_boilerplate.Stdlib.Decimal.{atoi, itoa, atoi-itoa, itoa-ne-nil, atoi-IsInt64}
use go_mongo_boilerplate.Stdlib.Maps.{insert}
use go_mongo_boilerplate.Sqs.Headers.{
  Attributes, Message, header_retry_count, set_string_attribute, get_string_attribute,
  count_or_zero, parse_count, retry_count, inc_retry_count,
}

-- No entry is spelled like `key` in another case.
abbrev pub IsCanonical : Text → Attributes → Type 0
IsCanonical key = All (λ e. equal_fold e.0 key ≡ true → e.0 ≡ key)

-- The value written under a key is the one read under it.
pub get-set_string_attribute :
    (attrs : Attributes) (key value : Text)
    → IsCanonical key attrs
    → get_string_attribute (set_string_attribute attrs key value) key ≡ value
unfolding get_string_attribute set_string_attribute insert
get-set_string_attribute [] key value h = ground (arith, equal_fold_refl key)
get-set_string_attribute ((k, v) ∷ attrs) key value h =
    ground
      (arith, equal_fold_refl key, text_eq_iff k key, get-set_string_attribute attrs key value h.1)

pub parse_count-itoa : (n : ℕ) → n < 2 ^ 63 → parse_count (itoa (pos n)) ≡ pos n
unfolding parse_count
parse_count-itoa n h = nonempty (itoa (pos n)) (itoa-ne-nil n) (atoi-itoa n h)
  where
    nonempty : (s : Text) → s ≢ [] → atoi s ≡ some (pos n) → parse_count s ≡ pos n
    nonempty [] d e = absurd (d refl)
    nonempty (c ∷ cs) d e = rw e

count_or_zero_bounds :
    (o : Option ℤ)
    → ((z : ℤ) → o ≡ some z → IsInt64 z)
    → (pos 0 ≤ℤ count_or_zero o) × IsInt64 (count_or_zero o)
unfolding count_or_zero
count_or_zero_bounds none h = omega arith
count_or_zero_bounds (some (pos n)) h = (omega arith, h (pos n) refl)
count_or_zero_bounds (some (negsuc n)) h = omega arith

pub parse_count_bounds : (v : Text) → (pos 0 ≤ℤ parse_count v) × IsInt64 (parse_count v)
unfolding parse_count
parse_count_bounds [] = omega arith
parse_count_bounds (c ∷ cs) = count_or_zero_bounds (atoi (c ∷ cs)) (λ z e. atoi-IsInt64 (c ∷ cs) e)

-- A count that is read is never negative and fits an int64, whatever the sender wrote.
pub retry_count_bounds :
    (msg : Option Message) → (pos 0 ≤ℤ retry_count msg) × IsInt64 (retry_count msg)
unfolding retry_count
retry_count_bounds none = omega arith
retry_count_bounds (some msg) =
    parse_count_bounds (get_string_attribute msg.attributes header_retry_count)

-- A bump adds one to the count of a message that spells the counter's name in one way only, and the
-- new count is the one that is read back.
pub retry_count-inc_retry_count :
    (msg : Message) (n : ℕ)
    → IsCanonical header_retry_count msg.attributes
    → retry_count (some msg) ≡ pos n
    → n + 1 < 2 ^ 63
    → ((inc_retry_count msg.attributes).1 ≡ pos (n + 1))
      × (retry_count (some (record msg { attributes = (inc_retry_count msg.attributes).0 }))
          ≡ pos (n + 1))
unfolding inc_retry_count retry_count
retry_count-inc_retry_count msg n h e k =
    rw (e, add64_exact n 1 k)
      (
        refl,
        ap parse_count
              (get-set_string_attribute msg.attributes header_retry_count (itoa (pos (n + 1))) h)
            ∙ parse_count-itoa (n + 1) k,
      )
