-- ===== src/Kafka/Routing.antt =====
-- internal/platform/kafka/route.go: what happens to a record after its handler.
use go_mongo_boilerplate.Base.{
  ◌≡◌, ◌↔◌, true, false, ◌||◌, Option, none, some, arith, some_inj, refl, if◌then◌else◌,
}
use go_mongo_boilerplate.Base.Int.{ℤ, leb_ℤ}
use go_mongo_boilerplate.Stdlib.Text.{Text, codes}
use go_mongo_boilerplate.Stdlib.Errors.{GoError, is_error, is_error?, canceled}

pub data Route : Type 0 where
  commit retry dlq drop : Route

-- The text of the sentinel `ErrNonRetryable`.
abbrev pub err_non_retryable : Text
err_non_retryable = codes "kafka: non-retryable handler error"

unfoldable pub decide_route : Option GoError → ℤ → ℤ → Route
decide_route none retry_count max_retries = commit
decide_route (some err) retry_count max_retries =
    if is_error err canceled
    then drop
    else if is_error err err_non_retryable || leb_ℤ max_retries retry_count
    then dlq
    else retry

-- The only way to the retry topic is an error that is neither a cancellation nor non-retryable, with
-- the budget not spent; a cancellation always drops, even if it is non-retryable as well.
pub decide_route-eq-retry :
    (err : Option GoError) (n max : ℤ)
    → ((decide_route err n max ≡ retry) ↔ (
        (e : GoError) × (err ≡ some e)
        × (is_error e canceled ≡ false)
        × (is_error e err_non_retryable ≡ false)
        × (leb_ℤ max n ≡ false)))
      × ((decide_route err n max ≡ drop) ↔ (is_error? err canceled ≡ true))
unfolding decide_route
decide_route-eq-retry none n max =
    (((λ h. absurd (cc)), (λ h. absurd (cc (h.1)))), ((λ h. absurd (cc)), (λ h. absurd (cc))))
decide_route-eq-retry (some e) n max = (
  (
    (λ h. (e, refl, ground arith, ground arith, ground arith)),
    (λ h.
        let same = some_inj h.1 in
        let c : is_error e canceled ≡ false = cc (same, h.2) in
        let n' : is_error e err_non_retryable ≡ false = cc (same, h.3) in rw (c, n', h.4) refl),
  ),
  ground arith,
)
