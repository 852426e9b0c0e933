-- ===== src/Sqs/Routing.antt =====
-- internal/platform/sqs/routing.go and errors.go: what happens to a message after its handler.
use go_mongo_boilerplate.Base.{
  ◌≡◌, ◌≢◌, ◌↔◌, ◌⊎◌, true, false, Option, none, some, arith, if◌then◌else◌,
}
use go_mongo_boilerplate.Base.Int.{ℤ, leb_ℤ, ◌≤ℤ◌, ◌<ℤ◌}
use go_mongo_boilerplate.Stdlib.Text.{Text, codes}
use go_mongo_boilerplate.Stdlib.Errors.{GoError, is_error, is_error?, canceled}

pub data Route : Type 0 where
  commit drop retry dlq : Route

-- The texts of the sentinels `ErrNonRetryable` and `ErrTooManyAttributes`.
abbrev pub err_non_retryable : Text
err_non_retryable = codes "sqs: non-retryable handler error"

abbrev pub err_too_many_attributes : Text
err_too_many_attributes = codes "sqs: too many message attributes"

unfoldable pub decide_route : Option GoError → ℤ → ℤ → Route
decide_route none retry_count max_retries = commit
decide_route (some err) retry_count max_retries =
    if is_error err canceled
    then drop
    else if is_error err err_non_retryable
    then dlq
    else if leb_ℤ max_retries retry_count
    then dlq
    else retry

-- A message is committed exactly if its handler succeeded, dropped exactly if the error is a
-- cancellation, goes to the dead-letter queue exactly if the error is another one that is
-- non-retryable or comes with the retry budget spent, and is retried in all other cases.
pub decide_route_iff :
    (err : Option GoError) (n max : ℤ)
    → ((decide_route err n max ≡ commit) ↔ (err ≡ none))
      × ((decide_route err n max ≡ drop) ↔ (is_error? err canceled ≡ true))
      × ((decide_route err n max ≡ dlq) ↔ (
          (err ≢ none)
          × (is_error? err canceled ≡ false)
          × ((is_error? err err_non_retryable ≡ true) ⊎ (max ≤ℤ n))))
      × ((decide_route err n max ≡ retry) ↔ (
          (err ≢ none)
          × (is_error? err canceled ≡ false)
          × (is_error? err err_non_retryable ≡ false)
          × (n <ℤ max)))
unfolding decide_route
decide_route_iff none n max = ground arith
decide_route_iff (some e) n max = ground arith

pub decide_route-ne-commit : (e : GoError) (n max : ℤ) → decide_route (some e) n max ≢ commit
unfolding decide_route
decide_route-ne-commit e n max = ground arith
