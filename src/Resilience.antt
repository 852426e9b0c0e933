-- ===== src/Resilience.antt =====
-- internal/platform/resilience: the registry of circuit breakers, and the settings of a retry. Durations
-- are nanoseconds; a breaker is what it is made with, and `kind` is the type that it is made for.
use go_mongo_boilerplate.Base.{
  ℕ, ◌+◌, ◌-◌, ◌/◌, Bool, true, false, List, [], ◌∷◌, Option, none, some, ◌==◌, if◌then◌else◌,
}
use go_mongo_boilerplate.Base.Int.{ℤ, pos, negsuc, leb_ℤ}
use go_mongo_boilerplate.Stdlib.Text.{Text, text_eq}
use go_mongo_boilerplate.Stdlib.Maps.{Map, lookup, insert}
pub mod Jitter
mod Tests

pub record BreakerConfig : Type 0 where
  pub name : Text
  pub max_requests : ℕ
  pub interval : ℤ
  pub timeout : ℤ
  pub failure_threshold : ℕ

unfoldable pub default_breaker : Text → BreakerConfig
default_breaker name = record {
  name = name;
  max_requests = 1;
  interval = pos 60000000000;
  timeout = pos 60000000000;
  failure_threshold = 5;
}

-- `made` tells the breakers of a registry apart.
pub record CircuitBreaker : Type 0 where
  pub kind : Text
  pub made : ℕ
  pub max_requests : ℕ
  pub interval : ℤ
  pub timeout : ℤ
  pub trips_at : ℕ

pub record BreakerRegistry : Type 0 where
  pub breakers : Map CircuitBreaker
  pub made : ℕ

unfoldable pub new_registry : BreakerRegistry
new_registry = record { breakers = []; made = 0 }

-- The timeout with its jitter; `int63n` is `rand.Int63n`, which panics, here `none`, for zero.
unfoldable pub jittered : (ℕ → ℕ) → ℤ → Option ℤ
jittered int63n (negsuc n) = some (negsuc n)
jittered int63n (pos timeout) =
    if timeout == 0
    then some (pos 0)
    else if timeout / 5 == 0
    then none
    else some (pos (timeout - timeout / 10 + int63n (timeout / 5)))

unfoldable pub threshold_or_default : ℕ → ℕ
threshold_or_default threshold = if threshold == 0 then 5 else threshold

-- A panic leaves no breaker.
unfoldable pub make_breaker :
    Text → BreakerConfig → Option ℤ → BreakerRegistry → Option CircuitBreaker × BreakerRegistry
unfolding threshold_or_default
make_breaker kind cfg none r = (none, r)
make_breaker kind cfg (some timeout) r =
    let cb : CircuitBreaker = record {
      kind = kind;
      made = r.made;
      max_requests = cfg.max_requests;
      interval = cfg.interval;
      timeout = timeout;
      trips_at = threshold_or_default cfg.failure_threshold;
    } in
    (some cb, record { breakers = insert cfg.name cb r.breakers; made = r.made + 1 })

-- The assertion that a breaker found is of the type asked for; it panics if not.
unfoldable pub asserted : Text → CircuitBreaker → Option CircuitBreaker
unfolding text_eq
asserted kind cb = if text_eq cb.kind kind then some cb else none

unfoldable pub found_or_made :
    (ℕ → ℕ)
    → Text
    → BreakerConfig
    → Option CircuitBreaker
    → BreakerRegistry
    → Option CircuitBreaker × BreakerRegistry
unfolding asserted make_breaker jittered
found_or_made int63n kind cfg (some cb) r = (asserted kind cb, r)
found_or_made int63n kind cfg none r = make_breaker kind cfg (jittered int63n cfg.timeout) r

-- Under the lock; the look-up before it finds what this one would.
unfoldable pub breaker :
    (ℕ → ℕ) → Text → BreakerConfig → BreakerRegistry → Option CircuitBreaker × BreakerRegistry
unfolding found_or_made lookup
breaker int63n kind cfg r = found_or_made int63n kind cfg (lookup cfg.name r.breakers) r

pub record RetryConfig : Type 0 where
  pub max_tries : ℕ
  pub initial_interval : ℤ
  pub max_interval : ℤ
  pub max_elapsed_time : ℤ

unfoldable pub default_retry : RetryConfig
default_retry = record {
  max_tries = 3;
  initial_interval = pos 100000000;
  max_interval = pos 2000000000;
  max_elapsed_time = pos 30000000000;
}

-- The options that `Do` hands to the library, whose own intervals are `none` here.
pub record RetryOptions : Type 0 where
  pub initial_interval : Option ℤ
  pub max_interval : Option ℤ
  pub max_tries : ℕ
  pub max_elapsed_time : ℤ

unfoldable pub retry_options : RetryConfig → RetryOptions
retry_options cfg = record {
  initial_interval = if leb_ℤ cfg.initial_interval (pos 0) then none else some cfg.initial_interval;
  max_interval = if leb_ℤ cfg.max_interval (pos 0) then none else some cfg.max_interval;
  max_tries = cfg.max_tries;
  max_elapsed_time = cfg.max_elapsed_time;
}
