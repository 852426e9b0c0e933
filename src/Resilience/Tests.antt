-- ===== src/Resilience/Tests.antt =====
-- A breaker of a registry, and the theorems applied to it.
use go_mongo_boilerplate.Base.{ℕ, ◌+◌, ◌/◌, ◌≤◌, ◌≡◌, some, arith}
use go_mongo_boilerplate.Base.Int.{pos}
use go_mongo_boilerplate.Stdlib.Text.{Text, codes}
use go_mongo_boilerplate.Resilience.{CircuitBreaker, jittered}
use go_mongo_boilerplate.Resilience.Jitter.{jittered_bounds}

abbrev half : ℕ → ℕ
half n = n / 2

jittered_bounds_example :
    (t : ℕ) × (jittered half (pos 60000000000) ≡ some (pos t))
    × (60000000000 ≤ t + 60000000000 / 10)
    × (t ≤ 60000000000 + 60000000000 / 10)
jittered_bounds_example = jittered_bounds half 60000000000 (omega arith) (omega arith)

abbrev name : Text
name = codes "mail"

abbrev cb : CircuitBreaker
cb = record {
  kind = codes "string";
  made = 0;
  max_requests = 1;
  interval = pos 60000000000;
  timeout = pos 60000000000;
  trips_at = 5;
}
