-- ===== src/Health.antt =====
-- internal/platform/health: the registry of health checks with its cached results (health.go), and the
-- heartbeat checkers (kafka_checker.go, sqs_checker.go).
pub mod Readiness
pub mod Details
pub mod Heartbeat
pub mod Passes
mod Tests
use go_mongo_boilerplate.Base.{
  ℕ, zero, suc, ◌+◌, Bool, true, false, ◌&&◌, not, List, [], ◌∷◌, ◌++◌, Option, none, some, is_some,
  if◌then◌else◌, map,
}
use go_mongo_boilerplate.Base.Int.{ℤ, pos, leb_ℤ}
use go_mongo_boilerplate.Stdlib.Text.{Text, codes}
use go_mongo_boilerplate.Stdlib.Errors.{GoError, error_text}
use go_mongo_boilerplate.Stdlib.Maps.{Map, lookup, insert}

pub data Severity : Type 0 where
  critical degraded : Severity

-- The values of a `Checker` that do not change; its `Check` is a parameter of the run.
pub record Checker : Type 0 where
  pub name : Text
  pub severity : Severity

-- `Result`; the moment of the last run in nanoseconds, 0 before it.
pub record Result : Type 0 where
  pub name : Text
  pub severity : Severity
  pub err : Option GoError
  pub updated_at : ℕ
  pub consecutive_fails : ℕ

-- `Registry` with what the calls read and write; `started` is left out, since only `Start` uses it.
pub record Registry : Type 0 where
  pub checkers : List Checker
  pub failure_limit : ℤ
  pub results : Map Result

-- `NewRegistry` with the limit that the options leave.
unfoldable pub new_registry : ℤ → Registry
new_registry limit = record { checkers = []; failure_limit = limit; results = [] }

abbrev pub fresh_result : Checker → Result
fresh_result c = record {
  name = c.name;
  severity = c.severity;
  err = none;
  updated_at = 0;
  consecutive_fails = 0;
}

unfoldable pub register : Registry → Checker → Registry
register r c = record r {
  checkers = r.checkers ++ (c ∷ []);
  results = insert c.name (fresh_result c) r.results;
}

-- The update of one result under the lock.
unfoldable pub record_outcome : Option GoError → ℕ → Result → Result
record_outcome err now res = record res {
  err = err;
  updated_at = now;
  consecutive_fails = if is_some err then res.consecutive_fails + 1 else 0;
}

-- The result that the map holds under the name is updated through its pointer.
unfoldable pub update_result : Text → (Result → Result) → Map Result → Map Result
update_result name f m = elim (lookup name m) [ none ↦ m | some res ↦ insert name (f res) m ]

-- One pass over the checkers. `check` is the outcome of `Check` in this pass, with its moment.
unfoldable pub run_all : (Checker → Option GoError × ℕ) → List Checker → Map Result → Map Result
unfolding update_result record_outcome
run_all check [] m = m
run_all check (c ∷ cs) m =
    run_all check cs (update_result c.name (record_outcome (check c).0 (check c).1) m)

abbrev pub is_critical : Severity → Bool
is_critical critical = true
is_critical degraded = false

-- Whether a result makes `ready` return false.
unfoldable pub trips : ℤ → Result → Bool
trips limit res =
    is_critical res.severity && (is_some res.err && leb_ℤ limit (pos res.consecutive_fails))

unfoldable pub all_pass : ℤ → Map Result → Bool
all_pass limit [] = true
all_pass limit ((k, res) ∷ m) = if trips limit res then false else all_pass limit m

unfoldable pub ready : Registry → Bool
unfolding all_pass trips
ready r = all_pass r.failure_limit r.results

-- The status and the text of `Readiness`.
unfoldable pub readiness : Registry → ℕ × Text
readiness r = if ready r then (200, codes "ok") else (503, codes "not_ready")

-- An entry of the detailed answer, with its moment before it is formatted.
pub record CheckEntry : Type 0 where
  pub name : Text
  pub severity : Text
  pub ok : Bool
  pub consecutive_fails : ℕ
  pub updated_at : ℕ
  pub error : Option Text

unfoldable pub severity_name : Severity → Text
severity_name critical = codes "critical"
severity_name degraded = codes "degraded"

unfoldable pub check_entry : Result → CheckEntry
unfolding severity_name
check_entry res = record {
  name = res.name;
  severity = severity_name res.severity;
  ok = not (is_some res.err);
  consecutive_fails = res.consecutive_fails;
  updated_at = res.updated_at;
  error = elim res.err [ none ↦ none | some e ↦ some (error_text e) ];
}

-- The cached results, in the order in which Go walks the map.
unfoldable pub snapshot : Registry → List Result
snapshot r = map (λ e. e.1) r.results

-- The status, the text and the entries of `DetailedReadiness`. The lock is released between the
-- snapshot, of the registry `shown`, and the verdict, on the registry `r`.
unfoldable pub detailed_readiness : Registry → Registry → ℕ × Text × List CheckEntry
unfolding snapshot check_entry
detailed_readiness shown r =
    let checks = map check_entry (snapshot shown) in
    if ready r then (200, codes "ok", checks) else (503, codes "not_ready", checks)

-- The passes that `Start` makes, one after the other; `check t` is what the checks say in pass `t`.
unfoldable pub passes : (ℕ → Checker → Option GoError × ℕ) → ℕ → Registry → Registry
unfolding run_all
passes check zero r = r
passes check (suc n) r =
    let r' = passes check n r in record r' { results = run_all (check n) r'.checkers r'.results }
