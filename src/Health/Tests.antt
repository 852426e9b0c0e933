-- ===== src/Health/Tests.antt =====
-- Runs of the health registry and of a heartbeat checker, and the theorems applied to them.
use go_mongo_boilerplate.Base.{All, ℕ, ◌+◌, ◌≡◌, ◌↔◌, refl, Option, some}
use go_mongo_boilerplate.Base.Int.{pos}
use go_mongo_boilerplate.Stdlib.Text.{codes, text_eq}
use go_mongo_boilerplate.Stdlib.Errors.{GoError, plain}
use go_mongo_boilerplate.Stdlib.Maps.{lookup, insert}
use go_mongo_boilerplate.Health.{
  detailed_readiness, critical, degraded, Checker, Registry, new_registry, register, passes, ready,
  readiness,
}
use go_mongo_boilerplate.Health.Readiness.{AllUp, readiness_iff}
use go_mongo_boilerplate.Health.Details.{ShowsDown, detailed_readiness_iff}

abbrev mongo : Checker
mongo = record { name = codes "mongo"; severity = critical }

abbrev kafka : Checker
kafka = record { name = codes "kafka"; severity = degraded }

abbrev registry : Registry
registry = register (register (new_registry (pos 3)) mongo) kafka

abbrev failing : ℕ → Checker → Option GoError × ℕ
failing t c = (some (plain (codes "down")), t + 1)

readiness_iff_example :
    ((readiness (passes failing 3 registry)).0 ≡ 200)
    ↔ AllUp (passes failing 3 registry).failure_limit (passes failing 3 registry).results
readiness_iff_example = readiness_iff (passes failing 3 registry)

detailed_readiness_iff_example :
    ((detailed_readiness registry (passes failing 3 registry)).0
      ≡ (readiness (passes failing 3 registry)).0)
    × (((detailed_readiness (passes failing 3 registry) (passes failing 3 registry)).0 ≡ 200)
        ↔ All
            (λ d. ¬ ShowsDown (passes failing 3 registry).failure_limit d)
            (detailed_readiness (passes failing 3 registry) (passes failing 3 registry)).2)
detailed_readiness_iff_example = detailed_readiness_iff registry (passes failing 3 registry)

readiness_tests :
    ((readiness (passes failing 2 registry)).0 ≡ 200)
    × ((readiness (passes failing 3 registry)).0 ≡ 503)
unfolding readiness ready passes register new_registry insert lookup text_eq
readiness_tests = (refl, refl)
