-- ===== src/Health/Readiness.antt =====
-- When a service is ready, and how many failed passes it takes to lose that.
use go_mongo_boilerplate.Base.{
  ◌≡◌, refl, ◌↔◌, ◌≢◌, true, ◌&&◌, [], ◌∷◌, Option, none, some, inl, inr, arith, All, Bool-cases,
  is_some,
}
use go_mongo_boilerplate.Base.Int.{ℤ, pos, ◌≤ℤ◌, leb_ℤ}
use go_mongo_boilerplate.Stdlib.Errors.{GoError}
use go_mongo_boilerplate.Stdlib.Maps.{Map}
use go_mongo_boilerplate.Health.{
  Severity, critical, degraded, Result, Registry, trips, all_pass, ready, readiness, is_critical,
}

-- The result of a critical checker that has failed too often in a row.
abbrev pub IsDown : ℤ → Result → Type 0
IsDown limit res =
    (res.severity ≡ critical) × (res.err ≢ none) × (limit ≤ℤ pos res.consecutive_fails)

-- No entry is one of those.
abbrev pub AllUp : ℤ → Map Result → Type 0
AllUp limit = All (λ e. ¬ IsDown limit e.1)

trips_iff : (limit : ℤ) (res : Result) → (trips limit res ≡ true) ↔ IsDown limit res
unfolding trips
trips_iff limit res = iff res.severity res.err
  where
    iff :
        (s : Severity) (err : Option GoError)
        → ((is_critical s && (is_some err && leb_ℤ limit (pos res.consecutive_fails))) ≡ true)
          ↔ ((s ≡ critical) × (err ≢ none) × (limit ≤ℤ pos res.consecutive_fails))
    iff critical none = ((λ h. absurd (cc)), (λ h. absurd (h.1 refl)))
    iff critical (some e) = ((λ h. (refl, (λ k. cc), ground arith)), (λ h. ground arith))
    iff degraded err = ((λ h. absurd (cc)), (λ h. absurd (cc (h.0))))

pub all_pass_iff : (limit : ℤ) (m : Map Result) → (all_pass limit m ≡ true) ↔ AllUp limit m
unfolding all_pass
all_pass_iff limit [] = ((λ h. tt), (λ h. refl))
all_pass_iff limit ((k, res) ∷ m) = elim (Bool-cases (trips limit res)) [
  | inl down ↦ rw down ((λ h. absurd (cc)), (λ h. absurd (h.0 ((trips_iff limit res).0 down))))
  | inr up ↦ rw up (
    (λ h. ((λ d. absurd (cc (up, (trips_iff limit res).1 d))), (all_pass_iff limit m).0 h)),
    (λ h. (all_pass_iff limit m).1 h.1),
  )
]

-- The endpoint answers 200 exactly if no critical checker has an error now and has failed as often in a
-- row as the limit says, or more; failures of degraded checkers never matter.
pub readiness_iff : (r : Registry) → ((readiness r).0 ≡ 200) ↔ AllUp r.failure_limit r.results
unfolding readiness ready
readiness_iff r = elim (Bool-cases (all_pass r.failure_limit r.results)) [
  | inl passes ↦ rw passes ((λ h. (all_pass_iff r.failure_limit r.results).0 passes), (λ h. refl))
  | inr fails ↦ rw fails (
    (λ h. absurd (omega arith)),
    (λ h. absurd (cc (fails, (all_pass_iff r.failure_limit r.results).1 h))),
  )
]
