-- ===== src/Health/Details.antt =====
-- What the detailed answer of health.go tells of the verdict.
use go_mongo_boilerplate.Base.{
  ◌≡◌, ◌≢◌, refl, ◌↔◌, false, [], ◌∷◌, Option, none, some, inl, inr, arith, All, Bool-cases,
  is_some, not, map, ap,
}
use go_mongo_boilerplate.Base.Int.{ℤ, pos, ◌≤ℤ◌}
use go_mongo_boilerplate.Stdlib.Text.{codes, text_eq}
use go_mongo_boilerplate.Stdlib.Errors.{GoError}
use go_mongo_boilerplate.Stdlib.Maps.{Map}
use go_mongo_boilerplate.Health.{
  Severity, critical, degraded, Result, Registry, CheckEntry, severity_name, check_entry, snapshot,
  detailed_readiness, readiness, ready, all_pass,
}
use go_mongo_boilerplate.Health.Readiness.{IsDown, AllUp, all_pass_iff}

-- The entry reads as a critical check that has failed too often in a row.
abbrev pub ShowsDown : ℤ → CheckEntry → Type 0
ShowsDown limit d =
    (d.severity ≡ codes "critical") × (d.ok ≡ false) × (limit ≤ℤ pos d.consecutive_fails)

severity_name_iff : (s : Severity) → (severity_name s ≡ codes "critical") ↔ (s ≡ critical)
unfolding severity_name text_eq
severity_name_iff critical = ((λ e. refl), (λ e. refl))
severity_name_iff degraded =
    ((λ e. absurd (cc (ap (λ x. text_eq x (codes "critical")) e))), (λ e. absurd (cc e)))

ok_iff : (err : Option GoError) → (not (is_some err) ≡ false) ↔ (err ≢ none)
ok_iff none = ((λ e. absurd (cc)), (λ d. absurd (d refl)))
ok_iff (some e) = ((λ k. (λ h. cc)), (λ d. refl))

check_entry-ShowsDown :
    (limit : ℤ) (res : Result) → ShowsDown limit (check_entry res) ↔ IsDown limit res
unfolding check_entry
check_entry-ShowsDown limit res = (
  (λ h. ((severity_name_iff res.severity).0 h.0, (ok_iff res.err).0 h.1, h.2)),
  (λ h. ((severity_name_iff res.severity).1 h.0, (ok_iff res.err).1 h.1, h.2)),
)

entries_iff :
    (limit : ℤ) (m : Map Result)
    → AllUp limit m ↔ All (λ d. ¬ ShowsDown limit d) (map check_entry (map (λ e. e.1) m))
entries_iff limit [] = ((λ h. tt), (λ h. tt))
entries_iff limit ((k, res) ∷ m) = (
  (λ h. ((λ d. h.0 ((check_entry-ShowsDown limit res).0 d)), (entries_iff limit m).0 h.1)),
  (λ h. ((λ d. h.0 ((check_entry-ShowsDown limit res).1 d)), (entries_iff limit m).1 h.1)),
)

-- The detailed answer has the status of the plain one. Where no pass comes between the snapshot and the
-- verdict, it is 200 exactly if no entry of the answer reads as a critical check that is not ok and has
-- failed as often in a row as the limit says, or more.
pub detailed_readiness_iff :
    (shown r : Registry)
    → ((detailed_readiness shown r).0 ≡ (readiness r).0)
      × (((detailed_readiness r r).0 ≡ 200)
          ↔ All (λ d. ¬ ShowsDown r.failure_limit d) (detailed_readiness r r).2)
unfolding detailed_readiness readiness ready snapshot
detailed_readiness_iff shown r = elim (Bool-cases (all_pass r.failure_limit r.results)) [
  | inl up ↦ rw up (
    refl,
    (
      (λ h.
          (entries_iff r.failure_limit r.results).0
            ((all_pass_iff r.failure_limit r.results).0 up)),
      (λ h. refl),
    ),
  )
  | inr down ↦ rw down (
    refl,
    (
      (λ h. absurd (omega arith)),
      (λ h. absurd (
          cc (
            down,
            (all_pass_iff r.failure_limit r.results).1
                ((entries_iff r.failure_limit r.results).1 h),
          ))),
    ),
  )
]
