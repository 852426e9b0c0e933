-- ===== src/Worker/Ready.antt =====
-- The readiness of the worker: what the checks of its registry can do to it.
use go_mongo_boilerplate.Base.{
  ℕ, suc, zero, ◌≡◌, inl, inr, refl, ◌∙◌, ap, sym, Bool, true, false, List, [], ◌∷◌, Option, none,
  some, All, Bool-cases, Option-cases, some_inj, if◌then◌else◌,
}
use mathlib.Core.Path.{subst}
use go_mongo_boilerplate.Base.Int.{ℤ}
use go_mongo_boilerplate.Stdlib.Text.{Text, codes, text_eq}
use go_mongo_boilerplate.Stdlib.Errors.{GoError}
use go_mongo_boilerplate.Stdlib.Maps.{Map, lookup, insert}
use go_mongo_boilerplate.Health.{
  Checker, Result, Registry, new_registry, register, passes, run_all, update_result, record_outcome,
  ready, all_pass, trips, is_critical, readiness,
}
use go_mongo_boilerplate.Worker.{provide_health_registry, kafka_checker, sqs_checker}

-- No result is that of a critical checker.
abbrev NoneCritical : Map Result → Type 0
NoneCritical = All (λ p. is_critical p.1.severity ≡ false)

insert-NoneCritical :
    (k : Text) (res : Result) (m : Map Result)
    → is_critical res.severity ≡ false
    → NoneCritical m
    → NoneCritical (insert k res m)
unfolding insert
insert-NoneCritical k res [] h hm = (h, tt)
insert-NoneCritical k res ((j, w) ∷ m) h hm = elim (Bool-cases (text_eq j k)) [
  | inl same ↦ rw (same, All) (h, hm.1)
  | inr other ↦ rw (other, All) (hm.0, insert-NoneCritical k res m h hm.1)
]

abbrev updated : Text → Option GoError → ℕ → Map Result → Option Result → Map Result
updated k err now m o = elim o [ none ↦ m | some res ↦ insert k (record_outcome err now res) m ]

either_way :
    (w res : Result) (o : Option Result) (b : Bool)
    → (if b then some w else o) ≡ some res
    → is_critical w.severity ≡ false
    → (o ≡ some res → is_critical res.severity ≡ false)
    → is_critical res.severity ≡ false
either_way w res o true e here later = ap (λ r. is_critical r.severity) (sym (some_inj e)) ∙ here
either_way w res o false e here later = later e

lookup-NoneCritical :
    (k : Text) (m : Map Result) (res : Result)
    → NoneCritical m
    → lookup k m ≡ some res
    → is_critical res.severity ≡ false
unfolding lookup
lookup-NoneCritical k [] res hm e = absurd (cc)
lookup-NoneCritical k ((j, w) ∷ m) res hm e =
    either_way w res (lookup k m) (text_eq j k) e hm.0 (lookup-NoneCritical k m res hm.1)

update_result-NoneCritical :
    (k : Text) (err : Option GoError) (now : ℕ) (m : Map Result)
    → NoneCritical m
    → NoneCritical (update_result k (record_outcome err now) m)
unfolding update_result record_outcome
update_result-NoneCritical k err now m hm = elim (Option-cases (lookup k m)) [
  | inl absent ↦ subst NoneCritical (sym (ap (updated k err now m) absent)) hm
  | inr (res, found) ↦ subst NoneCritical (sym (ap (updated k err now m) found)) (
      insert-NoneCritical k (record_outcome err now res) m (lookup-NoneCritical k m res hm found)
        hm)
]

run_all-NoneCritical :
    (outcome : Checker → Option GoError × ℕ) (cs : List Checker) (m : Map Result)
    → NoneCritical m
    → NoneCritical (run_all outcome cs m)
unfolding run_all
run_all-NoneCritical outcome [] m hm = hm
run_all-NoneCritical outcome (c ∷ cs) m hm =
    run_all-NoneCritical outcome cs _
      (update_result-NoneCritical c.name (outcome c).0 (outcome c).1 m hm)

passes-NoneCritical :
    (outcome : ℕ → Checker → Option GoError × ℕ) (n : ℕ) (r : Registry)
    → NoneCritical r.results
    → NoneCritical (passes outcome n r).results
unfolding passes
passes-NoneCritical outcome zero r h = h
passes-NoneCritical outcome (suc n) r h =
    run_all-NoneCritical (outcome n) (passes outcome n r).checkers (passes outcome n r).results
      (passes-NoneCritical outcome n r h)

all_pass-NoneCritical : (limit : ℤ) (m : Map Result) → NoneCritical m → all_pass limit m ≡ true
unfolding all_pass trips
all_pass-NoneCritical limit [] h = refl
all_pass-NoneCritical limit ((k, res) ∷ m) h = rw h.0 (all_pass-NoneCritical limit m h.1)

provided-NoneCritical :
    (queue_url : Text) → NoneCritical (provide_health_registry queue_url).results
unfolding provide_health_registry register new_registry insert kafka_checker sqs_checker text_eq
provided-NoneCritical [] = (refl, tt)
provided-NoneCritical (c ∷ queue_url) = (refl, (refl, tt))

-- Whatever the checks of the worker say, in any number of passes, its readiness endpoint answers 200: both
-- of its checkers are degraded ones.
pub worker_ready :
    (queue_url : Text) (outcome : ℕ → Checker → Option GoError × ℕ) (n : ℕ)
    → readiness (passes outcome n (provide_health_registry queue_url)) ≡ (200, codes "ok")
unfolding readiness ready
worker_ready queue_url outcome n = rw (
    all_pass-NoneCritical _ _ (
      passes-NoneCritical outcome n (provide_health_registry queue_url)
        (provided-NoneCritical queue_url)))
