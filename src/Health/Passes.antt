-- ===== src/Health/Passes.antt =====
-- The count of failures in a row over the passes of the registry.
use go_mongo_boilerplate.Base.{
  ℕ, zero, suc, ◌+◌, ◌<◌, ◌≡◌, ◌≢◌, refl, ◌∙◌, true, false, [], ◌∷◌, ◌++◌, List, Option, some, inl,
  inr, arith, All, Bool-cases, Option-cases, is_some,
}
use go_mongo_boilerplate.Stdlib.Text.{Text, text_eq, text_eq→eq, text_eq_refl}
use go_mongo_boilerplate.Stdlib.Errors.{GoError}
use go_mongo_boilerplate.Stdlib.Maps.{Map, lookup, lookup-insert}
use go_mongo_boilerplate.Health.{
  Checker, Result, Registry, record_outcome, update_result, run_all, passes,
}

-- No checker has the name.
abbrev pub Unnamed : Text → List Checker → Type 0
Unnamed name = All (λ d. d.name ≢ name)

differs : (a b : Text) → a ≢ b → text_eq a b ≡ false
differs a b d = elim (Bool-cases (text_eq a b)) [
  | inl same ↦ absurd (d (text_eq→eq a b same))
  | inr other ↦ other
]

update_result-other :
    (name j : Text) (f : Result → Result) (m : Map Result)
    → name ≢ j
    → lookup j (update_result name f m) ≡ lookup j m
unfolding update_result
update_result-other name j f m d = elim (Option-cases (lookup name m)) [
  | inl absent ↦ rw (absent, update_result)
  | inr (res, found) ↦ rw (found, update_result, lookup-insert name j (f res) m, differs name j d)
]

update_result-same :
    (name : Text) (f : Result → Result) (m : Map Result) (res : Result)
    → lookup name m ≡ some res
    → lookup name (update_result name f m) ≡ some (f res)
unfolding update_result
update_result-same name f m res found =
    rw (found, update_result, lookup-insert name name (f res) m, text_eq_refl name)

module _ (check : Checker → Option GoError × ℕ) where
  run_all-other :
      (cs : List Checker) (j : Text) (m : Map Result)
      → Unnamed j cs
      → lookup j (run_all check cs m) ≡ lookup j m
  unfolding run_all
  run_all-other [] j m h = refl
  run_all-other (c ∷ cs) j m h = run_all-other cs j _ h.1 ∙ update_result-other c.name j _ m h.0

  run_all-once :
      (before after : List Checker) (c : Checker) (m : Map Result) (res : Result)
      → Unnamed c.name before
      → Unnamed c.name after
      → lookup c.name m ≡ some res
      → lookup c.name (run_all check (before ++ (c ∷ after)) m)
        ≡ some (record_outcome (check c).0 (check c).1 res)
  unfolding run_all
  run_all-once [] after c m res hb ha found =
      run_all-other after c.name _ ha
      ∙ update_result-same c.name (record_outcome (check c).0 (check c).1) m res found
  run_all-once (d ∷ before) after c m res hb ha found =
      run_all-once before after c _ res hb.1 ha (update_result-other d.name c.name _ m hb.0 ∙ found)

passes-checkers :
    (check : ℕ → Checker → Option GoError × ℕ) (n : ℕ) (r : Registry)
    → (passes check n r).checkers ≡ r.checkers
unfolding passes
passes-checkers check zero r = refl
passes-checkers check (suc n) r = passes-checkers check n r

-- A checker whose name no other has, and that fails in each of `n` passes, has `n` more failures in a
-- row on its record than before, with the severity that it had.
pub passes_failing :
    (check : ℕ → Checker → Option GoError × ℕ) (n : ℕ) (r : Registry) (before after : List Checker)
    (c : Checker) (res : Result)
    → r.checkers ≡ before ++ (c ∷ after)
    → Unnamed c.name before
    → Unnamed c.name after
    → lookup c.name r.results ≡ some res
    → ((t : ℕ) → t < n → is_some (check t c).0 ≡ true)
    → (res' : Result) × (lookup c.name (passes check n r).results ≡ some res')
      × (res'.consecutive_fails ≡ res.consecutive_fails + n)
      × (res'.severity ≡ res.severity)
unfolding passes record_outcome
passes_failing check zero r before after c res e hb ha found fails = (res, found, omega arith, refl)
passes_failing check (suc n) r before after c res e hb ha found fails =
    let (res', found', count, same) =
      passes_failing check n r before after c res e hb ha found (λ t h. fails t (omega arith)) in
    (
      record_outcome (check n c).0 (check n c).1 res',
      rw (passes-checkers check n r ∙ e)
          (run_all-once (check n) before after c _ res' hb ha found'),
      rw (fails n (omega arith)) (omega arith),
      same,
    )
