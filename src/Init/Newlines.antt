-- ===== src/Init/Newlines.antt =====
-- The newlines of a stripped file.
use Prim.Native.Nat.{min}
use mathlib.Core.Path.{subst}
use go_mongo_boilerplate.Base.{
  ℕ, ◌+◌, ◌≤◌, ◌≡◌, refl, true, [], ◌∷◌, inl, inr, arith, leb, ◌==◌, Bool-cases, if◌then◌else◌,
}
use go_mongo_boilerplate.Stdlib.Text.{Text}
use go_mongo_boilerplate.Init.Strip.{collapse_from, collapse_blank_runs}

-- No more than two newlines stand in a row, where `streak` of them stand before the text.
unfoldable pub IsTight : ℕ → Text → Type 0
IsTight streak [] = Unit
IsTight streak (c ∷ s) = if c == 10 then (streak + 1 ≤ 2) × IsTight (streak + 1) s else IsTight 0 s

collapse_from-IsTight : (streak : ℕ) (s : Text) → IsTight (min streak 2) (collapse_from streak s)
unfolding collapse_from IsTight
collapse_from-IsTight streak [] = tt
collapse_from-IsTight streak (c ∷ s) = elim (Bool-cases (c == 10)) [
  | inr other ↦
      rw (other, collapse_from)
        (rw (other, IsTight)
          (subst (λ n. IsTight n (collapse_from 0 s)) (omega arith) (collapse_from-IsTight 0 s)))
  | inl newline ↦ elim (Bool-cases (leb (streak + 1) 2)) [
    | inl fits ↦
        rw (newline, collapse_from, fits)
          (rw (newline, IsTight)
            (
              ground arith,
              subst (λ n. IsTight n (collapse_from (streak + 1) s)) (ground arith)
                  (collapse_from-IsTight (streak + 1) s),
            ))
    | inr long ↦
        rw (newline, collapse_from, long)
          (subst (λ n. IsTight n (collapse_from (streak + 1) s)) (ground arith)
            (collapse_from-IsTight (streak + 1) s))
  ]
]

collapse_from_tight : (streak : ℕ) (s : Text) → IsTight streak s → collapse_from streak s ≡ s
unfolding collapse_from IsTight
collapse_from_tight streak [] h = refl
collapse_from_tight streak (c ∷ s) h = elim (Bool-cases (c == 10)) [
  | inr other ↦
      let t : IsTight 0 s = rw other at h in rw (other, collapse_from, collapse_from_tight 0 s t)
  | inl newline ↦
      let t : (streak + 1 ≤ 2) × IsTight (streak + 1) s = rw newline at h in
      let fits : leb (streak + 1) 2 ≡ true = ground (arith, t.0) in
      rw (newline, collapse_from, fits, collapse_from_tight (streak + 1) s t.1)
]

-- In a collapsed text no three newlines stand in a row, and to collapse it again changes nothing.
pub collapse_blank_runs-IsTight :
    (b : Text)
    → IsTight 0 (collapse_blank_runs b)
      × (collapse_blank_runs (collapse_blank_runs b) ≡ collapse_blank_runs b)
unfolding collapse_blank_runs
collapse_blank_runs-IsTight b =
    let t = subst (λ n. IsTight n (collapse_from 0 b)) (omega arith) (collapse_from-IsTight 0 b) in
    (t, collapse_from_tight 0 (collapse_from 0 b) t)
