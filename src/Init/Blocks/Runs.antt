-- ===== src/Init/Blocks/Runs.antt =====
-- Runs of newlines in a text, and what collapseBlankRuns of cmd/init/stripper.go makes of them.
use go_mongo_boilerplate.Base.{
  ℕ, zero, suc, ◌+◌, ◌≡◌, ◌≢◌, refl, ap, true, false, [], ◌∷◌, ◌++◌, inl, inr, arith, leb, ◌==◌,
  Bool-cases,
}
use mathlib.Core.Path.{subst}
use mathlib.Core.List.{append-nil}
use go_mongo_boilerplate.Stdlib.Text.{Text}
use go_mongo_boilerplate.Init.Strip.{collapse_from, collapse_blank_runs}

abbrev pub newlines : ℕ → Text
newlines zero = []
newlines (suc n) = 10 ∷ newlines n

abbrev pub at_most_two : ℕ → ℕ
at_most_two zero = 0
at_most_two (suc zero) = 1
at_most_two (suc (suc n)) = 2

-- The second text is the first with each run of newlines cut to two.
pub data CutRuns : Text → Text → Type 0 where
  last : (n : ℕ) → CutRuns (newlines n) (newlines (at_most_two n))
  run :
      (n c : ℕ) (s t : Text)
      → c ≢ 10
      → CutRuns s t
      → CutRuns (newlines n ++ (c ∷ s)) (newlines (at_most_two n) ++ (c ∷ t))

newlines-cons : (n : ℕ) (s : Text) → newlines n ++ (10 ∷ s) ≡ 10 ∷ (newlines n ++ s)
newlines-cons zero s = refl
newlines-cons (suc n) s = ap (λ x. 10 ∷ x) (newlines-cons n s)

many : (k : ℕ) → leb (suc (suc k) + 1) 2 ≡ false
many k = ground arith

next : (k : ℕ) → k + 1 ≡ suc k
next k = omega arith

collapse_from-newline :
    (k : ℕ) (s : Text)
    → newlines (at_most_two k) ++ collapse_from k (10 ∷ s)
      ≡ newlines (at_most_two (suc k)) ++ collapse_from (suc k) s
unfolding collapse_from
collapse_from-newline zero s = refl
collapse_from-newline (suc zero) s = refl
collapse_from-newline (suc (suc k)) s =
    rw (many k) (ap (λ n. 10 ∷ 10 ∷ collapse_from n s) (next (suc (suc k))))

collapse_from-other :
    (k c : ℕ) (s : Text) → (c == 10) ≡ false → collapse_from k (c ∷ s) ≡ c ∷ collapse_from 0 s
unfolding collapse_from
collapse_from-other k c s h = rw h

pub ten : (c : ℕ) → (c == 10) ≡ true → 10 ≡ c
ten c h = ground arith

pub not_ten : (c : ℕ) → (c == 10) ≡ false → c ≢ 10
not_ten c h = ground arith

collapse_from-CutRuns :
    (k : ℕ) (s : Text) → CutRuns (newlines k ++ s) (newlines (at_most_two k) ++ collapse_from k s)
unfolding collapse_from
collapse_from-CutRuns k [] =
    rw (append-nil (newlines k), append-nil (newlines (at_most_two k))) (CutRuns.last k)
collapse_from-CutRuns k (c ∷ s) = elim (Bool-cases (c == 10)) [
  | inl newline ↦
      subst
        (λ x. CutRuns (newlines k ++ (x ∷ s)) (newlines (at_most_two k) ++ collapse_from k (x ∷ s)))
        (ten c newline)
        (rw (newlines-cons k s, collapse_from-newline k s) (collapse_from-CutRuns (suc k) s))
  | inr other ↦
      rw (collapse_from-other k c s other)
        (CutRuns.run k c s (collapse_from 0 s) (not_ten c other) (collapse_from-CutRuns 0 s))
]

pub collapse_blank_runs-CutRuns : (s : Text) → CutRuns s (collapse_blank_runs s)
unfolding collapse_blank_runs
collapse_blank_runs-CutRuns s = collapse_from-CutRuns 0 s
