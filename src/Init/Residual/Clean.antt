-- ===== src/Init/Residual/Clean.antt =====
-- No marker is left in what is written.
use go_mongo_boilerplate.Base.{
  ℕ, ◌≡◌, refl, ◌∙◌, ap, sym, Bool, true, false, ◌&&◌, ◌||◌, List, [], ◌∷◌, ◌++◌, Option, none,
  some, All, ◌==◌, if◌then◌else◌, arith, Bool-cases, ◌⊎◌, inl, inr, some_inj, not, ==_iff,
  and-eq-true,
}
use go_mongo_boilerplate.Stdlib.Text.{Text, codes, Lacks}
use go_mongo_boilerplate.Stdlib.Search.{last?, drop_last, scan_lines}
use go_mongo_boilerplate.Init.Strip.{fit_end}
use go_mongo_boilerplate.Init.Residual.{
  cut_prefix, is_name_char, name_then_end, marker_tail, starts, is_marked, unmarked_lines,
  join_lines, strip_residual,
}

abbrev starts_of : Option Text → Bool
starts_of o = elim o [ none ↦ false | some _ ↦ true ]

or_eq : {p q r s : Bool} → p ≡ r → q ≡ s → (p || q) ≡ (r || s)
or_eq e f = cc

and_eq : {p q : Bool} (b : Bool) → p ≡ q → (b && p) ≡ (b && q)
and_eq b e = cc

if_eq : {p q r s : Bool} (b : Bool) → p ≡ q → r ≡ s → (if b then p else r) ≡ (if b then q else s)
if_eq b e f = cc

only_if : {x out : Text} (b : Bool) → (if b then some x else none) ≡ some out → x ≡ out
only_if true h = some_inj h
only_if false h = absurd (cc)

abbrev onto : Text → Option Text → Option Text
onto r none = none
onto r (some s) = some (s ++ (b'\n' ∷ r))

cut_prefix-append :
    (p l r : Text) → Lacks b'\n' p → cut_prefix p (l ++ (b'\n' ∷ r)) ≡ onto r (cut_prefix p l)
unfolding cut_prefix
cut_prefix-append [] l r h = refl
cut_prefix-append (p ∷ ps) [] r h = ground (arith, h.0)
cut_prefix-append (p ∷ ps) (c ∷ l) r h = elim (Bool-cases (p == c)) [
  | inl same ↦ rw same (cut_prefix-append ps l r h.1)
  | inr other ↦ rw other
]

starts-onto : (o : Option Text) (r : Text) → starts_of (onto r o) ≡ starts_of o
starts-onto none r = refl
starts-onto (some s) r = refl

starts-append : (p l r : Text) → Lacks b'\n' p → starts p (l ++ (b'\n' ∷ r)) ≡ starts p l
starts-append p l r h = ap starts_of (cut_prefix-append p l r h) ∙ starts-onto (cut_prefix p l) r

Lacks-start : Lacks b'\n' (codes ":start")
Lacks-start = (
  ground arith,
  (ground arith, (ground arith, (ground arith, (ground arith, (ground arith, tt))))),
)

Lacks-end : Lacks b'\n' (codes ":end")
Lacks-end = (ground arith, (ground arith, (ground arith, (ground arith, tt))))

Lacks-feature : Lacks b'\n' (codes "feature:")
Lacks-feature = (
  ground arith,
  (
    ground arith,
    (
      ground arith,
      (ground arith, (ground arith, (ground arith, (ground arith, (ground arith, tt))))),
    ),
  ),
)

name_then_end-append :
    (seen : Bool) (l r : Text) → name_then_end seen (l ++ (b'\n' ∷ r)) ≡ name_then_end seen l
unfolding name_then_end is_name_char cut_prefix
name_then_end-append true [] r = refl
name_then_end-append false [] r = refl
name_then_end-append seen (c ∷ l) r = if_eq (is_name_char c) (name_then_end-append true l r) (
    and_eq seen (
      or_eq (starts-append (codes ":start") (c ∷ l) r Lacks-start)
        (starts-append (codes ":end") (c ∷ l) r Lacks-end)))

marker_tail-onto : (o : Option Text) (r : Text) → marker_tail (onto r o) ≡ marker_tail o
marker_tail-onto none r = refl
marker_tail-onto (some s) r = name_then_end-append false s r

or_assoc : (a b c : Bool) → (a || (b || c)) ≡ ((a || b) || c)
or_assoc a b c = ground arith

-- A line break ends what a marker can match.
is_marked-append : (l r : Text) → is_marked (l ++ (b'\n' ∷ r)) ≡ (is_marked l || is_marked r)
unfolding is_marked cut_prefix
is_marked-append [] r = refl
is_marked-append (c ∷ l) r =
    or_eq
      (ap marker_tail (cut_prefix-append (codes "feature:") (c ∷ l) r Lacks-feature)
        ∙ marker_tail-onto (cut_prefix (codes "feature:") (c ∷ l)) r)
      (is_marked-append l r)
    ∙ or_assoc (marker_tail (cut_prefix (codes "feature:") (c ∷ l))) (is_marked l) (is_marked r)

abbrev IsClean : Text → Type 0
IsClean s = is_marked s ≡ false

unmarked_lines-IsClean : (ls : List Text) → All IsClean (unmarked_lines ls)
unfolding unmarked_lines
unmarked_lines-IsClean [] = tt
unmarked_lines-IsClean (l ∷ ls) = elim (Bool-cases (is_marked l)) [
  | inl marked ↦ rw (marked, All) (unmarked_lines-IsClean ls)
  | inr clean ↦ rw (clean, All) (clean, unmarked_lines-IsClean ls)
]

join_lines-IsClean : (ls : List Text) → All IsClean ls → IsClean (join_lines ls)
unfolding join_lines is_marked
join_lines-IsClean [] h = refl
join_lines-IsClean (l ∷ ls) h =
    is_marked-append l (join_lines ls) ∙ rw (h.0, join_lines-IsClean ls h.1)

last_split : (s : Text) (c : ℕ) → last? s ≡ some c → s ≡ drop_last s ++ (c ∷ [])
last_split [] c h = absurd (cc)
last_split (x ∷ []) c h = cc
last_split (x ∷ y ∷ s) c h = ap (λ t. x ∷ t) (last_split (y ∷ s) c h)

or_false : (a b : Bool) → (a || b) ≡ false → a ≡ false
or_false a b h = ground arith

drop_last-IsClean : (s : Text) → last? s ≡ some b'\n' → IsClean s → IsClean (drop_last s)
drop_last-IsClean s h clean =
    or_false (is_marked (drop_last s)) (is_marked [])
      (sym (is_marked-append (drop_last s) []) ∙ ap is_marked (sym (last_split s b'\n' h)) ∙ clean)

abbrev fitted : Text → Option ℕ → Option ℕ → Text
fitted r o p = elim o [
  | none ↦ r
  | some c ↦ elim p [ none ↦ r | some d ↦ if not (c == 10) && d == 10 then drop_last r else r ]
]

fitted-cases :
    (r : Text) (o p : Option ℕ)
    → last? r ≡ p
    → (fitted r o p ≡ r) ⊎ ((last? r ≡ some b'\n') × (fitted r o p ≡ drop_last r))
fitted-cases r none p e = inl refl
fitted-cases r (some c) none e = inl refl
fitted-cases r (some c) (some d) e = elim (Bool-cases (not (c == 10) && d == 10)) [
  | inr keep ↦ inl (rw keep)
  | inl cut ↦ inr (e ∙ ap some ((==_iff d 10).0 (and-eq-true _ _ cut).1), rw cut)
]

fit_end-cases :
    (input r : Text)
    → (fit_end input r ≡ r) ⊎ ((last? r ≡ some b'\n') × (fit_end input r ≡ drop_last r))
unfolding fit_end
fit_end-cases input r = fitted-cases r (last? input) (last? r) refl

fit_end-IsClean : (input r : Text) → IsClean r → IsClean (fit_end input r)
fit_end-IsClean input r h = elim (fit_end-cases input r) [
  | inl same ↦ ap is_marked same ∙ h
  | inr (newline, cut) ↦ ap is_marked cut ∙ drop_last-IsClean r newline h
]

-- What is written to a file has no marker of a feature left.
pub strip_residual-IsClean :
    (input out : Text) → strip_residual input ≡ some out → is_marked out ≡ false
unfolding strip_residual
strip_residual-IsClean input out h =
    let ls = unmarked_lines (scan_lines input) in
    ap is_marked (sym (only_if (is_marked input) h))
    ∙ fit_end-IsClean input (join_lines ls)
        (join_lines-IsClean ls (unmarked_lines-IsClean (scan_lines input)))
