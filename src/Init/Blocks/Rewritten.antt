-- ===== src/Init/Blocks/Rewritten.antt =====
-- What stripFeatureFromFile of cmd/init/stripper.go writes to a file with one block of the feature.
use go_mongo_boilerplate.Base.{
  ℕ, ◌≡◌, ◌≢◌, ◌⊎◌, refl, ap, ◌∙◌, sym, true, false, List, [], ◌∷◌, ◌++◌, none, some, inl, inr,
  Bool-cases, Option-cases, some_inj, ◌==◌,
}
use mathlib.Core.List.{append-nil, append_assoc}
use go_mongo_boilerplate.Stdlib.Text.{Text}
use go_mongo_boilerplate.Stdlib.Search.{contains, is_blank, last?, drop_last, scan_lines, raw_lines}
use go_mongo_boilerplate.Init.Strip.{
  fresh, drop_blank, scan_all, written, start_token, end_token, join_onto, fit_end, contents,
  rewritten, strip_feature, collapse_blank_runs, after_scan,
}
use go_mongo_boilerplate.Init.Blocks.{
  Free, scan_block, reverse_onto, reverse_onto-append, reverse_onto-reverse_onto,
}
use go_mongo_boilerplate.Init.Blocks.Runs.{CutRuns, collapse_blank_runs-CutRuns, ten, not_ten}

-- The bytes of the lines, each with a newline.
abbrev pub unlines : List Text → Text
unlines [] = []
unlines (l ∷ ls) = l ++ (10 ∷ unlines ls)

-- The lines before a block without the last of them, if that is blank.
abbrev pub WithoutBlank : List Text → List Text → Type 0
WithoutBlank before kept =
    ((line : Text) × (before ≡ kept ++ (line ∷ [])) × (is_blank line ≡ true))
    ⊎ ((kept ≡ before)
        × ((before ≡ [])
            ⊎ ((front : List Text) × (line : Text) × (before ≡ front ++ (line ∷ []))
                × (is_blank line ≡ false))))

-- The text of the lines, with a newline at its end exactly if the input has one.
abbrev pub EndsLike : Text → List Text → Text → Type 0
EndsLike input ls text =
    ((last? input ≡ some 10) × (text ≡ unlines ls))
    ⊎ ((last? input ≢ some 10) × (((ls ≡ []) × (text ≡ [])) ⊎ (text ++ (10 ∷ []) ≡ unlines ls)))

join_onto-unlines : (ls t : List Text) → join_onto ls (unlines t) ≡ unlines (reverse_onto ls t)
unfolding join_onto
join_onto-unlines [] t = refl
join_onto-unlines (l ∷ ls) t = join_onto-unlines ls (l ∷ t)

reverse_onto-eq-append : (a b : List Text) → reverse_onto a b ≡ reverse_onto a [] ++ b
reverse_onto-eq-append [] b = refl
reverse_onto-eq-append (l ∷ a) b =
    reverse_onto-eq-append a (l ∷ b)
    ∙ sym (append_assoc (reverse_onto a []) (l ∷ []) b)
    ∙ ap (λ x. x ++ b) (sym (reverse_onto-eq-append a (l ∷ [])))

without_blank :
    (rev before : List Text)
    → before ≡ reverse_onto rev []
    → WithoutBlank before (reverse_onto (drop_blank rev) [])
unfolding drop_blank
without_blank [] before h = inr (sym h, inl h)
without_blank (l ∷ ls) before h = elim (Bool-cases (is_blank l)) [
  | inl blank ↦ rw blank (inl (l, h ∙ reverse_onto-eq-append ls (l ∷ []), blank))
  | inr other ↦
      rw other
        (inr (sym h, inr (reverse_onto ls [], l, h ∙ reverse_onto-eq-append ls (l ∷ []), other)))
]

last?-cons : (x d : ℕ) (b : Text) → last? b ≡ some d → last? (x ∷ b) ≡ some d
last?-cons x d [] h = absurd (cc h)
last?-cons x d (y ∷ b) h = h

last?-append : (a b : Text) (d : ℕ) → last? b ≡ some d → last? (a ++ b) ≡ some d
last?-append [] b d h = h
last?-append (x ∷ a) b d h = last?-cons x d (a ++ b) (last?-append a b d h)

last?-unlines : (l : Text) (ls : List Text) → last? (unlines (l ∷ ls)) ≡ some 10
last?-unlines l [] = last?-append l (10 ∷ []) 10 refl
last?-unlines l (k ∷ ls) =
    last?-append l (10 ∷ unlines (k ∷ ls)) 10
      (last?-cons 10 10 (unlines (k ∷ ls)) (last?-unlines k ls))

drop_last-last : (t : Text) (d : ℕ) → last? t ≡ some d → drop_last t ++ (d ∷ []) ≡ t
drop_last-last [] d h = absurd (cc h)
drop_last-last (x ∷ []) d h = ap (λ y. y ∷ []) (sym (some_inj h))
drop_last-last (x ∷ y ∷ t) d h = ap (λ u. x ∷ u) (drop_last-last (y ∷ t) d h)

last?-eq-none : (s : Text) → last? s ≡ none → s ≡ []
last?-eq-none [] h = refl
last?-eq-none (x ∷ []) h = absurd (cc h)
last?-eq-none (x ∷ y ∷ s) h = absurd (cc (last?-eq-none (y ∷ s) h))

no_lines : (before rest : List Text) (l : Text) → scan_lines [] ≢ before ++ (l ∷ rest)
unfolding scan_lines raw_lines
no_lines [] rest l h = cc h
no_lines (x ∷ before) rest l h = cc h

has_end :
    (input : Text) (before rest : List Text) (l : Text)
    → scan_lines input ≡ before ++ (l ∷ rest)
    → last? input ≢ none
has_end input before rest l h e =
    no_lines before rest l (ap scan_lines (sym (last?-eq-none input e)) ∙ h)

fit_end_newline : (input result : Text) → last? input ≡ some 10 → fit_end input result ≡ result
unfolding fit_end
fit_end_newline input result h = elim (Option-cases (last? result)) [
  | inl empty ↦ rw (h, fit_end, empty)
  | inr (d, found) ↦ rw (h, fit_end, found)
]

fit_end_empty : (input : Text) → fit_end input [] ≡ []
unfolding fit_end
fit_end_empty input = elim (Option-cases (last? input)) [
  | inl empty ↦ rw (empty, fit_end)
  | inr (d, found) ↦ rw (found, fit_end)
]

fit_end_cut :
    (input result : Text) (c : ℕ)
    → last? input ≡ some c
    → (c == 10) ≡ false
    → last? result ≡ some 10
    → fit_end input result ≡ drop_last result
unfolding fit_end
fit_end_cut input result c h k e = rw (h, fit_end) (rw e (rw k refl))

cut-EndsLike :
    (input : Text) (ls : List Text) (c : ℕ)
    → last? input ≡ some c
    → (c == 10) ≡ false
    → ((ls ≡ []) × (fit_end input (unlines ls) ≡ []))
      ⊎ (fit_end input (unlines ls) ++ (10 ∷ []) ≡ unlines ls)
cut-EndsLike input [] c h k = inl (refl, fit_end_empty input)
cut-EndsLike input (l ∷ ls) c h k =
    let e = last?-unlines l ls in
    inr (
      ap (λ t. t ++ (10 ∷ [])) (fit_end_cut input (unlines (l ∷ ls)) c h k e)
      ∙ drop_last-last (unlines (l ∷ ls)) 10 e)

fit_end-EndsLike :
    (input : Text) (ls : List Text)
    → last? input ≢ none
    → EndsLike input ls (fit_end input (unlines ls))
fit_end-EndsLike input ls d = elim (Option-cases (last? input)) [
  | inl absent ↦ absurd (d absent)
  | inr (c, found) ↦ elim (Bool-cases (c == 10)) [
    | inl newline ↦
        let ends = found ∙ ap some (sym (ten c newline)) in
        inl (ends, fit_end_newline input (unlines ls) ends)
    | inr other ↦
        inr ((λ e. not_ten c other (some_inj (sym found ∙ e))), cut-EndsLike input ls c found other)
  ]
]

-- A file with one block of the feature is rewritten: to the lines before the block, less a blank line
-- right before it, and those after it, each with a newline, but the last without one if the file did not
-- end in one, and with each run of newlines cut to two. The markers and all between them are gone,
-- whatever else the lines hold.
pub strip_feature_block :
    (path feature input : Text) (before body after : List Text) (start end : Text)
    → scan_lines input ≡ before ++ (start ∷ (body ++ (end ∷ after)))
    → Free (start_token feature) before
    → contains start (start_token feature) ≡ true
    → Free (end_token feature) body
    → contains end (end_token feature) ≡ true
    → Free (start_token feature) after
    → (kept : List Text) × (text out : Text) × WithoutBlank before kept
      × EndsLike input (kept ++ after) text
      × CutRuns text out
      × (strip_feature path feature (contents input) ≡ rewritten out)
unfolding strip_feature after_scan written
strip_feature_block path feature input before body after start end lines hb hs hc he ha =
    let rev = drop_blank (reverse_onto before []) in
    let kept = reverse_onto rev [] in
    let text = fit_end input (unlines (kept ++ after)) in
    let scan = scan_block feature before body after start end hb hs hc he ha in
    (
      kept,
      text,
      collapse_blank_runs text,
      without_blank (reverse_onto before []) before
          (sym (reverse_onto-reverse_onto before [] [] ∙ append-nil before)),
      fit_end-EndsLike input (kept ++ after) (has_end input before _ start lines),
      collapse_blank_runs-CutRuns text,
      ap (after_scan path feature input)
            (ap (λ ls. scan_all (start_token feature) (end_token feature) ls fresh) lines ∙ scan.2)
          ∙ ap (λ t. rewritten (collapse_blank_runs (fit_end input t)))
              (join_onto-unlines (reverse_onto after [] ++ rev) []
                ∙ ap unlines (
                    reverse_onto-append (reverse_onto after []) rev []
                    ∙ ap (reverse_onto rev)
                        (reverse_onto-reverse_onto after [] [] ∙ append-nil after)
                    ∙ reverse_onto-eq-append rev after)),
    )
