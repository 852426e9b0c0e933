-- ===== src/Init/Blocks.antt =====
-- What the scan of the stripper leaves of the lines of a file. The text that is written is in
-- Blocks/Rewritten.
pub mod Runs
pub mod Rewritten
use go_mongo_boilerplate.Base.{
  ℕ, ◌+◌, ◌≡◌, refl, ap, ◌∙◌, Bool, true, false, List, [], ◌∷◌, ◌++◌, inl, inr, All, All-append,
  Bool-cases,
}
use mathlib.Core.List.{append-nil}
use go_mongo_boilerplate.Stdlib.Text.{Text}
use go_mongo_boilerplate.Stdlib.Search.{contains, is_blank}
use go_mongo_boilerplate.Init.Strip.{
  Scan, fresh, drop_blank, scan_line, scan_all, written, start_token, end_token,
}

-- The lines of the first list in reverse, before those of the second.
abbrev pub reverse_onto : List Text → List Text → List Text
reverse_onto [] b = b
reverse_onto (l ∷ a) b = reverse_onto a (l ∷ b)

reverse_onto-reverse_onto :
    (a b c : List Text) → reverse_onto (reverse_onto a b) c ≡ reverse_onto b (a ++ c)
reverse_onto-reverse_onto [] b c = refl
reverse_onto-reverse_onto (l ∷ a) b c = reverse_onto-reverse_onto a (l ∷ b) c

reverse_onto-append :
    (a b c : List Text) → reverse_onto (a ++ b) c ≡ reverse_onto b (reverse_onto a c)
reverse_onto-append [] b c = refl
reverse_onto-append (l ∷ a) b c = reverse_onto-append a b (l ∷ c)

-- No line holds the token.
abbrev pub Free : Text → List Text → Type 0
Free token = All (λ l. contains l token ≡ false)

reverse_onto-Free : (t : Text) (a b : List Text) → Free t a → Free t b → Free t (reverse_onto a b)
reverse_onto-Free t [] b h k = k
reverse_onto-Free t (l ∷ a) b h k = reverse_onto-Free t a (l ∷ b) h.1 (h.0, k)

drop_blank-Free : (t : Text) (ls : List Text) → Free t ls → Free t (drop_blank ls)
unfolding drop_blank
drop_blank-Free t [] h = tt
drop_blank-Free t (l ∷ ls) h = elim (Bool-cases (is_blank l)) [
  | inl blank ↦ rw blank h.1
  | inr other ↦ rw other h
]

module _ (start end : Text) where
  -- A state of the loop.
  abbrev pub state : List Text → List Text → Bool → ℕ → ℕ → Scan
  state out kept b n m = record {
    out = out;
    kept = kept;
    in_block = b;
    line_no = n;
    start_line = m;
  }

  scan_line-Free :
      (l : Text) (st : Scan)
      → Free start st.out × Free start st.kept
      → Free start (scan_line start end l st).out × Free start (scan_line start end l st).kept
  unfolding scan_line
  scan_line-Free l st h = elim (Bool-cases st.in_block) [
    | inl inside ↦ elim (Bool-cases (contains l end)) [
      | inl closes ↦ rw (inside, scan_line, closes) h
      | inr dropped ↦ rw (inside, scan_line, dropped) h
    ]
    | inr outside ↦ elim (Bool-cases (contains l start)) [
      | inl opens ↦
          rw (outside, scan_line, opens)
            (
              All-append (λ x. contains x start ≡ false) (drop_blank st.kept) st.out
                  (drop_blank-Free start st.kept h.1) h.0,
              tt,
            )
      | inr plain ↦ rw (outside, scan_line, plain) (h.0, (plain, h.1))
    ]
  ]

  scan_all-Free :
      (ls : List Text) (st : Scan)
      → Free start st.out × Free start st.kept
      → Free start (written (scan_all start end ls st))
  unfolding scan_all written
  scan_all-Free [] st h = All-append (λ x. contains x start ≡ false) st.kept st.out h.1 h.0
  scan_all-Free (l ∷ ls) st h = scan_all-Free ls (scan_line start end l st) (scan_line-Free l st h)

  keep_line :
      (l : Text) (out kept : List Text) (n m : ℕ)
      → contains l start ≡ false
      → scan_line start end l (state out kept false n m) ≡ state out (l ∷ kept) false (n + 1) m
  unfolding scan_line
  keep_line l out kept n m h = rw h

  drop_line :
      (l : Text) (out kept : List Text) (n m : ℕ)
      → contains l end ≡ false
      → scan_line start end l (state out kept true n m) ≡ state out kept true (n + 1) m
  unfolding scan_line
  drop_line l out kept n m h = rw h

  open_line :
      (l : Text) (out kept : List Text) (n m : ℕ)
      → contains l start ≡ true
      → scan_line start end l (state out kept false n m)
        ≡ state (drop_blank kept ++ out) [] true (n + 1) (n + 1)
  unfolding scan_line
  open_line l out kept n m h = rw h

  close_line :
      (l : Text) (out kept : List Text) (n m : ℕ)
      → contains l end ≡ true
      → scan_line start end l (state out kept true n m) ≡ state out kept false (n + 1) m
  unfolding scan_line
  close_line l out kept n m h = rw h

  -- Outside of a block, lines without a start marker are kept.
  scan_all-outside :
      (pre post out kept : List Text) (n m : ℕ)
      → Free start pre
      → (n' : ℕ) × (scan_all start end (pre ++ post) (state out kept false n m)
          ≡ scan_all start end post (state out (reverse_onto pre kept) false n' m))
  unfolding scan_all scan_line
  scan_all-outside [] post out kept n m h = (n, refl)
  scan_all-outside (l ∷ pre) post out kept n m h =
      let r = scan_all-outside pre post out (l ∷ kept) (n + 1) m h.1 in
      (r.0, ap (scan_all start end (pre ++ post)) (keep_line l out kept n m h.0) ∙ r.1)

  -- Inside of a block, lines without an end marker are dropped.
  scan_all-inside :
      (body post out kept : List Text) (n m : ℕ)
      → Free end body
      → (n' : ℕ) × (scan_all start end (body ++ post) (state out kept true n m)
          ≡ scan_all start end post (state out kept true n' m))
  unfolding scan_all scan_line
  scan_all-inside [] post out kept n m h = (n, refl)
  scan_all-inside (l ∷ body) post out kept n m h =
      let r = scan_all-inside body post out kept (n + 1) m h.1 in
      (r.0, ap (scan_all start end (body ++ post)) (drop_line l out kept n m h.0) ∙ r.1)

-- The end of the scan of a file with one block of the feature.
pub scan_block :
    (feature : Text) (before body after : List Text) (start end : Text)
    → Free (start_token feature) before
    → contains start (start_token feature) ≡ true
    → Free (end_token feature) body
    → contains end (end_token feature) ≡ true
    → Free (start_token feature) after
    → (n m : ℕ) × (scan_all
          (start_token feature)
          (end_token feature)
          (before ++ (start ∷ (body ++ (end ∷ after))))
          fresh
        ≡ state
            (start_token feature)
            (end_token feature)
            (drop_blank (reverse_onto before []))
            (reverse_onto after [])
            false
            n
            m)
unfolding scan_all
scan_block feature before body after start end hb hs hc he ha =
    let st = start_token feature in
    let et = end_token feature in
    let a = scan_all-outside st et before (start ∷ (body ++ (end ∷ after))) [] [] 0 0 hb in
    let kept = drop_blank (reverse_onto before []) in
    let b = scan_all-inside st et body (end ∷ after) (kept ++ []) [] (a.0 + 1) (a.0 + 1) hc in
    let c = scan_all-outside st et after [] (kept ++ []) [] (b.0 + 1) (a.0 + 1) ha in
    let opened =
      a.1
      ∙ ap (scan_all st et (body ++ (end ∷ after)))
          (open_line st et start [] (reverse_onto before []) a.0 0 hs) in
    let closed =
      b.1 ∙ ap (scan_all st et after) (close_line st et end (kept ++ []) [] b.0 (a.0 + 1) he) in
    (
      c.0,
      a.0 + 1,
      opened
          ∙ closed
          ∙ (rw (append-nil after) at c.1)
          ∙ ap (λ x. state st et x (reverse_onto after []) false c.0 (a.0 + 1)) (append-nil kept),
    )

-- The lines that the scan leaves of those of a file, in their order.
abbrev pub stripped : Text → List Text → List Text
stripped feature ls =
    reverse_onto (written (scan_all (start_token feature) (end_token feature) ls fresh)) []

-- After stripping a feature no line holds its start marker.
pub stripped-Free :
    (feature : Text) (ls : List Text) → Free (start_token feature) (stripped feature ls)
stripped-Free feature ls =
    reverse_onto-Free (start_token feature) _ []
      (scan_all-Free (start_token feature) (end_token feature) ls fresh (tt, tt)) tt

stripped_unmarked :
    (feature : Text) (ls : List Text) → Free (start_token feature) ls → stripped feature ls ≡ ls
unfolding scan_all written
stripped_unmarked feature ls h =
    let a = scan_all-outside (start_token feature) (end_token feature) ls [] [] [] 0 0 h in
    let kept = rw (append-nil ls) at a.1 in
    ap (λ x. reverse_onto (written x) []) kept
    ∙ rw (append-nil (reverse_onto ls [])) (reverse_onto-reverse_onto ls [] [] ∙ append-nil ls)

-- To strip a feature from the lines of a file once more changes nothing.
pub stripped-stripped :
    (feature : Text) (ls : List Text) → stripped feature (stripped feature ls) ≡ stripped feature ls
stripped-stripped feature ls =
    stripped_unmarked feature (stripped feature ls) (stripped-Free feature ls)
