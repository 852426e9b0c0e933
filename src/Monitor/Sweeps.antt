-- ===== src/Monitor/Sweeps.antt =====
-- What a tick of the janitor leaves, when nothing else happens during it.
use go_mongo_boilerplate.Base.{
  ℕ, ◌≡◌, ◌≢◌, ◌+◌, ◌*◌, ◌≤◌, ◌<◌, refl, ◌∙◌, sym, ap, true, false, List, [], ◌∷◌, Option, none,
  some, if◌then◌else◌, arith, Bool-cases, inl, inr, All, ◌⊎◌, some_inj,
}
use mathlib.Core.Path.{subst}
use go_mongo_boilerplate.Stdlib.Text.{Text, codes}
use go_mongo_boilerplate.Monitor.{SpanEntry, Monitor, load, is_leaked, purge, sweep_entries, sweep}
use go_mongo_boilerplate.Monitor.Entries.{load-remove, load-remove-other}

-- The entries are those that the map has under their keys.
abbrev pub IsMap : List (ℕ × SpanEntry) → Type 0
IsMap m = All (λ p. load p.0 m ≡ some p.1) m

same_or_other : (a b : ℕ) → (a ≡ b) ⊎ (a ≢ b)
same_or_other a b = ground arith

under_key :
    (k : ℕ) (e : SpanEntry) (m es : List (ℕ × SpanEntry))
    → All (λ p. load p.0 m ≡ some p.1) es
    → load k m ≡ some e
    → All (λ p. p.0 ≡ k → p.1 ≡ e) es
under_key k e m [] h there = tt
under_key k e m ((j, f) ∷ es) h there =
    (λ same. some_inj (sym h.0 ∙ ap (λ i. load i m) same ∙ there), under_key k e m es h.1 there)

first-match :
    (j : ℕ) (f : SpanEntry) (k : ℕ) (e : SpanEntry) (es : List (ℕ × SpanEntry))
    → k ≡ j
    → load j ((k, e) ∷ es) ≡ some f
    → e ≡ f
unfolding load
first-match j f k e es same h = ground arith

load-tail :
    (j k : ℕ) (e : SpanEntry) (es : List (ℕ × SpanEntry)) → k ≢ j → load j ((k, e) ∷ es) ≡ load j es
unfolding load
load-tail j k e es d = ground arith

abbrev leak_text : Text
leak_text = codes "mongo command monitor leak (no Succeeded/Failed)"

-- The span was ended with the status.
abbrev pub EndedWith : ℕ → Option Text → List (ℕ × Option Text) → Type 0
EndedWith span status [] = ⊥
EndedWith span status (r ∷ ended) = (r ≡ (span, status)) ⊎ EndedWith span status ended

module _ (now : ℕ) where
  age :
      (e : SpanEntry)
      → (is_leaked now e ≡ true → e.created_at + 2 * 60 * 1000000000 < now)
        × (is_leaked now e ≡ false → now ≤ e.created_at + 2 * 60 * 1000000000)
  unfolding is_leaked
  age e = (λ h. ground arith, λ h. ground arith)

  abbrev visit : ℕ → SpanEntry → Monitor → Monitor
  visit k e m = if is_leaked now e then purge k e m else m

  visit-gone :
      (j k : ℕ) (e : SpanEntry) (m : Monitor)
      → load j m.spans ≡ none
      → load j (visit k e m).spans ≡ none
  unfolding purge
  visit-gone j k e m h = elim (Bool-cases (is_leaked now e)) [
    | inr young ↦ rw young h
    | inl old ↦ elim (same_or_other j k) [
      | inl same ↦ rw (old, same, load-remove k m.spans)
      | inr other ↦ rw (old, load-remove-other k j m.spans other) h
    ]
  ]

  visit-other :
      (j k : ℕ) (e : SpanEntry) (m : Monitor) → j ≢ k → load j (visit k e m).spans ≡ load j m.spans
  unfolding purge
  visit-other j k e m d = elim (Bool-cases (is_leaked now e)) [
    | inl old ↦ rw (old, load-remove-other k j m.spans d)
    | inr young ↦ rw young
  ]

  visit-leaked :
      (k : ℕ) (e : SpanEntry) (m : Monitor)
      → is_leaked now e ≡ true
      → load k (visit k e m).spans ≡ none
  unfolding purge
  visit-leaked k e m old = rw (old, load-remove k m.spans)

  sweep_entries-gone :
      (j : ℕ) (es : List (ℕ × SpanEntry)) (m : Monitor)
      → load j m.spans ≡ none
      → load j (sweep_entries now es m).spans ≡ none
  unfolding sweep_entries
  sweep_entries-gone j [] m h = h
  sweep_entries-gone j ((k, e) ∷ es) m h =
      sweep_entries-gone j es (visit k e m) (visit-gone j k e m h)

  sweep_entries-young :
      (j : ℕ) (f : SpanEntry) (es : List (ℕ × SpanEntry)) (m : Monitor)
      → All (λ p. p.0 ≡ j → p.1 ≡ f) es
      → is_leaked now f ≡ false
      → load j m.spans ≡ some f
      → load j (sweep_entries now es m).spans ≡ some f
  unfolding sweep_entries
  sweep_entries-young j f [] m h young there = there
  sweep_entries-young j f ((k, e) ∷ es) m h young there =
      sweep_entries-young j f es (visit k e m) h.1 young (elim (same_or_other j k) [
        | inr other ↦ visit-other j k e m other ∙ there
        | inl same ↦
            ap (λ b. load j (if b then purge k e m else m).spans)
              (ap (is_leaked now) (h.0 (sym same)) ∙ young)
            ∙ there
      ])

  sweep_entries-old :
      (j : ℕ) (f : SpanEntry) (es : List (ℕ × SpanEntry)) (m : Monitor)
      → load j es ≡ some f
      → is_leaked now f ≡ true
      → load j (sweep_entries now es m).spans ≡ none
  unfolding sweep_entries load
  sweep_entries-old j f [] m h old = absurd (cc)
  sweep_entries-old j f ((k, e) ∷ es) m h old = elim (same_or_other k j) [
    | inl same ↦
        let stale = ap (is_leaked now) (first-match j f k e es same h) ∙ old in
        sweep_entries-gone j es (visit k e m)
          (ap (λ i. load i (visit k e m).spans) (sym same) ∙ visit-leaked k e m stale)
    | inr other ↦ sweep_entries-old j f es (visit k e m) (sym (load-tail j k e es other) ∙ h) old
  ]

  visit-keeps :
      (span : ℕ) (status : Option Text) (k : ℕ) (e : SpanEntry) (m : Monitor)
      → EndedWith span status m.ended
      → EndedWith span status (visit k e m).ended
  unfolding purge
  visit-keeps span status k e m h = elim (Bool-cases (is_leaked now e)) [
    | inl old ↦ rw old (inr h)
    | inr young ↦ rw young h
  ]

  sweep_entries-keeps :
      (span : ℕ) (status : Option Text) (es : List (ℕ × SpanEntry)) (m : Monitor)
      → EndedWith span status m.ended
      → EndedWith span status (sweep_entries now es m).ended
  unfolding sweep_entries
  sweep_entries-keeps span status [] m h = h
  sweep_entries-keeps span status ((k, e) ∷ es) m h =
      sweep_entries-keeps span status es (visit k e m) (visit-keeps span status k e m h)

  visit-ends :
      (k : ℕ) (e : SpanEntry) (m : Monitor)
      → is_leaked now e ≡ true
      → EndedWith e.span (some leak_text) (visit k e m).ended
  unfolding purge
  visit-ends k e m old = rw old (inl refl)

  sweep_entries-ends :
      (j : ℕ) (f : SpanEntry) (es : List (ℕ × SpanEntry)) (m : Monitor)
      → load j es ≡ some f
      → is_leaked now f ≡ true
      → EndedWith f.span (some leak_text) (sweep_entries now es m).ended
  unfolding sweep_entries load
  sweep_entries-ends j f [] m h old = absurd (cc)
  sweep_entries-ends j f ((k, e) ∷ es) m h old = elim (same_or_other k j) [
    | inl same ↦
        let it = first-match j f k e es same h in
        sweep_entries-keeps f.span (some leak_text) es (visit k e m) (
          subst (λ g. EndedWith g.span (some leak_text) (visit k e m).ended) it
            (visit-ends k e m (ap (is_leaked now) it ∙ old)))
    | inr other ↦ sweep_entries-ends j f es (visit k e m) (sym (load-tail j k e es other) ∙ h) old
  ]

  -- What a sweep does with the entry under a key, if there is one.
  abbrev pub Swept : ℕ → Monitor → Monitor → Type 0
  Swept k before after =
      ((load k before.spans ≡ none) × (load k after.spans ≡ none))
      ⊎ ((e : SpanEntry) × (load k before.spans ≡ some e)
          × (now ≤ e.created_at + 2 * 60 * 1000000000)
          × (load k after.spans ≡ some e))
      ⊎ ((e : SpanEntry) × (load k before.spans ≡ some e)
          × (e.created_at + 2 * 60 * 1000000000 < now)
          × (load k after.spans ≡ none)
          × EndedWith e.span (some leak_text) after.ended)

  sweep_found :
      (m : Monitor) (k : ℕ) (o : Option SpanEntry)
      → IsMap m.spans
      → load k m.spans ≡ o
      → Swept k m (sweep_entries now m.spans m)
  sweep_found m k none h before = inl (before, sweep_entries-gone k m.spans m before)
  sweep_found m k (some f) h before = elim (Bool-cases (is_leaked now f)) [
    | inl old ↦ inr (
        inr (
          f,
          before,
          (age f).0 old,
          sweep_entries-old k f m.spans m before old,
          sweep_entries-ends k f m.spans m before old,
        ))
    | inr young ↦ inr (
        inl (
          f,
          before,
          (age f).1 young,
          sweep_entries-young k f m.spans m (under_key k f m.spans m.spans h before) young before,
        ))
  ]

  -- If the entries of the map stand under keys of their own, a sweep keeps an entry of at most two minutes
  -- as it is, removes an older one and ends its span with the status for a leak, and makes no new one.
  pub sweep-cases : (m : Monitor) (k : ℕ) → IsMap m.spans → Swept k m (sweep now m)
  unfolding sweep
  sweep-cases m k h = sweep_found m k (load k m.spans) h refl
