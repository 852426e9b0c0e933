-- ===== src/Monitor/Accounts/Kept.antt =====
-- The invariant of the steps, and what it says of the spans.
use go_mongo_boilerplate.Base.{
  ℕ, ◌≡◌, ◌≢◌, refl, ◌∙◌, sym, ap, List, ◌∷◌, Option, none, some, arith, inl, inr, ◌⊎◌, some_inj,
}
use mathlib.Core.Path.{subst}
use go_mongo_boilerplate.Stdlib.Text.{Text}
use go_mongo_boilerplate.Stdlib.Errors.{GoError}
use go_mongo_boilerplate.Monitor.{
  SpanEntry, Monitor, load, remove, new_command_monitor, on_started, on_succeeded, on_failed,
  finish, finish_loaded, purge, status_of, leak_status,
}
use go_mongo_boilerplate.Monitor.Entries.{
  load-remove, load-remove-other, load-store, load-store-other,
}
use go_mongo_boilerplate.Monitor.Accounts.{Moment, IsFresh, Step, Reachable, IsAccounted}

abbrev IsKnown : Monitor → List ℕ → Type 0
IsKnown m used = (k : ℕ) → IsFresh k used → load k m.spans ≡ none

abbrev IsHeld : Monitor → List ℕ → Option (ℕ × SpanEntry) → Type 0
IsHeld m used none = Unit
IsHeld m used (some (k, e)) =
    (IsFresh k used → ⊥) × ((load k m.spans ≡ some e) ⊎ (load k m.spans ≡ none))

same_entry : (e f : SpanEntry) → some e ≡ some f → e ≡ f
same_entry e f h = some_inj h

abbrev Invariant : Moment → Type 0
Invariant s = IsKnown s.monitor s.used × IsHeld s.monitor s.used s.held × IsAccounted s.monitor

same_or_other : (a b : ℕ) → (a ≡ b) ⊎ (a ≢ b)
same_or_other a b = ground arith

some_ne_none : (f : SpanEntry) → some f ≢ none
some_ne_none f e = cc

-- Removing an entry whose span ends.
IsAccounted-remove :
    (m : Monitor) (k : ℕ) (e : SpanEntry) (status : Option Text)
    → ((load k m.spans ≡ some e) ⊎ (load k m.spans ≡ none))
    → IsAccounted m
    → IsAccounted (record m { spans = remove k m.spans; ended = (e.span, status) ∷ m.ended })
IsAccounted-remove m k e status known h n lt = elim (h n lt) [
  | inr over ↦ inr (inr over)
  | inl (j, f, found, same) ↦ elim (same_or_other j k) [
    | inr other ↦ inl (j, f, load-remove-other k j m.spans other ∙ found, same)
    | inl eq ↦ elim known [
      | inl entry ↦ inr (
          inl (
            ap (λ x. x.span)
              (same_entry e f (sym entry ∙ ap (λ i. load i m.spans) (sym eq) ∙ found))
            ∙ same))
      | inr gone ↦ absurd (cc)
    ]
  ]
]

IsKnown-remove :
    (m : Monitor) (k : ℕ) (used : List ℕ)
    → IsKnown m used
    → (j : ℕ) → IsFresh j used
    → load j (remove k m.spans) ≡ none
IsKnown-remove m k used h j fresh = elim (same_or_other j k) [
  | inl eq ↦ rw eq (load-remove k m.spans)
  | inr other ↦ load-remove-other k j m.spans other ∙ h j fresh
]

IsHeld-remove :
    (m m' : Monitor) (k : ℕ) (used : List ℕ) (held : Option (ℕ × SpanEntry))
    → m'.spans ≡ remove k m.spans
    → IsHeld m used held
    → IsHeld m' used held
IsHeld-remove m m' k used none eq h = tt
IsHeld-remove m m' k used (some (j, e)) eq h = elim (same_or_other j k) [
  | inl same ↦
      (h.0, inr (ap (load j) eq ∙ ap (λ i. load i (remove k m.spans)) same ∙ load-remove k m.spans))
  | inr other ↦ (
    h.0,
    elim h.1 [
      | inl there ↦ inl (ap (load j) eq ∙ load-remove-other k j m.spans other ∙ there)
      | inr gone ↦ inr (ap (load j) eq ∙ load-remove-other k j m.spans other ∙ gone)
    ],
  )
]

finish_loaded-Invariant :
    (k : ℕ) (failure : Option GoError) (o : Option SpanEntry) (s : Moment)
    → load k s.monitor.spans ≡ o
    → Invariant s
    → Invariant (record s { monitor = finish_loaded k failure o s.monitor })
unfolding finish_loaded
finish_loaded-Invariant k failure none s e h = h
finish_loaded-Invariant k failure (some entry) s e (known, held, accounted) = (
  IsKnown-remove s.monitor k s.used known,
  IsHeld-remove s.monitor (finish_loaded k failure (some entry) s.monitor) k s.used s.held refl
      held,
  IsAccounted-remove s.monitor k entry (status_of failure) (inl e) accounted,
)

finish-Invariant :
    (k : ℕ) (failure : Option GoError) (s : Moment)
    → Invariant s
    → Invariant (record s { monitor = finish k failure s.monitor })
unfolding finish
finish-Invariant k failure s h = finish_loaded-Invariant k failure _ s refl h

purge-Invariant :
    (k : ℕ) (e : SpanEntry) (s : Moment)
    → s.held ≡ some (k, e)
    → Invariant s
    → Invariant (record s { monitor = purge k e s.monitor; held = none })
unfolding purge
purge-Invariant k e s held (known, holds, accounted) =
    let there = (subst (IsHeld s.monitor s.used) held holds).1 in
    (
      IsKnown-remove s.monitor k s.used known,
      tt,
      IsAccounted-remove s.monitor k e (some leak_status) there accounted,
    )

IsHeld-start :
    (k now : ℕ) (m : Monitor) (used : List ℕ) (held : Option (ℕ × SpanEntry))
    → IsFresh k used
    → IsHeld m used held
    → IsHeld (on_started k now m) (k ∷ used) held
unfolding on_started
IsHeld-start k now m used none fresh h = tt
IsHeld-start k now m used (some (j, e)) fresh (stale, place) =
    let other : j ≢ k = (λ eq. stale (subst (λ i. IsFresh i used) (sym eq) fresh)) in
    (
      λ f. stale f.1,
      elim place [
        | inl there ↦ inl (load-store-other k j _ m.spans other ∙ there)
        | inr gone ↦ inr (load-store-other k j _ m.spans other ∙ gone)
      ],
    )

IsAccounted-start :
    (k now : ℕ) (m : Monitor)
    → load k m.spans ≡ none
    → IsAccounted m
    → IsAccounted (on_started k now m)
unfolding on_started
IsAccounted-start k now m free h n lt = elim (same_or_other n m.started) [
  | inl new ↦
      inl (k, record { span = m.started; created_at = now }, load-store k _ m.spans, sym new)
  | inr old ↦ elim (h n (omega arith)) [
    | inr over ↦ inr over
    | inl (j, f, found, same) ↦
        let other : j ≢ k =
          (λ eq. some_ne_none f (sym found ∙ ap (λ i. load i m.spans) eq ∙ free)) in
        inl (j, f, load-store-other k j _ m.spans other ∙ found, same)
  ]
]

IsKnown-start :
    (k now : ℕ) (m : Monitor) (used : List ℕ)
    → IsKnown m used
    → IsKnown (on_started k now m) (k ∷ used)
unfolding on_started
IsKnown-start k now m used h j fresh =
    load-store-other k j _ m.spans (λ e. fresh.0 (sym e)) ∙ h j fresh.1

start-Invariant :
    (k now : ℕ) (s : Moment)
    → IsFresh k s.used
    → Invariant s
    → Invariant (record s { monitor = on_started k now s.monitor; used = k ∷ s.used })
start-Invariant k now s fresh (known, held, accounted) = (
  IsKnown-start k now s.monitor s.used known,
  IsHeld-start k now s.monitor s.used s.held fresh held,
  IsAccounted-start k now s.monitor (known k fresh) accounted,
)

step-Invariant : (s t : Moment) → Step s t → Invariant s → Invariant t
unfolding on_succeeded on_failed
step-Invariant s t (Step.starts k now _ fresh) h = start-Invariant k now s fresh h
step-Invariant s t (Step.succeeds k _) h = finish-Invariant k none s h
step-Invariant s t (Step.fails k failure _) h = finish-Invariant k failure s h
step-Invariant s t (Step.visits k now e _ idle there old) h =
    (h.0, (λ fresh. some_ne_none e (sym there ∙ h.0 k fresh), inl there), h.2)
step-Invariant s t (Step.purges k e _ held) h = purge-Invariant k e s held h

Reachable-Invariant : (s : Moment) → Reachable s → Invariant s
unfolding new_command_monitor load
Reachable-Invariant s Reachable.begins = (λ k fresh. refl, tt, λ n lt. absurd (omega arith))
Reachable-Invariant s (Reachable.goes r _ before step) =
    step-Invariant r s step (Reachable-Invariant r before)

-- Where every command has a request id of its own, in whatever order commands start, succeed and fail
-- and the janitor reads entries and ends their spans, every span that was started is tracked under
-- a request id or has ended.
pub Reachable-IsAccounted : (s : Moment) → Reachable s → IsAccounted s.monitor
Reachable-IsAccounted s r = (Reachable-Invariant s r).2
