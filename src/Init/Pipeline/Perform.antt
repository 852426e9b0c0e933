-- ===== src/Init/Pipeline/Perform.antt =====
-- How far a run of the initialiser gets with its steps.
use go_mongo_boilerplate.Base.{
  ℕ, ◌≡◌, refl, ◌∙◌, ap, Bool, true, false, List, [], ◌∷◌, ◌++◌, Option, none, some, All, inl, inr,
  Option-cases,
}
use go_mongo_boilerplate.Stdlib.Errors.{GoError}
use go_mongo_boilerplate.Init.Pipeline.{Act, outcome, after_act, perform, finish, self_destruct}
use go_mongo_boilerplate.Init.Pipeline.Plan.{InOrder, Planned, refuses, stage}

module _ (env : Act → Option GoError) where
  abbrev pub Succeeds : Act → Type 0
  Succeeds a = outcome env a ≡ none

  refusal : (a : Act) → refuses a ≡ true → (e : GoError) × (outcome env a ≡ some e)
  unfolding outcome
  refusal (Act.refuse e) h = (e, refl)
  refusal (Act.mod_edit m) h = absurd (cc h)
  refusal (Act.rewrite_files m) h = absurd (cc h)
  refusal (Act.delete_path p) h = absurd (cc h)
  refusal (Act.strip_file f p) h = absurd (cc h)
  refusal (Act.look_path b) h = absurd (cc h)
  refusal (Act.remove_generated p) h = absurd (cc h)
  refusal (Act.command n) h = absurd (cc h)
  refusal Act.strip_residual_markers h = absurd (cc h)

  pub perform-InOrder :
      (lo hi : ℕ) (acts : List Act) → Planned lo hi acts → InOrder lo hi (perform env acts).0
  unfolding perform after_act
  perform-InOrder lo hi [] p = tt
  perform-InOrder lo hi (a ∷ acts) (inl r) =
      let (e, err) = refusal a r in rw (err, after_act) (inl (r, refl))
  perform-InOrder lo hi (a ∷ acts) (inr (l, u, p)) = elim (Option-cases (outcome env a)) [
    | inl good ↦ rw (good, after_act) (inr (l, u, perform-InOrder (stage a) hi acts p))
    | inr (e, bad) ↦ rw (bad, after_act) (inr (l, u, tt))
  ]

  -- A list that is performed without an error is performed as a whole, with success.
  pub perform-none :
      (acts : List Act)
      → (perform env acts).1 ≡ none
      → ((perform env acts).0 ≡ acts) × All Succeeds acts
  unfolding perform after_act
  perform-none [] h = (refl, tt)
  perform-none (a ∷ acts) h = elim (Option-cases (outcome env a)) [
    | inl good ↦
        let (same, all) = perform-none acts (rw (good, after_act) at h) in
        (rw (good, after_act) (ap (λ t. a ∷ t) same), (good, all))
    | inr (e, bad) ↦ absurd (cc (rw (bad, after_act) at h))
  ]

  pub perform-append :
      (xs ys : List Act)
      → (perform env xs).1 ≡ none
      → (perform env (xs ++ ys)).0 ≡ (perform env xs).0 ++ (perform env ys).0
  unfolding perform after_act
  perform-append [] ys h = refl
  perform-append (a ∷ xs) ys h = elim (Option-cases (outcome env a)) [
    | inl good ↦
        rw (good, after_act) (ap (λ t. a ∷ t) (perform-append xs ys (rw (good, after_act) at h)))
    | inr (e, bad) ↦ absurd (cc (rw (bad, after_act) at h))
  ]

  pub perform-first :
      (a : Act) (acts : List Act) → (rest : List Act) × ((perform env (a ∷ acts)).0 ≡ a ∷ rest)
  unfolding perform after_act
  perform-first a acts = elim (Option-cases (outcome env a)) [
    | inl good ↦ ((perform env acts).0, rw (good, after_act))
    | inr (e, bad) ↦ ([], rw (bad, after_act))
  ]

  pub perform-some :
      (acts : List Act) (e : GoError)
      → (perform env acts).1 ≡ some e
      → (before : List Act) × (a : Act) × ((perform env acts).0 ≡ before ++ (a ∷ []))
        × All Succeeds before
        × (outcome env a ≡ some e)
  unfolding perform after_act
  perform-some [] e h = absurd (cc h)
  perform-some (a ∷ acts) e h = elim (Option-cases (outcome env a)) [
    | inl good ↦
        let (before, b, done, all, bad) = perform-some acts e (rw (good, after_act) at h) in
        (a ∷ before, b, rw (good, after_act) (ap (λ t. a ∷ t) done), (good, all), bad)
    | inr (f, bad) ↦ ([], a, rw (bad, after_act) refl, tt, bad ∙ (rw (bad, after_act) at h))
  ]

  pub finish-some :
      (skipped : Bool) (r : List Act × Option GoError) (e : GoError)
      → r.1 ≡ some e
      → finish env skipped r ≡ r
  unfolding finish
  finish-some skipped (done, some f) e h = refl
  finish-some skipped (done, none) e h = absurd (cc h)

  pub finish-skipped : (r : List Act × Option GoError) → r.1 ≡ none → finish env true r ≡ r
  unfolding finish
  finish-skipped (done, none) h = refl
  finish-skipped (done, some f) h = absurd (cc h)

  pub finish-none :
      (r : List Act × Option GoError)
      → r.1 ≡ none
      → finish env false r ≡ (r.0 ++ (perform env self_destruct).0, none)
  unfolding finish
  finish-none (done, none) h = refl
  finish-none (done, some f) h = absurd (cc h)
