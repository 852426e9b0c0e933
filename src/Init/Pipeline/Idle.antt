-- ===== src/Init/Pipeline/Idle.antt =====
-- When a run of the initialiser has nothing to do after the stripping.
use go_mongo_boilerplate.Base.{
  ◌≡◌, ◌⊎◌, ◌↔◌, not, refl, ◌∙◌, ap, Bool, true, false, ◌&&◌, ◌||◌, List, [], ◌∷◌, inl, inr, arith,
}
use go_mongo_boilerplate.Stdlib.Text.{Text, codes, text_eq, text_eq→eq, text_eq_refl, is_empty}
use go_mongo_boilerplate.Init.Manifest.{Flags}
use go_mongo_boilerplate.Init.Pipeline.{nothing_selected, old_module}

-- No feature is to be stripped, the worker stays, and the module keeps its path.
abbrev pub IsIdle : Text → Flags → Type 0
IsIdle module_path flags =
    (flags.selected ≡ [])
    × ((flags.no_kafka ≡ false) ⊎ (flags.no_sqs ≡ false))
    × ((module_path ≡ []) ⊎ (module_path ≡ codes "github.com/rock288/go-mongo-boilerplate"))

same_module :
    (m : Text)
    → ((is_empty m || text_eq m old_module) ≡ true)
      ↔ ((m ≡ []) ⊎ (m ≡ codes "github.com/rock288/go-mongo-boilerplate"))
same_module [] = ((λ h. inl refl), (λ h. refl))
same_module (c ∷ m) = (
  (λ h. inr (text_eq→eq (c ∷ m) old_module h)),
  (λ h. elim h [
    | inl e ↦ absurd (cc e)
    | inr e ↦ ap (λ t. text_eq t old_module) e ∙ text_eq_refl old_module
  ]),
)

some_broker : (k s : Bool) → ((not k || not s) ≡ true) ↔ ((k ≡ false) ⊎ (s ≡ false))
some_broker true true =
    ((λ h. absurd (cc h)), (λ h. elim h [ inl e ↦ absurd (cc e) | inr e ↦ absurd (cc e) ]))
some_broker true false = ((λ h. inr refl), (λ h. refl))
some_broker false s = ((λ h. inl refl), (λ h. refl))

both : (a b : Bool) → ((a && b) ≡ true) ↔ ((a ≡ true) × (b ≡ true))
both a b = (λ h. ground arith, λ h. ground arith)

pub nothing_selected_iff :
    (module_path : Text) (flags : Flags)
    → (nothing_selected module_path flags ≡ true) ↔ IsIdle module_path flags
unfolding nothing_selected
nothing_selected_iff module_path flags = idle flags.selected
  where
    idle :
        (selected : List Text)
        → (nothing_selected module_path (record flags { selected = selected }) ≡ true)
          ↔ IsIdle module_path (record flags { selected = selected })
    idle [] = (
      (λ h.
          let t = (both _ _).0 h in
          (refl, (some_broker flags.no_kafka flags.no_sqs).0 t.0, (same_module module_path).0 t.1)),
      (λ h.
          (both _ _).1
            ((some_broker flags.no_kafka flags.no_sqs).1 h.1, (same_module module_path).1 h.2)),
    )
    idle (x ∷ xs) = ((λ h. absurd (cc h)), (λ h. absurd (cc (h.0))))
