-- ===== src/Init/Pipeline/Plan.antt =====
-- In which order the steps of a run of the initialiser are planned.
use mathlib.Core.List.{append_assoc}
use go_mongo_boilerplate.Base.{
  ℕ, ◌≤◌, ◌≡◌, ◌⊎◌, refl, ◌∙◌, sym, ap, Bool, true, false, ◌&&◌, ◌||◌, List, [], ◌∷◌, ◌++◌, All,
  inl, inr, if◌then◌else◌, leb, arith, Bool-cases, Option-cases,
}
use mathlib.Core.Path.{subst}
use go_mongo_boilerplate.Stdlib.Text.{Text, codes, text_eq, text_eq→eq, is_empty}
use go_mongo_boilerplate.Init.Manifest.{Feature, Flags, find_feature, find_in, features, cascades}
use go_mongo_boilerplate.Init.Rename.{validate_module_path}
use go_mongo_boilerplate.Init.Pipeline.{
  Act, plan, nothing_selected, self_destruct, rename_module, old_module, delete_paths, strip_files,
  strip_selected, strip_all, cascade, post_actions,
}

abbrev pub named : Text → List (Text × ℕ) → ℕ
named name [] = 0
named name ((k, n) ∷ rest) = if text_eq k name then n else named name rest

-- The renaming, the stripping of the features, that of the worker, the post-actions one by one, and the
-- four steps of the self-destruction.
abbrev pub stage : Act → ℕ
stage (Act.refuse e) = 0
stage (Act.mod_edit m) = 0
stage (Act.rewrite_files m) = 1
stage (Act.delete_path p) =
    if text_eq p (codes "cmd/init") then 11 else if text_eq p (codes "cmd/worker") then 3 else 2
stage (Act.strip_file feature file) = if text_eq feature (codes "worker") then 3 else 2
stage (Act.look_path bin) = 4
stage (Act.remove_generated p) = 5
stage (Act.command name) = named name (
    (codes "gofmt", 6)
    ∷ (codes "wire regen", 7)
    ∷ (codes "go mod tidy", 8)
    ∷ (codes "mockery regen", 9)
    ∷ (codes "go build", 10)
    ∷ (codes "final gofmt", 13)
    ∷ (codes "final go mod tidy", 14)
    ∷ [])
stage Act.strip_residual_markers = 12

abbrev pub refuses : Act → Bool
refuses (Act.refuse e) = true
refuses _ = false

-- From stage to stage without a step back, up to a refusal, behind which nothing comes.
abbrev pub InOrder : ℕ → ℕ → List Act → Type 0
InOrder lo hi [] = Unit
InOrder lo hi (a ∷ acts) =
    ((refuses a ≡ true) × (acts ≡ []))
    ⊎ ((lo ≤ stage a) × (stage a ≤ hi) × InOrder (stage a) hi acts)

-- The same of a plan, whose steps behind a refusal are not reached.
abbrev pub Planned : ℕ → ℕ → List Act → Type 0
Planned lo hi [] = Unit
Planned lo hi (a ∷ acts) =
    (refuses a ≡ true) ⊎ ((lo ≤ stage a) × (stage a ≤ hi) × Planned (stage a) hi acts)

abbrev planned : ℕ → ℕ → List Act → Bool
planned lo hi [] = true
planned lo hi (a ∷ acts) = leb lo (stage a) && (leb (stage a) hi && planned (stage a) hi acts)

planned-Planned : (lo hi : ℕ) (acts : List Act) → planned lo hi acts ≡ true → Planned lo hi acts
planned-Planned lo hi [] h = tt
planned-Planned lo hi (a ∷ acts) h =
    inr (ground arith, ground arith, planned-Planned (stage a) hi acts (ground arith))

pub Planned-below :
    (lo lo' hi : ℕ) (acts : List Act) → lo' ≤ lo → Planned lo hi acts → Planned lo' hi acts
Planned-below lo lo' hi [] h p = tt
Planned-below lo lo' hi (a ∷ acts) h (inl r) = inl r
Planned-below lo lo' hi (a ∷ acts) h (inr (l, u, p)) = inr (omega arith, u, p)

pub Planned-append :
    (lo mid hi : ℕ) (xs ys : List Act)
    → lo ≤ mid
    → mid ≤ hi
    → Planned lo mid xs
    → Planned mid hi ys
    → Planned lo hi (xs ++ ys)
Planned-append lo mid hi [] ys l u p q = Planned-below mid lo hi ys l q
Planned-append lo mid hi (a ∷ xs) ys l u (inl r) q = inl r
Planned-append lo mid hi (a ∷ xs) ys l u (inr (b, c, p)) q =
    inr (b, omega arith, Planned-append (stage a) mid hi xs ys c u p q)

rename_module-Planned : (m : Text) → Planned 0 1 (rename_module m)
unfolding rename_module
rename_module-Planned m = elim (Bool-cases (is_empty m || text_eq m old_module)) [
  | inl same ↦ rw same tt
  | inr new ↦ elim (Option-cases (validate_module_path m)) [
    | inl valid ↦
        rw (new, valid) (planned-Planned 0 1 (Act.mod_edit m ∷ Act.rewrite_files m ∷ []) refl)
    | inr (e, bad) ↦ rw (new, bad) (inl refl)
  ]
]

strip_selected-Planned :
    (fs : List Feature) (name : Text)
    → All (λ f. planned 2 2 (delete_paths f.delete_paths ++ strip_files f.name) ≡ true) fs
    → Planned 2 2 (strip_selected name (find_in fs name))
unfolding strip_selected find_in delete_paths strip_files
strip_selected-Planned [] name h = inl refl
strip_selected-Planned (f ∷ fs) name h = elim (Bool-cases (text_eq f.name name)) [
  | inl same ↦ rw same (
      subst (λ n. Planned 2 2 (delete_paths f.delete_paths ++ strip_files n))
        (text_eq→eq f.name name same)
        (planned-Planned 2 2 (delete_paths f.delete_paths ++ strip_files f.name) h.0))
  | inr other ↦ rw other (strip_selected-Planned fs name h.1)
]

strip_all-Planned : (names : List Text) → Planned 2 2 (strip_all names)
unfolding strip_all find_feature delete_paths strip_files text_eq
strip_all-Planned [] = tt
strip_all-Planned (name ∷ names) =
    Planned-append 2 2 2 (strip_selected name (find_feature name)) (strip_all names) (omega arith)
      (omega arith) (strip_selected-Planned features name (refl, (refl, (refl, (refl, tt)))))
      (strip_all-Planned names)

cascade-Planned : (flags : Flags) → Planned 3 3 (cascade flags)
unfolding cascade delete_paths strip_files text_eq
cascade-Planned flags = elim (Bool-cases (cascades flags)) [
  | inl on ↦ rw on (
      planned-Planned 3 3 (delete_paths (codes "cmd/worker" ∷ []) ++ strip_files (codes "worker"))
        refl)
  | inr off ↦ rw off tt
]

post_actions-Planned : (no_mockery : Bool) → Planned 4 10 (post_actions no_mockery)
unfolding post_actions text_eq
post_actions-Planned true = planned-Planned 4 10 (post_actions true) refl
post_actions-Planned false = planned-Planned 4 10 (post_actions false) refl

pub self_destruct-Planned : Planned 11 14 self_destruct
unfolding self_destruct text_eq
self_destruct-Planned = planned-Planned 11 14 self_destruct refl

abbrev pub EndsIn : Act → List Act → Type 0
EndsIn a acts = (before : List Act) × (acts ≡ before ++ (a ∷ []))

abbrev last_of : Act → List Act → Act
last_of a [] = a
last_of a (b ∷ acts) = last_of b acts

EndsIn-last_of : (a : Act) (acts : List Act) → EndsIn (last_of a acts) (a ∷ acts)
EndsIn-last_of a [] = ([], refl)
EndsIn-last_of a (b ∷ acts) =
    let (before, e) = EndsIn-last_of b acts in (a ∷ before, ap (λ t. a ∷ t) e)

pub EndsIn-append : (a : Act) (xs ys : List Act) → EndsIn a ys → EndsIn a (xs ++ ys)
EndsIn-append a xs ys (before, e) =
    (xs ++ before, ap (λ t. xs ++ t) e ∙ sym (append_assoc xs before (a ∷ [])))

pub post_actions-EndsIn :
    (no_mockery : Bool) → EndsIn (Act.command (codes "go build")) (post_actions no_mockery)
unfolding post_actions
post_actions-EndsIn true = EndsIn-last_of (Act.look_path (codes "wire")) _
post_actions-EndsIn false = EndsIn-last_of (Act.look_path (codes "wire")) _

-- The steps up to the destruction: all of them, or the first few.
pub front-Planned :
    (module_path : Text) (flags : Flags) (no_mockery : Bool)
    → Planned 0 10 (plan module_path flags no_mockery)
unfolding plan
front-Planned module_path flags no_mockery =
    Planned-append 0 1 10 (rename_module module_path) _ (omega arith) (omega arith)
      (rename_module-Planned module_path)
      (Planned-append 1 2 10 (strip_all flags.selected) _ (omega arith) (omega arith)
        (Planned-below 2 1 2 (strip_all flags.selected) (omega arith)
          (strip_all-Planned flags.selected))
        (Planned-append 2 3 10 (cascade flags) _ (omega arith) (omega arith)
          (Planned-below 3 2 3 (cascade flags) (omega arith) (cascade-Planned flags))
          (rest (nothing_selected module_path flags))))
  where
    rest : (b : Bool) → Planned 3 10 (if b then [] else post_actions no_mockery)
    rest true = tt
    rest false =
        Planned-below 4 3 10 (post_actions no_mockery) (omega arith)
          (post_actions-Planned no_mockery)
