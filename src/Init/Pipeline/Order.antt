-- ===== src/Init/Pipeline/Order.antt =====
-- In which order a run of the initialiser goes, and when it destroys itself.
use go_mongo_boilerplate.Base.{◌≡◌, Bool, List, [], ◌∷◌, ◌++◌, Option, none, some, All}
use go_mongo_boilerplate.Stdlib.Text.{Text, codes}
use go_mongo_boilerplate.Stdlib.Errors.{GoError}
use go_mongo_boilerplate.Init.Manifest.{Flags}
use go_mongo_boilerplate.Init.Pipeline.{Act, outcome, plan}
use go_mongo_boilerplate.Init.Pipeline.Plan.{InOrder}
use go_mongo_boilerplate.Init.Pipeline.Perform.{Succeeds}

module _ (env : Act → Option GoError) where
  -- The run ends at a step that fails, after others that succeed, and before the destruction.
  abbrev pub Fails : List Act × Option GoError → Type 0
  Fails r =
      InOrder 0 10 r.0
      × (before : List Act) × (a : Act) × (e : GoError) × (r.0 ≡ before ++ (a ∷ []))
      × (r.1 ≡ some e)
      × All (Succeeds env) before
      × (outcome env a ≡ some e)

  -- All that is done succeeds, and the destruction is left out.
  abbrev pub EndsEarly : List Act × Option GoError → Type 0
  EndsEarly r = InOrder 0 10 r.0 × All (Succeeds env) r.0 × (r.1 ≡ none)

  -- The removal of cmd/init follows a build that succeeds, as does all before it.
  abbrev pub Destroys : List Act × Option GoError → Type 0
  Destroys r =
      InOrder 0 14 r.0
      × (r.1 ≡ none)
      × (before : List Act) × (after : List Act) × (r.0
          ≡ before ++ (Act.command (codes "go build") ∷ Act.delete_path (codes "cmd/init") ∷ after))
      × All (Succeeds env) (before ++ (Act.command (codes "go build") ∷ []))

  module _ (module_path : Text) (flags : Flags) (no_mockery : Bool) where
    abbrev acts : List Act
    acts = plan module_path flags no_mockery
