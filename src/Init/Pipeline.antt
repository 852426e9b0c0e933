-- ===== src/Init/Pipeline.antt =====
-- cmd/init/main.go, actions.go, deleter.go, destruct.go and renameModule of rename.go: the steps of a
-- run in their order. What a step does to the tree, and whether it fails, is the outside's.
use go_mongo_boilerplate.Base.{
  ℕ, Bool, true, false, ◌&&◌, ◌||◌, not, List, [], ◌∷◌, ◌++◌, Option, none, some, if◌then◌else◌,
  map,
}
use go_mongo_boilerplate.Stdlib.Text.{Text, codes, text_eq, is_empty}
use go_mongo_boilerplate.Stdlib.Errors.{GoError, plain}
use go_mongo_boilerplate.Init.Manifest.{Feature, Flags, find_feature, cascades}
use go_mongo_boilerplate.Init.Rename.{validate_module_path}
pub mod Plan
pub mod Idle
pub mod Perform
pub mod Order

-- A step: a refusal without any effect, `go mod edit`, the rewriting of the files, the removal of a path,
-- the stripping of a feature from a file, and a command of the post-actions with its name, a search of
-- the path for a program, the removal of a generated file, and that of the markers left over.
pub data Act : Type 0 where
  refuse : GoError → Act
  mod_edit : Text → Act
  rewrite_files : Text → Act
  delete_path : Text → Act
  strip_file : Text → Text → Act
  look_path : Text → Act
  remove_generated : Text → Act
  command : Text → Act
  strip_residual_markers : Act

abbrev pub old_module : Text
old_module = codes "github.com/rock288/go-mongo-boilerplate"

abbrev pub all_marker_files : List Text
all_marker_files =
    codes "cmd/server/wire.go"
    ∷ codes "cmd/server/providers.go"
    ∷ codes "cmd/server/main.go"
    ∷ codes "cmd/worker/wire.go"
    ∷ codes "cmd/worker/providers.go"
    ∷ codes "cmd/worker/main.go"
    ∷ codes "internal/platform/config/config.go"
    ∷ codes "internal/platform/database/mongo.go"
    ∷ codes "internal/user/wire.go"
    ∷ codes "config/config.yaml"
    ∷ codes ".mockery.yaml"
    ∷ codes "Makefile"
    ∷ codes "docker-compose.yml"
    ∷ codes ".env.example"
    ∷ codes "README.md"
    ∷ codes "CLAUDE.md"
    ∷ []

-- The error of a step; a refusal has its own, and that of the removal of a generated file is dropped.
unfoldable pub outcome : (Act → Option GoError) → Act → Option GoError
outcome env (Act.refuse e) = some e
outcome env (Act.remove_generated path) = none
outcome env a = env a

unfoldable pub after_act :
    Act → Option GoError → List Act × Option GoError → List Act × Option GoError
after_act a none rest = (a ∷ rest.0, rest.1)
after_act a (some e) rest = (a ∷ [], some e)

-- The steps up to the first that fails, with its error.
unfoldable pub perform : (Act → Option GoError) → List Act → List Act × Option GoError
unfolding outcome after_act
perform env [] = ([], none)
perform env (a ∷ acts) = after_act a (outcome env a) (perform env acts)

unfoldable pub rename_module : Text → List Act
unfolding validate_module_path
rename_module new_module =
    if is_empty new_module || text_eq new_module old_module
    then []
    else elim (validate_module_path new_module) [
      | some e ↦ Act.refuse e ∷ []
      | none ↦ Act.mod_edit new_module ∷ Act.rewrite_files new_module ∷ []
    ]

unfoldable pub delete_paths : List Text → List Act
delete_paths = map Act.delete_path

unfoldable pub strip_files : Text → List Act
strip_files name = map (Act.strip_file name) all_marker_files

unfoldable pub strip_selected : Text → Option Feature → List Act
unfolding delete_paths strip_files
strip_selected name none = Act.refuse (plain (codes "unknown feature " ++ name)) ∷ []
strip_selected name (some feature) = delete_paths feature.delete_paths ++ strip_files name

unfoldable pub strip_all : List Text → List Act
unfolding strip_selected find_feature
strip_all [] = []
strip_all (name ∷ names) = strip_selected name (find_feature name) ++ strip_all names

unfoldable pub cascade : Flags → List Act
unfolding cascades delete_paths strip_files
cascade flags =
    if cascades flags
    then delete_paths (codes "cmd/worker" ∷ []) ++ strip_files (codes "worker")
    else []

abbrev pub check_prereqs : List Act
check_prereqs = Act.look_path (codes "wire") ∷ Act.look_path (codes "mockery") ∷ []

-- The pipeline; `no_mockery` is what `skipIfNoMockeryConfig` says when its turn comes.
unfoldable pub post_actions : (no_mockery : Bool) → List Act
post_actions no_mockery =
    check_prereqs
    ++ (Act.remove_generated (codes "cmd/server/wire_gen.go")
        ∷ Act.remove_generated (codes "cmd/worker/wire_gen.go")
        ∷ Act.command (codes "gofmt")
        ∷ Act.command (codes "wire regen")
        ∷ Act.command (codes "go mod tidy")
        ∷ ((if no_mockery then [] else Act.command (codes "mockery regen") ∷ [])
            ++ (Act.command (codes "go build") ∷ [])))

abbrev pub remove_init : Act
remove_init = Act.delete_path (codes "cmd/init")

unfoldable pub self_destruct : List Act
self_destruct =
    remove_init
    ∷ Act.strip_residual_markers
    ∷ Act.command (codes "final gofmt")
    ∷ Act.command (codes "final go mod tidy")
    ∷ []

-- Whether the run ends before the post-actions.
unfoldable pub nothing_selected : Text → Flags → Bool
nothing_selected module_path flags =
    is_nil flags.selected
    && (not flags.no_kafka || not flags.no_sqs)
    && (is_empty module_path || text_eq module_path old_module)
  where
    is_nil : List Text → Bool
    is_nil [] = true
    is_nil (_ ∷ _) = false

-- The steps that must all succeed.
unfoldable pub plan : Text → Flags → (no_mockery : Bool) → List Act
unfolding rename_module strip_all cascade nothing_selected post_actions
plan module_path flags no_mockery =
    rename_module module_path
    ++ (strip_all flags.selected
        ++ (cascade flags
            ++ (if nothing_selected module_path flags then [] else post_actions no_mockery)))

-- After them; the error of the self-destruction is only logged.
unfoldable pub finish :
    (Act → Option GoError)
    → (skipped : Bool) → List Act × Option GoError
    → List Act × Option GoError
unfolding perform self_destruct
finish env skipped (done, some e) = (done, some e)
finish env true (done, none) = (done, none)
finish env false (done, none) = (done ++ (perform env self_destruct).0, none)

-- The steps of a run with the error that ends it, if one does.
unfoldable pub run_init :
    (Act → Option GoError) → Text → Flags → (no_mockery : Bool) → List Act × Option GoError
unfolding finish perform plan nothing_selected
run_init env module_path flags no_mockery =
    finish env (nothing_selected module_path flags)
      (perform env (plan module_path flags no_mockery))
