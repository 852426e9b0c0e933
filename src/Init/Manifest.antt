-- ===== src/Init/Manifest.antt =====
-- cmd/init/manifest.go, prompt.go and main.go: the features, which of them are stripped, and what the
-- summary says of it.
pub mod Summary
use go_mongo_boilerplate.Base.{
  ℕ, Bool, true, false, ◌&&◌, ◌||◌, not, List, [], ◌∷◌, ◌++◌, Option, none, some, if◌then◌else◌,
}
use go_mongo_boilerplate.Stdlib.Text.{Text, codes, text_eq, is_empty}

-- The names of the manifest's entries.
abbrev pub kafka : Text
kafka = codes "kafka"

abbrev pub sqs : Text
sqs = codes "sqs"

abbrev pub observability : Text
observability = codes "observability"

abbrev pub samples : Text
samples = codes "samples"

-- `Feature`; `MarkerFiles` is the same list for each, and is left out.
pub record Feature : Type 0 where
  pub name : Text
  pub delete_paths : List Text

abbrev pub features : List Feature
features =
    record {
      name = kafka;
      delete_paths =
          codes "internal/platform/kafka"
          ∷ codes "internal/user/event_handler.go"
          ∷ codes "internal/user/event_handler_test.go"
          ∷ codes "internal/platform/health/kafka_checker.go"
          ∷ codes "internal/platform/health/kafka_checker_test.go"
          ∷ [];
    }
    ∷ record {
      name = sqs;
      delete_paths =
          codes "internal/platform/sqs"
          ∷ codes "internal/platform/health/sqs_checker.go"
          ∷ codes "internal/platform/health/sqs_checker_test.go"
          ∷ codes "docker-compose.localstack.yml"
          ∷ codes "scripts/sqs-create-dev-queues.sh"
          ∷ [];
    }
    ∷ record {
      name = observability;
      delete_paths =
          codes "internal/platform/observability"
          ∷ codes "internal/platform/database/mongo_otel.go"
          ∷ codes "internal/platform/config/config_observability_test.go"
          ∷ codes "docker-compose.signoz.yml"
          ∷ codes "deploy/signoz"
          ∷ [];
    }
    ∷ record {
      name = samples;
      delete_paths =
          codes "internal/user" ∷ codes "internal/role" ∷ codes "scripts/scaffold.sh" ∷ [];
    }
    ∷ []

-- The loop of `findFeature`.
unfoldable pub find_in : List Feature → Text → Option Feature
find_in [] name = none
find_in (f ∷ fs) name = if text_eq f.name name then some f else find_in fs name

unfoldable pub find_feature : Text → Option Feature
unfolding find_in
find_feature name = find_in features name

abbrev pub include : Bool → Text → List Text
include b name = if b then name ∷ [] else []

unfoldable pub compute_strip_list : (no_kafka no_sqs no_obs no_samples : Bool) → List Text
compute_strip_list no_kafka no_sqs no_obs no_samples =
    include no_kafka kafka
    ++ (include no_sqs sqs ++ (include no_obs observability ++ include no_samples samples))

-- The map `Keep` of a `Selection`, read at its four keys, and the module.
pub record Selection : Type 0 where
  pub module_path : Text
  pub keep_kafka : Bool
  pub keep_sqs : Bool
  pub keep_observability : Bool
  pub keep_samples : Bool

unfoldable pub strip_list_from_selection : Selection → List Text
unfolding compute_strip_list
strip_list_from_selection s =
    compute_strip_list (not s.keep_kafka) (not s.keep_sqs) (not s.keep_observability)
      (not s.keep_samples)

unfoldable pub kept_and_removed : (no_kafka no_sqs no_obs no_samples : Bool) → List Text × List Text
kept_and_removed no_kafka no_sqs no_obs no_samples = (
  include (not no_kafka) kafka
      ++ (include (not no_sqs) sqs
          ++ (include (not no_obs) observability ++ include (not no_samples) samples)),
  include no_kafka kafka
      ++ (include no_sqs sqs
          ++ (include no_obs observability
              ++ (include no_samples samples
                  ++ include (no_kafka && no_sqs) (codes "worker (cascade)")))),
)

-- The variables of `main` that the later steps read.
pub record Flags : Type 0 where
  pub no_kafka : Bool
  pub no_sqs : Bool
  pub no_obs : Bool
  pub no_samples : Bool
  pub selected : List Text

-- After the flags, and after the prompt if there is one.
unfoldable pub from_flags : (no_kafka no_sqs no_obs no_samples : Bool) → Flags
unfolding compute_strip_list
from_flags no_kafka no_sqs no_obs no_samples = record {
  no_kafka = no_kafka;
  no_sqs = no_sqs;
  no_obs = no_obs;
  no_samples = no_samples;
  selected = compute_strip_list no_kafka no_sqs no_obs no_samples;
}

unfoldable pub after_prompt : Selection → Flags → Flags
unfolding strip_list_from_selection
after_prompt sel flags = record flags {
  selected = strip_list_from_selection sel;
  no_kafka = not sel.keep_kafka;
  no_sqs = not sel.keep_sqs;
}

-- Whether the worker is deleted as well.
unfoldable pub cascades : Flags → Bool
cascades flags = flags.no_kafka && flags.no_sqs

unfoldable pub summary : Flags → List Text × List Text
unfolding kept_and_removed
summary flags = kept_and_removed flags.no_kafka flags.no_sqs flags.no_obs flags.no_samples
