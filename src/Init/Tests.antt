-- ===== src/Init/Tests.antt =====
-- Runs of the initialiser, and the theorems applied to them.
use go_mongo_boilerplate.Base.{◌++◌, ◌≡◌, refl, true, false, List, [], ◌∷◌}
use go_mongo_boilerplate.Stdlib.Text.{Text, codes}
use go_mongo_boilerplate.Stdlib.Search.{contains, has_prefix}
use go_mongo_boilerplate.Init.Strip.{start_token, end_token, Read, Strip, strip_feature}
use go_mongo_boilerplate.Init.Blocks.Rewritten.{WithoutBlank, EndsLike, strip_feature_block}
use go_mongo_boilerplate.Init.Blocks.Runs.{CutRuns}
use go_mongo_boilerplate.Base.{Option, none, some, if◌then◌else◌}
use go_mongo_boilerplate.Stdlib.Text.{text_eq, trim_suffix}
use go_mongo_boilerplate.Stdlib.Search.{scan_lines, raw_lines, push_char}
use go_mongo_boilerplate.Stdlib.Errors.{GoError}
use go_mongo_boilerplate.Init.Strip.{fit_end}
use go_mongo_boilerplate.Init.Residual.{
  is_marked, name_then_end, is_name_char, cut_prefix, unmarked_lines, join_lines, strip_residual,
}
use go_mongo_boilerplate.Init.Residual.Clean.{strip_residual-IsClean}
use go_mongo_boilerplate.Init.Pipeline.{Act}
use go_mongo_boilerplate.Init.Manifest.{
  Selection, Flags, from_flags, after_prompt, summary, observability,
}
use go_mongo_boilerplate.Init.Manifest.Summary.{has, summary-after_prompt}

abbrev input : Text
input = codes "a\n\n// feature:sqs:start\nb\n// feature:sqs:end\nc"

strip_feature_block_example :
    (kept : List Text) × (text out : Text) × WithoutBlank (codes "a" ∷ [] ∷ []) kept
    × EndsLike input (kept ++ (codes "c" ∷ [])) text
    × CutRuns text out
    × (strip_feature (codes "f") (codes "sqs") (Read.contents input) ≡ Strip.rewritten out)
unfolding start_token end_token contains has_prefix scan_lines raw_lines push_char trim_suffix
    text_eq
strip_feature_block_example =
    strip_feature_block (codes "f") (codes "sqs") input (codes "a" ∷ [] ∷ []) (codes "b" ∷ [])
      (codes "c" ∷ []) (codes "// feature:sqs:start") (codes "// feature:sqs:end") refl
      (refl, (refl, tt)) refl (refl, tt) refl (refl, tt)

abbrev selection : Selection
selection = record {
  module_path = codes "example.com/shop";
  keep_kafka = true;
  keep_sqs = false;
  keep_observability = false;
  keep_samples = true;
}

abbrev defaults : Flags
defaults = from_flags false false false false

summary-after_prompt_example :
    (has observability (after_prompt selection defaults).selected ≡ true)
    × (has observability (summary (after_prompt selection defaults)).0 ≡ true)
unfolding from_flags
summary-after_prompt_example = summary-after_prompt selection defaults refl refl

strip_residual-IsClean_example : is_marked (codes "a\n") ≡ false
unfolding strip_residual is_marked name_then_end is_name_char cut_prefix unmarked_lines join_lines
    fit_end scan_lines raw_lines push_char trim_suffix text_eq
strip_residual-IsClean_example =
    strip_residual-IsClean (codes "a\n# feature:sqs:end\n") (codes "a\n") refl

-- The tidy-up after the stripping fails.
abbrev tidy_fails : Act → Option GoError
tidy_fails (Act.command name) =
    if text_eq name (codes "go mod tidy")
    then some (GoError.plain (codes "exit status 1"))
    else none
tidy_fails _ = none

abbrev flags : Flags
flags = from_flags true false false false
