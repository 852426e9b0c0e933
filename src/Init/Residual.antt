-- ===== src/Init/Residual.antt =====
-- stripAllResidualMarkers of cmd/init/stripper.go, on the contents of one file, and what main.go,
-- rename.go and actions.go read from go.mod and .mockery.yaml. Lines are within the scanner's buffer.
use go_mongo_boilerplate.Base.{
  ℕ, Bool, true, false, ◌&&◌, ◌||◌, not, List, [], ◌∷◌, ◌++◌, Option, none, some, leb, ◌==◌,
  if◌then◌else◌, drop,
}
use go_mongo_boilerplate.Stdlib.Text.{Text, codes, is_empty, text_eq}
use go_mongo_boilerplate.Stdlib.Errors.{GoError, plain}
use go_mongo_boilerplate.Stdlib.Outcome.{Outcome, ◌>>=◌}
use go_mongo_boilerplate.Stdlib.Search.{
  contains, has_prefix, is_space, last?, raw_lines, scan_lines,
}
use go_mongo_boilerplate.Cors.{trim_left, trim_right}
use go_mongo_boilerplate.Init.Strip.{fit_end}
pub mod Clean

-- What stands behind a prefix.
unfoldable pub cut_prefix : Text → Text → Option Text
cut_prefix [] s = some s
cut_prefix (p ∷ ps) [] = none
cut_prefix (p ∷ ps) (c ∷ s) = let rest = cut_prefix ps s in if p == c then rest else none

-- A character of `[a-zA-Z0-9_-]`.
unfoldable pub is_name_char : ℕ → Bool
is_name_char c =
    (leb b'a' c && leb c b'z')
    || (leb b'A' c && leb c b'Z')
    || (leb b'0' c && leb c b'9')
    || c == b'_'
    || c == b'-'

abbrev pub starts : Text → Text → Bool
starts p s = elim (cut_prefix p s) [ none ↦ false | some _ ↦ true ]

-- `[a-zA-Z0-9_-]+:(start|end)` at the start of the text; `seen` is whether a character of the name was.
unfoldable pub name_then_end : (seen : Bool) → Text → Bool
unfolding is_name_char cut_prefix
name_then_end seen [] = false
name_then_end seen (c ∷ s) =
    let more = name_then_end true s in
    if is_name_char c
    then more
    else seen && (starts (codes ":start") (c ∷ s) || starts (codes ":end") (c ∷ s))

abbrev pub marker_tail : Option Text → Bool
marker_tail none = false
marker_tail (some s) = name_then_end false s

-- Whether `residualMarkerRe` matches somewhere.
unfoldable pub is_marked : Text → Bool
unfolding name_then_end cut_prefix
is_marked [] = false
is_marked (c ∷ s) = marker_tail (cut_prefix (codes "feature:") (c ∷ s)) || is_marked s

unfoldable pub unmarked_lines : List Text → List Text
unfolding is_marked
unmarked_lines [] = []
unmarked_lines (l ∷ ls) = let rest = unmarked_lines ls in if is_marked l then rest else l ∷ rest

unfoldable pub join_lines : List Text → Text
join_lines [] = []
join_lines (l ∷ ls) = l ++ (b'\n' ∷ join_lines ls)

-- What is written to the file, if it is.
unfoldable pub strip_residual : Text → Option Text
unfolding is_marked unmarked_lines join_lines
strip_residual input =
    if is_marked input
    then some (fit_end input (join_lines (unmarked_lines (scan_lines input))))
    else none

-- `strings.TrimSpace`.
abbrev trim_space : Text → Text
trim_space s = trim_right (trim_left s)

-- The loop of `detectCurrentModule`; the part of `Split` behind the last newline is a line if it is not
-- empty, which is all that matters here.
unfoldable pub module_line : List Text → Option Text
unfolding cut_prefix
module_line [] = none
module_line (l ∷ ls) =
    let rest = module_line ls in
    elim (cut_prefix (codes "module ") l) [ none ↦ rest | some name ↦ some (trim_space name) ]

module_or : Option Text → Outcome Text
module_or none = Outcome.err (plain (codes "no module directive in go.mod"))
module_or (some name) = Outcome.ok name

-- On what the read of go.mod gives.
unfoldable pub detect_current_module : Outcome Text → Outcome Text
unfolding module_line module_or
detect_current_module read = do text ← read; module_or (module_line (raw_lines text))

unfoldable pub default_module : Text → Outcome Text → Text
default_module given detected = if not (is_empty given) then given else elim detected [
  | Outcome.err _ ↦ codes "github.com/yourorg/your-service"
  | Outcome.ok name ↦
      if is_empty name || text_eq name (codes "github.com/rock288/go-mongo-boilerplate")
      then codes "github.com/yourorg/your-service"
      else name
]

-- `strings.HasSuffix` for a colon.
abbrev ends_in_colon : Text → Bool
ends_in_colon s = elim (last? s) [ none ↦ false | some c ↦ c == b':' ]

-- Whether a line of .mockery.yaml is a package entry.
unfoldable pub is_package_entry : Text → Bool
is_package_entry line =
    let trimmed = trim_space line in
    not (is_empty trimmed || has_prefix trimmed (codes "#"))
    && has_prefix line (codes "  ")
    && ends_in_colon trimmed
    && contains trimmed (codes "/")

unfoldable pub has_package_entry : List Text → Bool
unfolding is_package_entry
has_package_entry [] = false
has_package_entry (l ∷ ls) = is_package_entry l || has_package_entry ls

unfoldable pub skip_if_no_mockery_config : Outcome Text → Bool
unfolding has_package_entry
skip_if_no_mockery_config (Outcome.err _) = true
skip_if_no_mockery_config (Outcome.ok text) = not (has_package_entry (raw_lines text))
