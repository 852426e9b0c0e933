-- ===== src/Init/Rename.antt =====
-- cmd/init/rename.go: which module paths are accepted, and what is read from go.mod.
use go_mongo_boilerplate.Base.{
  ◌≡◌, ◌↔◌, Bool, true, false, ◌||◌, [], ◌∷◌, Option, none, some, arith, ◌==◌, not, if◌then◌else◌,
}
use go_mongo_boilerplate.Stdlib.Text.{Text, codes, is_empty}
use go_mongo_boilerplate.Stdlib.Errors.{GoError, plain}
use go_mongo_boilerplate.Stdlib.Search.{contains, has_prefix, last?}

-- `strings.HasSuffix` for a slash.
abbrev pub ends_in_slash : Text → Bool
ends_in_slash s = elim (last? s) [ none ↦ false | some c ↦ c == b'/' ]

-- `strings.ContainsAny(s, " \t\n")`.
unfoldable pub has_space : Text → Bool
has_space [] = false
has_space (c ∷ s) = c == 32 || c == 9 || c == 10 || has_space s

unfoldable pub validate_module_path : Text → Option GoError
validate_module_path s =
    if is_empty s
    then some (plain (codes "module path required"))
    else if not (contains s (codes "/"))
    then some (plain (codes "must contain /, e.g. github.com/you/repo"))
    else if has_prefix s (codes "/") || ends_in_slash s
    then some (plain (codes "no leading/trailing slash"))
    else if has_space s
    then some (plain (codes "no whitespace allowed"))
    else none

-- A path is accepted exactly if it has a slash, none at its start and none at its end, and no blank.
pub validate_module_path_iff :
    (s : Text)
    → (validate_module_path s ≡ none) ↔ (
        (contains s (codes "/") ≡ true)
        × (has_prefix s (codes "/") ≡ false)
        × (ends_in_slash s ≡ false)
        × (has_space s ≡ false))
unfolding validate_module_path contains has_prefix
validate_module_path_iff [] = ((λ h. absurd (cc)), (λ h. absurd (cc (h.0))))
validate_module_path_iff (c ∷ s) =
    iff (contains (c ∷ s) (codes "/")) (has_prefix (c ∷ s) (codes "/")) (ends_in_slash (c ∷ s))
      (has_space (c ∷ s))
  where
    iff :
        (a b d e : Bool)
        → ((if not a
              then some (plain (codes "must contain /, e.g. github.com/you/repo"))
              else if b || d
              then some (plain (codes "no leading/trailing slash"))
              else if e
              then some (plain (codes "no whitespace allowed"))
              else none)
            ≡ none)
          ↔ ((a ≡ true) × (b ≡ false) × (d ≡ false) × (e ≡ false))
    iff a b d e = ground arith
