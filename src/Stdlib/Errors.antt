-- ===== src/Stdlib/Errors.antt =====
-- Go `error` values as chains: `errors.New`, `fmt.Errorf` with `%w`, `errors.Join` and `errors.Is`.
use go_mongo_boilerplate.Base.{Bool, false, ◌||◌, ◌++◌, Option, none, some}
use go_mongo_boilerplate.Stdlib.Text.{Text, codes, text_eq}

-- A sentinel stands for the variable that `errors.New` fills; all of them differ in their texts.
-- `plain` is any other error, `wrap` one that `fmt.Errorf` builds round `%w`.
pub data GoError : Type 0 where
  sentinel : Text → GoError
  plain : Text → GoError
  wrap : Text → GoError → Text → GoError
  join : GoError → GoError → GoError

-- `context.Canceled` and `context.DeadlineExceeded`.
abbrev pub canceled : Text
canceled = codes "context canceled"

abbrev pub deadline_exceeded : Text
deadline_exceeded = codes "context deadline exceeded"

-- `errors.Is` for a sentinel target.
unfoldable pub is_error : GoError → Text → Bool
unfolding text_eq
is_error (sentinel m) target = text_eq m target
is_error (plain _) target = false
is_error (wrap _ e _) target = is_error e target
is_error (join a b) target = is_error a target || is_error b target

-- `err.Error()`.
unfoldable pub error_text : GoError → Text
error_text (sentinel m) = m
error_text (plain m) = m
error_text (wrap before e after) = before ++ (error_text e ++ after)
error_text (join a b) = error_text a ++ (codes "\n" ++ error_text b)

-- `errors.Is(err, target)` for an error that may be nil.
abbrev pub is_error? : Option GoError → Text → Bool
is_error? none target = false
is_error? (some e) target = is_error e target
