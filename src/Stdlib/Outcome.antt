-- ===== src/Stdlib/Outcome.antt =====
-- A Go result `(T, error)` of which one part counts, with `if err != nil { return … }` as the bind.
use go_mongo_boilerplate.Stdlib.Errors.{GoError}

pub data Outcome {ℓ} (A : Type ℓ) : Type ℓ where
  ok : A → Outcome A
  err : GoError → Outcome A

infixl 5 ◌>>=◌
abbrev pub ◌>>=◌ {ℓ κ} : {A : Type ℓ} {B : Type κ} → Outcome A → (A → Outcome B) → Outcome B
ok a >>= f = f a
err e >>= f = err e
