-- ===== src/Monitor/Accounts.antt =====
-- Commands and the janitor in any order: between the moment at which the janitor reads an entry and
-- that at which it ends its span, the command may finish.
pub mod Kept
use go_mongo_boilerplate.Base.{
  ℕ, ◌<◌, ◌≡◌, ◌≢◌, refl, ◌∙◌, sym, ap, true, List, [], ◌∷◌, Option, none, some, arith, inl, inr,
  All, ◌⊎◌, some_inj,
}
use mathlib.Core.Path.{subst}
use go_mongo_boilerplate.Stdlib.Text.{Text}
use go_mongo_boilerplate.Stdlib.Errors.{GoError}
use go_mongo_boilerplate.Monitor.{
  SpanEntry, Monitor, load, remove, new_command_monitor, on_started, on_succeeded, on_failed,
  finish, finish_loaded, purge, is_leaked, status_of, leak_status,
}
use go_mongo_boilerplate.Monitor.Entries.{
  load-remove, load-remove-other, load-store, load-store-other,
}

-- The monitor, the request ids used so far, and the entry that the janitor holds.
pub record Moment : Type 0 where
  pub monitor : Monitor
  pub used : List ℕ
  pub held : Option (ℕ × SpanEntry)

abbrev pub IsFresh : ℕ → List ℕ → Type 0
IsFresh k = All (λ j. j ≢ k)

-- The driver gives each command a request id of its own.
pub data Step : Moment → Moment → Type 0 where
  starts :
      (k now : ℕ) (s : Moment)
      → IsFresh k s.used
      → Step s (record s { monitor = on_started k now s.monitor; used = k ∷ s.used })
  succeeds : (k : ℕ) (s : Moment) → Step s (record s { monitor = on_succeeded k s.monitor })
  fails :
      (k : ℕ) (failure : Option GoError) (s : Moment)
      → Step s (record s { monitor = on_failed k failure s.monitor })
  visits :
      (k now : ℕ) (e : SpanEntry) (s : Moment)
      → s.held ≡ none
      → load k s.monitor.spans ≡ some e
      → is_leaked now e ≡ true
      → Step s (record s { held = some (k, e) })
  purges :
      (k : ℕ) (e : SpanEntry) (s : Moment)
      → s.held ≡ some (k, e)
      → Step s (record s { monitor = purge k e s.monitor; held = none })

abbrev pub start : Moment
start = record { monitor = new_command_monitor; used = []; held = none }

pub data Reachable : Moment → Type 0 where
  begins : Reachable start
  goes : (s t : Moment) → Reachable s → Step s t → Reachable t

abbrev pub HasEnded : ℕ → List (ℕ × Option Text) → Type 0
HasEnded n [] = ⊥
HasEnded n ((span, status) ∷ rest) = (span ≡ n) ⊎ HasEnded n rest

abbrev pub IsTracked : ℕ → List (ℕ × SpanEntry) → Type 0
IsTracked n spans = (k : ℕ) × (e : SpanEntry) × (load k spans ≡ some e) × (e.span ≡ n)

abbrev pub IsAccounted : Monitor → Type 0
IsAccounted m = (n : ℕ) → n < m.started → IsTracked n m.spans ⊎ HasEnded n m.ended
