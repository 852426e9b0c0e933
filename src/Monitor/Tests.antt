-- ===== src/Monitor/Tests.antt =====
-- A command that finishes while the janitor holds its entry, and a sweep over two entries.
use go_mongo_boilerplate.Base.{refl, [], ◌∷◌, some}
use go_mongo_boilerplate.Monitor.{
  SpanEntry, Monitor, load, remove, store, new_command_monitor, on_started, on_succeeded, is_leaked,
  sweep,
}
use go_mongo_boilerplate.Monitor.Accounts.{Moment, Step, Reachable, start, IsAccounted}
use go_mongo_boilerplate.Monitor.Accounts.Kept.{Reachable-IsAccounted}
use go_mongo_boilerplate.Monitor.Sweeps.{Swept, sweep-cases}

abbrev entry : SpanEntry
entry = record { span = 0; created_at = 5 }

abbrev one : Moment
one = record start { monitor = on_started 7 5 start.monitor; used = 7 ∷ [] }

abbrev seen : Moment
seen = record one { held = some (7, entry) }

abbrev finished : Moment
finished = record seen { monitor = on_succeeded 7 seen.monitor }

finished-Reachable : Reachable finished
unfolding on_started store remove load new_command_monitor is_leaked
finished-Reachable =
    Reachable.goes seen finished
      (Reachable.goes one seen
        (Reachable.goes start one Reachable.begins (Step.starts 7 5 start tt))
        (Step.visits 7 130000000000 entry one refl refl refl))
      (Step.succeeds 7 seen)

Reachable-IsAccounted_example : IsAccounted finished.monitor
Reachable-IsAccounted_example = Reachable-IsAccounted finished finished-Reachable

abbrev two : Monitor
two = record {
  spans =
      (1, record { span = 0; created_at = 5 })
      ∷ (2, record { span = 1; created_at = 90000000000 })
      ∷ [];
  started = 2;
  ended = [];
}

sweep-cases_example : Swept 130000000000 2 two (sweep 130000000000 two)
unfolding load
sweep-cases_example = sweep-cases 130000000000 two 2 (refl, (refl, tt))
