-- ===== src/Health/Heartbeat.antt =====
-- kafka_checker.go and sqs_checker.go of internal/platform/health: a consumer is alive while it polls.
use go_mongo_boilerplate.Base.{
  ℕ, ◌+◌, ◌-◌, ◌*◌, ◌≤◌, ◌<◌, ◌≡◌, ◌↔◌, ◌==◌, ltb, ◌++◌, Option, none, some, arith, if◌then◌else◌,
}
use go_mongo_boilerplate.Base.Int.{ℤ, pos, leb_ℤ, pos_part}
use go_mongo_boilerplate.Stdlib.Text.{Text, codes}
use go_mongo_boilerplate.Stdlib.Errors.{GoError, plain}

-- A checker: its name, its window and the moment of the last heartbeat, in nanoseconds since 1970. The
-- two files differ in the name only.
pub record HeartbeatChecker : Type 0 where
  pub name : Text
  pub stale_after : ℕ
  pub last_poll : ℕ

unfoldable pub new_checker : Text → ℤ → HeartbeatChecker
new_checker name stale_after = record {
  name = name;
  stale_after = if leb_ℤ stale_after (pos 0) then 30 * 1000000000 else pos_part stale_after;
  last_poll = 0;
}

unfoldable pub beat : ℕ → HeartbeatChecker → HeartbeatChecker
beat now c = record c { last_poll = now }

-- `Check` at the moment `now`, which is not before the last heartbeat.
unfoldable pub check : ℕ → HeartbeatChecker → Option GoError
check now c =
    if c.last_poll == 0
    then some (plain (c.name ++ codes ": no poll observed yet"))
    else if ltb c.stale_after (now - c.last_poll)
    then some (plain (c.name ++ codes ": poll heartbeat stale"))
    else none

-- A checker fails before its first heartbeat; after one it passes exactly as long as the window lasts,
-- which is positive, 30 seconds if none is given.
pub check-beat :
    (name : Text) (stale_after : ℤ) (at now : ℕ)
    → 0 < at
    → at ≤ now
    → let c = new_checker name stale_after in
      (0 < c.stale_after)
      × (check now c ≡ some (plain (name ++ codes ": no poll observed yet")))
      × ((check now (beat at c) ≡ none) ↔ (now ≤ at + c.stale_after))
unfolding new_checker beat check
check-beat name stale_after at now h k = ground arith
