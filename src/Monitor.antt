-- ===== src/Monitor.antt =====
-- internal/platform/database/mongo_otel.go: the command monitor that keeps a span for each command in
-- flight, in a `sync.Map` by request id, and the janitor that ends those left over. A span is the
-- number that the tracer gives it; moments are nanoseconds.
use go_mongo_boilerplate.Base.{
  ℕ, ◌+◌, ◌-◌, ◌*◌, ◌≡◌, Bool, true, false, List, [], ◌∷◌, Option, none, some, ltb, ◌==◌,
  if◌then◌else◌,
}
use go_mongo_boilerplate.Stdlib.Text.{Text, codes}
use go_mongo_boilerplate.Stdlib.Errors.{GoError, error_text}
pub mod Entries
pub mod Accounts
pub mod Sweeps
mod Tests

abbrev pub mongo_span_ttl : ℕ
mongo_span_ttl = 2 * 60 * 1000000000

pub record SpanEntry : Type 0 where
  pub span : ℕ
  pub created_at : ℕ

-- `Load`, `Store` and `Delete` of the map.
unfoldable pub load : ℕ → List (ℕ × SpanEntry) → Option SpanEntry
load k [] = none
load k ((j, e) ∷ m) = let rest = load k m in if j == k then some e else rest

unfoldable pub remove : ℕ → List (ℕ × SpanEntry) → List (ℕ × SpanEntry)
remove k [] = []
remove k ((j, e) ∷ m) = let rest = remove k m in if j == k then rest else (j, e) ∷ rest

unfoldable pub store : ℕ → SpanEntry → List (ℕ × SpanEntry) → List (ℕ × SpanEntry)
unfolding remove
store k e m = (k, e) ∷ remove k m

-- The spans in flight, the number of spans that the tracer started, and those ended, the latest first,
-- each with the error that was set as its status.
pub record Monitor : Type 0 where
  pub spans : List (ℕ × SpanEntry)
  pub started : ℕ
  pub ended : List (ℕ × Option Text)

unfoldable pub new_command_monitor : Monitor
new_command_monitor = record { spans = []; started = 0; ended = [] }

unfoldable pub on_started : ℕ → ℕ → Monitor → Monitor
unfolding store
on_started request_id now m = record {
  spans = store request_id (record { span = m.started; created_at = now }) m.spans;
  started = m.started + 1;
  ended = m.ended;
}

abbrev pub status_of : Option GoError → Option Text
status_of none = none
status_of (some e) = some (error_text e)

unfoldable pub finish_loaded : ℕ → Option GoError → Option SpanEntry → Monitor → Monitor
unfolding remove error_text
finish_loaded request_id failure none m = m
finish_loaded request_id failure (some entry) m = record m {
  spans = remove request_id m.spans;
  ended = (entry.span, status_of failure) ∷ m.ended;
}

unfoldable pub finish : ℕ → Option GoError → Monitor → Monitor
unfolding finish_loaded load
finish request_id failure m = finish_loaded request_id failure (load request_id m.spans) m

unfoldable pub on_succeeded : ℕ → Monitor → Monitor
unfolding finish
on_succeeded request_id m = finish request_id none m

-- `Failure` may be nil.
unfoldable pub on_failed : ℕ → Option GoError → Monitor → Monitor
unfolding finish
on_failed request_id failure m = finish request_id failure m

abbrev pub leak_status : Text
leak_status = codes "mongo command monitor leak (no Succeeded/Failed)"

unfoldable pub is_leaked : ℕ → SpanEntry → Bool
is_leaked now entry = ltb mongo_span_ttl (now - entry.created_at)

-- What the janitor does with an entry that `Range` hands to it.
unfoldable pub purge : ℕ → SpanEntry → Monitor → Monitor
unfolding remove
purge request_id entry m = record m {
  spans = remove request_id m.spans;
  ended = (entry.span, some leak_status) ∷ m.ended;
}

-- A tick of the janitor, when nothing else happens during it.
unfoldable pub sweep_entries : ℕ → List (ℕ × SpanEntry) → Monitor → Monitor
unfolding is_leaked purge
sweep_entries now [] m = m
sweep_entries now ((k, entry) ∷ rest) m =
    sweep_entries now rest (if is_leaked now entry then purge k entry m else m)

unfoldable pub sweep : ℕ → Monitor → Monitor
unfolding sweep_entries
sweep now m = sweep_entries now m.spans m
