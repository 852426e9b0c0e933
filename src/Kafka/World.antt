-- ===== src/Kafka/World.antt =====
-- The outside of the Kafka package: the client, the context, the generator of UUIDs and the trace
-- propagator, as functions of the moment at which they are asked, and the log of what was done.
use go_mongo_boilerplate.Base.{ℕ, ◌+◌, Bool, List, ◌∷◌, Option}
use go_mongo_boilerplate.Base.Int.{ℤ}
use go_mongo_boilerplate.Stdlib.Text.{Text}
use go_mongo_boilerplate.Stdlib.Errors.{GoError}

abbrev pub Headers : Type 0
Headers = List (Text × Text)

-- The fields of `kgo.Record` that the program sets or reads.
pub record Record : Type 0 where
  pub topic : Text
  pub key : Text
  pub value : Text
  pub headers : Headers
  pub offset : ℕ

-- The outcome of `PollFetches`: the errors and the records in the order of the iterator.
pub record Fetches : Type 0 where
  pub errors : List GoError
  pub records : List Record

-- A context may be cancelled between any two calls. `timer_first t` says whether a `select` at moment
-- `t` that may see both takes the timer rather than the cancellation.
pub record Env : Type 0 where
  pub ctx_err : ℕ → Option GoError
  pub poll_fetches : ℕ → Fetches
  pub produce : ℕ → Record → Option GoError
  pub commit_records : ℕ → List Record → Option GoError
  pub timer_first : ℕ → Bool
  pub trace_headers : ℕ → List (Text × Text)
  pub uuid : ℕ → Text

pub data Event : Type 0 where
  polled : Fetches → Event
  heartbeat : Event
  handled : Record → Option GoError → Event
  produced : Record → Option GoError → Event
  committed : List Record → Option GoError → Event
  slept : ℤ → Event
  finished : Event

-- The moment, and what happened before it, the latest first.
pub record World : Type 0 where
  pub now : ℕ
  pub log : List Event

unfoldable pub emit : Event → World → World
emit e w = record { now = w.now + 1; log = e ∷ w.log }

pub record PublishConfig : Type 0 where
  pub idempotency_key : Text
  pub extra_headers : Headers
  pub force_sample : Bool

abbrev pub PublishOpt : Type 0
PublishOpt = PublishConfig → PublishConfig

-- A `Producer`: topic, key, value and options.
abbrev pub Producer : Type 0
Producer = Text → Text → Text → List PublishOpt → World → Option GoError × World

-- A `MessageHandler`.
abbrev pub Handler : Type 0
Handler = Record → World → Option GoError × World
