-- ===== src/Sqs/World.antt =====
-- The outside of the SQS package: the SDK client, the context, the generator of UUIDs and the trace
-- propagator, as functions of the moment at which they are asked, and the log of what was done.
use go_mongo_boilerplate.Base.{ℕ, ◌+◌, Bool, List, ◌∷◌, Option}
use go_mongo_boilerplate.Base.Int.{ℤ}
use go_mongo_boilerplate.Stdlib.Text.{Text}
use go_mongo_boilerplate.Stdlib.Errors.{GoError}
use go_mongo_boilerplate.Sqs.Headers.{Attributes, Message}

-- The fields of `SendMessageInput` that the producer sets.
pub record SendMessageInput : Type 0 where
  pub queue_url : Text
  pub message_body : Text
  pub message_attributes : Attributes
  pub delay_seconds : ℕ

-- The outcome of `ReceiveMessage`.
pub data Received : Type 0 where
  messages : List Message → Received
  failed : GoError → Received

-- A context may be cancelled between any two calls; `ctx_err t` is `ctx.Err()` at moment `t`.
-- `trace_headers t` are the pairs that the propagator sets on a carrier.
pub record Env : Type 0 where
  pub ctx_err : ℕ → Option GoError
  pub receive : ℕ → Received
  pub send : ℕ → SendMessageInput → Option GoError
  pub delete : ℕ → Text → Text → Option GoError
  pub handle : ℕ → Message → Option GoError
  pub trace_headers : ℕ → List (Text × Text)
  pub uuid : ℕ → Text

pub data Event : Type 0 where
  polled : Received → Event
  heartbeat : Event
  handled : Message → Option GoError → Event
  sent : SendMessageInput → Option GoError → Event
  deleted : Text → Text → Option GoError → Event
  slept : ℤ → Event
  finished : Event

-- The moment, and what happened before it, the latest first.
pub record World : Type 0 where
  pub now : ℕ
  pub log : List Event

unfoldable pub emit : Event → World → World
emit e w = record { now = w.now + 1; log = e ∷ w.log }

-- A `Producer`: queue URL, body and options.
pub record PublishConfig : Type 0 where
  pub idempotency_key : Text
  pub extra_attrs : List (Text × Text)
  pub delay : ℤ
  pub force_sample : Bool

abbrev pub PublishOpt : Type 0
PublishOpt = PublishConfig → PublishConfig

abbrev pub Producer : Type 0
Producer = Text → Text → List PublishOpt → World → Option GoError × World

-- A `MessageHandler`.
abbrev pub Handler : Type 0
Handler = Message → World → Option GoError × World
