-- ===== src/Startup.antt =====
-- What the processes open when they start and close when they end: InitializeServer and InitializeWorker
-- (cmd/server/wire_gen.go, cmd/worker/wire_gen.go) over NewMongoClient of
-- internal/platform/database/mongo.go, the providers of cmd/*/providers.go and CleanupClient of
-- internal/platform/kafka/client.go. Providers that cannot fail and clean up nothing are left out.
use go_mongo_boilerplate.Base.{
  Bool, true, false, List, [], ◌∷◌, ◌++◌, Option, none, some, if◌then◌else◌, map,
}
use go_mongo_boilerplate.Stdlib.Errors.{GoError}
use go_mongo_boilerplate.Stdlib.Outcome.{Outcome}
use go_mongo_boilerplate.Observability.{ObservabilityConfig, Telemetry, Provider, Started, init}
use go_mongo_boilerplate.Worker.{
  KafkaConfig, ClientOptions, provide_main_consumer, provide_retry_consumer,
  provide_producer_client,
}
pub mod Ledger
pub mod Tidy
mod Tests

-- `stop_channel` is the channel whose closing ends the janitor of the command monitor.
pub data Resource : Type 0 where
  stop_channel mongo_client main_client retry_client producer_client : Resource
  provider : Provider → Resource

pub data Event : Type 0 where
  opened closed : Resource → Event

-- What a provider returns: its error, what it opened and closed on the way, and what its clean-up closes.
-- A provider that fails returns no clean-up.
pub record Provided : Type 0 where
  pub failure : Option GoError
  pub events : List Event
  pub cleanup : List Event

abbrev failed : GoError → List Event → Provided
failed e events = record { failure = some e; events = events; cleanup = [] }

-- `connect` and `ping` are the errors of the driver.
unfoldable pub new_mongo_client : Option GoError → Option GoError → Provided
new_mongo_client (some e) ping =
    failed e (Event.opened Resource.stop_channel ∷ Event.closed Resource.stop_channel ∷ [])
new_mongo_client none (some e) = failed e (
    Event.opened Resource.stop_channel
    ∷ Event.opened Resource.mongo_client
    ∷ Event.closed Resource.stop_channel
    ∷ Event.closed Resource.mongo_client
    ∷ [])
new_mongo_client none none = record {
  failure = none;
  events = Event.opened Resource.stop_channel ∷ Event.opened Resource.mongo_client ∷ [];
  cleanup = Event.closed Resource.stop_channel ∷ Event.closed Resource.mongo_client ∷ [];
}

abbrev pub open_all : List Provider → List Event
open_all = map (λ p. Event.opened (Resource.provider p))

abbrev pub close_all : List Provider → List Event
close_all = map (λ p. Event.closed (Resource.provider p))

unfoldable pub started_telemetry : Started → Provided
started_telemetry s = elim s.failure [
  | some e ↦ failed e (open_all s.stopped ++ close_all s.stopped)
  | none ↦ record { failure = none; events = open_all s.running; cleanup = close_all s.running }
]

unfoldable pub provide_observability : Telemetry → ObservabilityConfig → Provided
unfolding started_telemetry
provide_observability t cfg = started_telemetry (init t cfg)

-- A Kafka client with its `CleanupClient`.
unfoldable pub kafka_client {ℓ} : {C : Type ℓ} → Resource → Outcome C → Provided
kafka_client r (Outcome.err e) = failed e []
kafka_client r (Outcome.ok c) = record {
  failure = none;
  events = Event.opened r ∷ [];
  cleanup = Event.closed r ∷ [];
}

-- A step that opens nothing: `config.Load`, and `ProvideSQSClient`, whose clean-up is empty.
unfoldable pub opens_nothing : Option GoError → Provided
opens_nothing failure = record { failure = failure; events = []; cleanup = [] }

-- The rest of an injector after a provider: where the rest fails, the clean-up of the provider runs
-- before the return, and where it succeeds, the clean-ups run from the last to the first.
unfoldable pub and_then : Provided → Provided → Provided
and_then first rest = elim first.failure [
  | some e ↦ first
  | none ↦ elim rest.failure [
    | some e ↦ failed e (first.events ++ (rest.events ++ first.cleanup))
    | none ↦ record {
      failure = none;
      events = first.events ++ rest.events;
      cleanup = rest.cleanup ++ first.cleanup;
    }
  ]
]

-- What the libraries answer while a process starts.
pub record Answers (C : Type 0) : Type 0 where
  pub load : Option GoError
  pub connect : Option GoError
  pub ping : Option GoError
  pub new_client : ClientOptions → Outcome C
  pub sqs_client : Option GoError
  pub telemetry : Telemetry

unfoldable pub initialize_server : {C : Type 0} → Answers C → ObservabilityConfig → Provided
unfolding and_then
initialize_server a obs =
    and_then (opens_nothing a.load)
      (and_then (new_mongo_client a.connect a.ping) (provide_observability a.telemetry obs))

unfoldable pub initialize_worker :
    {C : Type 0} → Answers C → KafkaConfig → ObservabilityConfig → Provided
unfolding and_then
initialize_worker a cfg obs = and_then (opens_nothing a.load) (
    and_then (kafka_client Resource.main_client (provide_main_consumer a.new_client cfg)) (
      and_then (kafka_client Resource.retry_client (provide_retry_consumer a.new_client cfg)) (
        and_then (kafka_client Resource.producer_client (provide_producer_client a.new_client cfg))
          (and_then (opens_nothing a.sqs_client) (provide_observability a.telemetry obs)))))
