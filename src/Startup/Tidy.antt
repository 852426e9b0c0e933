-- ===== src/Startup/Tidy.antt =====
-- No process leaves anything open that it opened, whichever step of its start fails.
use go_mongo_boilerplate.Base.{refl, ◌∙◌, List, [], ◌∷◌, ◌++◌, Option, none, some}
use go_mongo_boilerplate.Stdlib.Errors.{GoError}
use go_mongo_boilerplate.Stdlib.Outcome.{Outcome}
use go_mongo_boilerplate.Observability.{ObservabilityConfig, Telemetry, Provider, Started, init}
use go_mongo_boilerplate.Observability.Providers.{Shape, init-Shape}
use go_mongo_boilerplate.Worker.{KafkaConfig}
use go_mongo_boilerplate.Startup.{
  Resource, Event, Provided, Answers, new_mongo_client, started_telemetry, provide_observability,
  kafka_client, opens_nothing, and_then, initialize_server, initialize_worker,
}
use go_mongo_boilerplate.Startup.Ledger.{
  replay, release, replay-append, replay-closed, release-same, EndsTidy, IsTidy,
}

then_ends :
    (f r : Option GoError) (fe fc re rc : List Event) (held : List Resource)
    → ((h : List Resource) → EndsTidy h f fe fc)
    → ((h : List Resource) → EndsTidy h r re rc)
    → IsTidy held (
        and_then
          (record { failure = f; events = fe; cleanup = fc })
          (record { failure = r; events = re; cleanup = rc }))
unfolding and_then
then_ends (some e) r fe fc re rc held first rest = first held
then_ends none (some e) fe fc re rc held first rest =
    let (mid, up, down) = first held in
    replay-append fe (re ++ fc) held mid up ∙ replay-append re fc mid mid (rest mid) ∙ down
then_ends none none fe fc re rc held first rest =
    let (mid, up, down) = first held in
    let (top, up', down') = rest mid in
    (top, replay-append fe re held mid up ∙ up', replay-append rc fc top mid down' ∙ down)

and_then-IsTidy :
    (first rest : Provided) (held : List Resource)
    → ((h : List Resource) → IsTidy h first)
    → ((h : List Resource) → IsTidy h rest)
    → IsTidy held (and_then first rest)
and_then-IsTidy first rest held f r =
    then_ends first.failure rest.failure first.events first.cleanup rest.events rest.cleanup held f
      r

opens_nothing-IsTidy :
    (failure : Option GoError) (held : List Resource) → IsTidy held (opens_nothing failure)
unfolding opens_nothing replay
opens_nothing-IsTidy (some e) held = refl
opens_nothing-IsTidy none held = (held, refl, refl)

new_mongo_client-IsTidy :
    (connect ping : Option GoError) (held : List Resource)
    → IsTidy held (new_mongo_client connect ping)
unfolding new_mongo_client replay release
new_mongo_client-IsTidy (some e) ping held = refl
new_mongo_client-IsTidy none (some e) held = refl
new_mongo_client-IsTidy none none held =
    (Resource.mongo_client ∷ Resource.stop_channel ∷ held, refl, refl)

kafka_client-IsTidy {ℓ} :
    {C : Type ℓ} (r : Resource) (o : Outcome C) (held : List Resource)
    → IsTidy held (kafka_client r o)
unfolding kafka_client replay release
kafka_client-IsTidy r (Outcome.err e) held = refl
kafka_client-IsTidy r (Outcome.ok c) held =
    (r ∷ held, refl, replay-closed r [] (r ∷ held) held (release-same r held))

started_telemetry-IsTidy :
    (s : Started) (held : List Resource) → Shape s → IsTidy held (started_telemetry s)
unfolding started_telemetry replay release
started_telemetry-IsTidy _ held Shape.idle = (held, refl, refl)
started_telemetry-IsTidy _ held Shape.both =
    (Resource.provider Provider.meter ∷ Resource.provider Provider.tracer ∷ held, refl, refl)
started_telemetry-IsTidy _ held (Shape.before e) = refl
started_telemetry-IsTidy _ held (Shape.between e) = refl

provide_observability-IsTidy :
    (t : Telemetry) (cfg : ObservabilityConfig) (held : List Resource)
    → IsTidy held (provide_observability t cfg)
unfolding provide_observability
provide_observability-IsTidy t cfg held =
    started_telemetry-IsTidy (init t cfg) held (init-Shape t cfg)

-- Whatever step of the server's start fails, nothing that was opened stays open and nothing is closed
-- twice; a start that succeeds opens what its clean-up closes.
pub initialize_server-IsTidy :
    {C : Type 0} (a : Answers C) (obs : ObservabilityConfig) (held : List Resource)
    → IsTidy held (initialize_server a obs)
unfolding initialize_server
initialize_server-IsTidy a obs held = and_then-IsTidy _ _ held (opens_nothing-IsTidy a.load) (λ h.
    and_then-IsTidy _ _ h (new_mongo_client-IsTidy a.connect a.ping)
      (provide_observability-IsTidy a.telemetry obs))

-- Whatever step of the worker's start fails, its three Kafka clients and the telemetry included, nothing
-- that was opened stays open and nothing is closed twice; a start that succeeds opens what its clean-up
-- closes.
pub initialize_worker-IsTidy :
    {C : Type 0} (a : Answers C) (cfg : KafkaConfig) (obs : ObservabilityConfig)
    (held : List Resource)
    → IsTidy held (initialize_worker a cfg obs)
unfolding initialize_worker
initialize_worker-IsTidy a cfg obs held =
    and_then-IsTidy _ _ held (opens_nothing-IsTidy a.load) (λ h.
      and_then-IsTidy _ _ h (kafka_client-IsTidy Resource.main_client _) (λ h.
        and_then-IsTidy _ _ h (kafka_client-IsTidy Resource.retry_client _) (λ h.
          and_then-IsTidy _ _ h (kafka_client-IsTidy Resource.producer_client _) (λ h.
            and_then-IsTidy _ _ h (opens_nothing-IsTidy a.sqs_client)
              (provide_observability-IsTidy a.telemetry obs)))))
