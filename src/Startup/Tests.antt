-- ===== src/Startup/Tests.antt =====
-- Starts in which a step fails, and the theorems applied to them.
use go_mongo_boilerplate.Base.{◌≡◌, refl, true, [], ◌∷◌, none, some, if◌then◌else◌}
use go_mongo_boilerplate.Base.Int.{pos}
use go_mongo_boilerplate.Stdlib.Text.{codes, is_empty}
use go_mongo_boilerplate.Stdlib.Errors.{GoError, plain}
use go_mongo_boilerplate.Stdlib.Outcome.{Outcome}
use go_mongo_boilerplate.Observability.{ObservabilityConfig}
use go_mongo_boilerplate.Worker.{
  KafkaConfig, provide_main_consumer, provide_retry_consumer, provide_producer_client, new_consumer,
  new_producer, new_consumer_for_topics,
}
use go_mongo_boilerplate.Startup.{
  Resource, Event, Answers, initialize_server, initialize_worker, and_then, kafka_client,
  opens_nothing,
}
use go_mongo_boilerplate.Startup.Ledger.{IsTidy}
use go_mongo_boilerplate.Startup.Tidy.{initialize_server-IsTidy, initialize_worker-IsTidy}

abbrev down : GoError
down = plain (codes "down")

-- The server does not answer the ping, no client without a group can be made, and no meter.
abbrev answers : Answers Unit
answers = record {
  load = none;
  connect = none;
  ping = some down;
  new_client = (λ o. if is_empty o.group then Outcome.err down else Outcome.ok tt);
  sqs_client = none;
  telemetry = record {
    resource = none;
    trace_exporter = (λ o. none);
    metric_exporter = (λ o. some down);
  };
}

abbrev obs : ObservabilityConfig
obs = record {
  enabled = true;
  endpoint = codes "localhost:4317";
  insecure = true;
  ingestion_key = [];
  service_name = codes "api";
  environment = codes "dev";
  public_facing = true;
}

abbrev cfg : KafkaConfig
cfg = record {
  brokers = codes "localhost:9092" ∷ [];
  group_id = codes "users";
  topic = codes "users";
  consumer = record {
    max_retries = pos 3;
    retry_suffix = [];
    dlq_suffix = [];
    retry_backoff_base = pos 1;
    retry_backoff_max = pos 2;
    dlq_max_payload_bytes = pos 0;
  };
}

initialize_server-IsTidy_example : IsTidy [] (initialize_server answers obs)
initialize_server-IsTidy_example = initialize_server-IsTidy answers obs []

initialize_worker-IsTidy_example : IsTidy [] (initialize_worker answers cfg obs)
initialize_worker-IsTidy_example = initialize_worker-IsTidy answers cfg obs []

-- The producer's client cannot be made: the two consumers' are closed, the later one first.
worker_events :
    (initialize_worker answers cfg obs).events
    ≡ Event.opened Resource.main_client
      ∷ Event.opened Resource.retry_client
      ∷ Event.closed Resource.retry_client
      ∷ Event.closed Resource.main_client
      ∷ []
unfolding initialize_worker and_then kafka_client opens_nothing provide_main_consumer
    provide_retry_consumer provide_producer_client new_consumer new_producer new_consumer_for_topics
worker_events = refl
