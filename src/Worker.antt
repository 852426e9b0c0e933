-- ===== src/Worker.antt =====
-- cmd/worker: the clients that it builds, with internal/platform/kafka/client.go, the health checks
-- that it registers, the consumers that `Run` starts, and the exit code.
use go_mongo_boilerplate.Base.{
  ℕ, ◌+◌, ◌*◌, Bool, true, false, ◌&&◌, not, List, [], ◌∷◌, ◌++◌, Option, none, some, if◌then◌else◌,
}
use go_mongo_boilerplate.Base.Int.{ℤ, pos, negsuc}
use go_mongo_boilerplate.Stdlib.Text.{Text, codes, is_empty, text_eq}
use go_mongo_boilerplate.Stdlib.Decimal.{itoa}
use go_mongo_boilerplate.Stdlib.Errors.{GoError, is_error, canceled}
use go_mongo_boilerplate.Stdlib.Outcome.{Outcome}
use go_mongo_boilerplate.Health.{Checker, Registry, Severity, new_registry, register}
use go_mongo_boilerplate.Health.Heartbeat.{HeartbeatChecker, new_checker, beat}
use go_mongo_boilerplate.Kafka.Consumer.{KafkaConsumerConfig}
pub mod Topics
pub mod Heartbeats
pub mod Ready
mod Tests

pub record KafkaConfig : Type 0 where
  pub brokers : List Text
  pub group_id : Text
  pub topic : Text
  pub consumer : KafkaConsumerConfig

-- The options with which a client is built: `group` and `topics` are those of a consumer, `all_acks`
-- and `snappy` those of a producer.
pub record ClientOptions : Type 0 where
  pub seed_brokers : List Text
  pub group : Text
  pub topics : List Text
  pub auto_commit : Bool
  pub all_acks : Bool
  pub snappy : Bool

unfoldable pub new_producer {ℓ} :
    {C : Type ℓ} → (ClientOptions → Outcome C) → KafkaConfig → Outcome C
new_producer new_client cfg = new_client (record {
  seed_brokers = cfg.brokers;
  group = [];
  topics = [];
  auto_commit = true;
  all_acks = true;
  snappy = true;
})

unfoldable pub new_consumer_for_topics {ℓ} :
    {C : Type ℓ} → (ClientOptions → Outcome C) → KafkaConfig → Text → List Text → Outcome C
new_consumer_for_topics new_client cfg group topics = new_client (record {
  seed_brokers = cfg.brokers;
  group = group;
  topics = topics;
  auto_commit = false;
  all_acks = false;
  snappy = false;
})

unfoldable pub new_consumer {ℓ} :
    {C : Type ℓ} → (ClientOptions → Outcome C) → KafkaConfig → Outcome C
unfolding new_consumer_for_topics
new_consumer new_client cfg = new_consumer_for_topics new_client cfg cfg.group_id (cfg.topic ∷ [])

unfoldable pub provide_main_consumer {ℓ} :
    {C : Type ℓ} → (ClientOptions → Outcome C) → KafkaConfig → Outcome C
unfolding new_consumer
provide_main_consumer new_client cfg = new_consumer new_client cfg

unfoldable pub provide_retry_consumer {ℓ} :
    {C : Type ℓ} → (ClientOptions → Outcome C) → KafkaConfig → Outcome C
unfolding new_consumer_for_topics
provide_retry_consumer new_client cfg =
    let configured = cfg.consumer.retry_suffix in
    let suffix = if is_empty configured then codes ".retry" else configured in
    new_consumer_for_topics new_client cfg (cfg.group_id ++ codes "-retry")
      ((cfg.topic ++ suffix) ∷ [])

unfoldable pub provide_producer_client {ℓ} :
    {C : Type ℓ} → (ClientOptions → Outcome C) → KafkaConfig → Outcome C
unfolding new_producer
provide_producer_client new_client cfg = new_producer new_client cfg

-- The two heartbeat checkers.
pub record Checkers : Type 0 where
  pub kafka : HeartbeatChecker
  pub sqs : HeartbeatChecker

unfoldable pub provide_checkers : Checkers
unfolding new_checker
provide_checkers = record {
  kafka = new_checker (codes "kafka") (pos (30 * 1000000000));
  sqs = new_checker (codes "sqs") (pos (30 * 1000000000));
}

unfoldable pub kafka_checker : Checker
kafka_checker = record { name = codes "kafka"; severity = Severity.degraded }

unfoldable pub sqs_checker : Checker
sqs_checker = record { name = codes "sqs"; severity = Severity.degraded }

-- The registry, for the queue URL of the configuration.
unfoldable pub provide_health_registry : Text → Registry
unfolding new_registry register kafka_checker sqs_checker
provide_health_registry queue_url =
    let r = register (new_registry (pos 3)) kafka_checker in
    if is_empty queue_url then r else register r sqs_checker

-- The consumers that `Run` may start.
pub data Task : Type 0 where
  kafka_consume kafka_consume_retry sqs_consume sqs_consume_retry : Task

-- `has_handler` is whether the SQS handler is not nil.
unfoldable pub tasks : Text → (has_handler : Bool) → List Task
tasks queue_url has_handler =
    Task.kafka_consume
    ∷ Task.kafka_consume_retry
    ∷ (if not (is_empty queue_url) && has_handler
        then Task.sqs_consume ∷ Task.sqs_consume_retry ∷ []
        else [])

-- The boilerplate has no SQS handler.
unfoldable pub provide_sqs_handler : Bool
provide_sqs_handler = false

-- The heartbeat that each consumer is given.
unfoldable pub heartbeat : Task → ℕ → Checkers → Checkers
unfolding beat
heartbeat Task.kafka_consume now c = record c { kafka = beat now c.kafka }
heartbeat Task.kafka_consume_retry now c = record c { kafka = beat now c.kafka }
heartbeat Task.sqs_consume now c = record c { sqs = beat now c.sqs }
heartbeat Task.sqs_consume_retry now c = record c { sqs = beat now c.sqs }

-- The address and the paths of the health server, if there is one.
unfoldable pub start_health_server : ℤ → Option (Text × List Text)
start_health_server port =
    if text_eq (itoa port) (codes "0")
    then none
    else some
        (codes ":" ++ itoa port, codes "/healthz" ∷ codes "/readyz" ∷ codes "/internal/readyz" ∷ [])

-- `Run`: the group waits for the consumers, and its error is the result.
unfoldable pub run : (List Task → Option GoError) → Text → Bool → Option GoError
unfolding tasks
run wait queue_url has_handler = wait (tasks queue_url has_handler)

-- The exit code of `main` after `Run`.
unfoldable pub exit_code : Option GoError → ℕ
unfolding is_error
exit_code none = 0
exit_code (some e) = if is_error e canceled then 0 else 1
