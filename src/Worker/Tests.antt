-- ===== src/Worker/Tests.antt =====
-- A worker with a queue URL, as it is delivered, and the theorems applied to it.
use go_mongo_boilerplate.Base.{true, none, ℕ, ◌≡◌, refl, [], ◌∷◌, Option, some, inl, inr}
use go_mongo_boilerplate.Base.Int.{pos}
use go_mongo_boilerplate.Stdlib.Text.{codes}
use go_mongo_boilerplate.Stdlib.Errors.{GoError}
use go_mongo_boilerplate.Health.{Checker, passes, readiness}
use go_mongo_boilerplate.Health.Heartbeat.{check}
use go_mongo_boilerplate.Kafka.World.{Env, Record, World}
use go_mongo_boilerplate.Worker.{
  KafkaConfig, Task, tasks, provide_checkers, provide_health_registry, provide_sqs_handler,
}
use go_mongo_boilerplate.Worker.Heartbeats.{beats, sqs_check_fails}
use go_mongo_boilerplate.Worker.Ready.{worker_ready}

abbrev cfg : KafkaConfig
cfg = record {
  brokers = codes "localhost:9092" ∷ [];
  group_id = codes "users";
  topic = codes "users";
  consumer = record {
    max_retries = pos 3;
    retry_suffix = [];
    dlq_suffix = [];
    retry_backoff_base = pos 1;
    retry_backoff_max = pos 2;
    dlq_max_payload_bytes = pos 0;
  };
}

abbrev suffixed : KafkaConfig
suffixed = record cfg { consumer = record cfg.consumer { retry_suffix = codes ".again" } }

abbrev env : Env
env = record {
  ctx_err = λ t. none;
  poll_fetches = λ t. record { errors = []; records = [] };
  produce = λ t rec. none;
  commit_records = λ t recs. none;
  timer_first = λ t. true;
  trace_headers = λ t. [];
  uuid = λ t. codes "u";
}

abbrev tried : Record
tried = record {
  topic = codes "users.again";
  key = codes "k";
  value = codes "{}";
  headers = [];
  offset = 4;
}

abbrev start : World
start = record { now = 0; log = [] }

sqs_check_fails_example :
    check 90000000000
      (beats ((Task.kafka_consume, 5) ∷ (Task.kafka_consume_retry, 6) ∷ []) provide_checkers).sqs
    ≡ some (GoError.plain (codes "sqs: no poll observed yet"))
unfolding tasks provide_sqs_handler
sqs_check_fails_example =
    sqs_check_fails (codes "https://sqs/1/q")
      ((Task.kafka_consume, 5) ∷ (Task.kafka_consume_retry, 6) ∷ []) 90000000000
      (inl refl, (inr (inl refl), tt))

abbrev down : ℕ → Checker → Option GoError × ℕ
down n c = (some (GoError.plain (codes "down")), n)

worker_ready_example :
    readiness (passes down 4 (provide_health_registry (codes "https://sqs/1/q")))
    ≡ (200, codes "ok")
worker_ready_example = worker_ready (codes "https://sqs/1/q") down 4
