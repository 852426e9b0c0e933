-- ===== src/Kafka/Tests.antt =====
-- Runs of the Kafka package on concrete records, and the theorems applied to them.
use go_mongo_boilerplate.Base.{
  ◌≡◌, refl, true, false, [], ◌∷◌, none, some, arith, ltb, length, take, if◌then◌else◌,
}
use go_mongo_boilerplate.Base.Int.{pos}
use go_mongo_boilerplate.Stdlib.Text.{codes, equal_fold}
use go_mongo_boilerplate.Stdlib.Errors.{GoError, sentinel, plain, canceled, is_error}
use go_mongo_boilerplate.Sqs.Headers.{header_trace_parent}
use go_mongo_boilerplate.Kafka.Routing.{retry, decide_route}
use go_mongo_boilerplate.Kafka.World.{Record, Env, World, Handler}
use go_mongo_boilerplate.Kafka.Headers.{retry_count}
use go_mongo_boilerplate.Kafka.Consumer.{
  KafkaConsumerConfig, with_defaults, process_all, returned, consume,
}
use go_mongo_boilerplate.Kafka.Consumer.Ends.{consume_ends}
use go_mongo_boilerplate.Kafka.Consumer.Prefix.{process_all_prefix}
use go_mongo_boilerplate.Kafka.Consumer.Commits.{IsCommitted, IsQuiet, IsSteady-refl}
use go_mongo_boilerplate.Kafka.Consumer.Loop.{options, world_of, consume-IsCommitted}
use go_mongo_boilerplate.Kafka.Retry.Carried.{IsApart}
use go_mongo_boilerplate.Kafka.Retry.Counter.{relayed, requeued, retry_topic_unspent}

abbrev order : Record
order = record {
  topic = codes "orders";
  key = codes "k";
  value = codes "{}";
  headers = (codes "X-Retry-Count", codes "2") ∷ (header_trace_parent, codes "forged") ∷ [];
  offset = 4;
}

abbrev cfg : KafkaConsumerConfig
cfg = record {
  max_retries = pos 0;
  retry_suffix = [];
  dlq_suffix = [];
  retry_backoff_base = pos 0;
  retry_backoff_max = pos 0;
  dlq_max_payload_bytes = pos 0;
}

abbrev busy : GoError
busy = plain (codes "busy")

abbrev env : Env
env = record {
  ctx_err = λ t. if ltb t 8 then none else some (sentinel canceled);
  poll_fetches = λ t. record { errors = []; records = order ∷ order ∷ [] };
  produce = λ t rec. if ltb t 4 then none else some busy;
  commit_records = λ t recs. none;
  timer_first = λ t. true;
  trace_headers = λ t. (header_trace_parent, codes "00") ∷ [];
  uuid = λ t. codes "u";
}

abbrev handler : Handler
handler rec w = (some busy, w)

abbrev start : World
start = record { now = 0; log = [] }

handler-IsQuiet : IsQuiet (with_defaults cfg) handler
handler-IsQuiet rec w = IsSteady-refl (with_defaults cfg) w.log

env-IsApart : IsApart env
unfolding equal_fold
env-IsApart t = (refl, tt)

consume-IsCommitted_example :
    IsCommitted
      (with_defaults cfg)
      (world_of (consume env handler (options env cfg true true false) 5 start)).log
consume-IsCommitted_example =
    consume-IsCommitted env cfg handler handler-IsQuiet true true false 5 start tt

consume_ends_example :
    (e : GoError) × (w : World) × (consume env handler (options env cfg true true false) 9 start
      ≡ returned e w)
consume_ends_example =
    consume_ends env cfg handler (λ rec w. omega arith) true true false 8
      (λ t h. (sentinel canceled, ground arith)) 8 start (omega arith)

process_all_prefix_example :
    (process_all env handler none cfg (order ∷ order ∷ []) start).0
    ≡ take
        (length (process_all env handler none cfg (order ∷ order ∷ []) start).0)
        (order ∷ order ∷ [])
process_all_prefix_example = process_all_prefix env handler none cfg (order ∷ order ∷ []) start

retry_topic_unspent_example :
    decide_route
      (some busy)
      (retry_count (relayed env 1 [] (requeued env 0 [] cfg (some busy) order)).headers)
      (pos 3)
    ≡ retry
unfolding is_error
retry_topic_unspent_example =
    retry_topic_unspent env env 0 1 [] [] cfg order (some busy) busy (pos 3) env-IsApart env-IsApart
      refl refl (omega arith)
