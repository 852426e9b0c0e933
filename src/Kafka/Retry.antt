-- ===== src/Kafka/Retry.antt =====
-- ConsumeRetry of internal/platform/kafka/consumer.go: the consumer of the retry topic, whose handler
-- waits and sends each record back to its main topic.
pub mod Delay
pub mod Counter
pub mod Carried
use go_mongo_boilerplate.Base.{
  ℕ, ◌*◌, ◌^◌, ◌-◌, Bool, true, false, [], ◌∷◌, ◌++◌, List, Option, none, some, if◌then◌else◌,
}
use go_mongo_boilerplate.Base.Int.{ℤ, pos, mul64}
use go_mongo_boilerplate.Stdlib.Text.{Text, trim_suffix}
use go_mongo_boilerplate.Stdlib.Errors.{GoError}
use go_mongo_boilerplate.Sqs.Headers.{header_retry_count}
use go_mongo_boilerplate.Sqs.Backoff.{shift_amount, capped}
use go_mongo_boilerplate.Kafka.World.{
  Headers, Record, Env, World, PublishOpt, Producer, Handler, emit, slept,
}
use go_mongo_boilerplate.Kafka.Headers.{get, set, retry_count, sanitize_for_republish}
use go_mongo_boilerplate.Kafka.Consumer.{
  KafkaConsumerConfig, positive_or, idempotency_options, custom_options, ConsumeOptions, Outcome,
  consume,
}

-- The shift and the last two tests are those of the SQS package; there is no limit but `max`.
unfoldable pub backoff_delay : ℤ → ℤ → ℤ → ℤ
backoff_delay base max n = capped (mul64 base (2 ^ shift_amount n)) max

-- The defaults at the head of `ConsumeRetry`.
unfoldable pub retry_defaults : KafkaConsumerConfig → KafkaConsumerConfig
retry_defaults cfg = record cfg {
  retry_backoff_base = positive_or cfg.retry_backoff_base (pos 1000000000);
  retry_backoff_max = positive_or cfg.retry_backoff_max (pos (300 * 1000000000));
}

-- The sanitised headers, with the count of the received record as it was written.
unfoldable pub relayed_headers : Record → Text → Headers
relayed_headers rec main_topic =
    set (sanitize_for_republish rec main_topic).headers header_retry_count
      (get rec.headers header_retry_count)

unfoldable pub relay_options : Headers → List PublishOpt
relay_options hs = idempotency_options hs ++ custom_options hs

unfoldable pub relay_now : Producer → KafkaConsumerConfig → Handler
unfolding relayed_headers relay_options
relay_now producer cfg rec w =
    let main_topic = trim_suffix rec.topic cfg.retry_suffix in
    let sanitized = sanitize_for_republish rec main_topic in
    producer main_topic sanitized.key sanitized.value
      (relay_options (relayed_headers rec main_topic)) w

-- After the `select` on the timer and the context.
unfoldable pub after_wait : Env → (World → Option GoError × World) → World → Option GoError × World
after_wait env next w = elim (env.ctx_err w.now) [
  | none ↦ next w
  | some e ↦ if env.timer_first w.now then next w else (some e, w)
]

-- The handler of the retry consumer.
unfoldable pub relay : Env → Producer → KafkaConsumerConfig → Handler
unfolding relay_now after_wait
relay env producer cfg rec w =
    let delay =
      backoff_delay cfg.retry_backoff_base cfg.retry_backoff_max (retry_count rec.headers) in
    after_wait env (relay_now producer cfg rec) (emit (slept delay) w)

unfoldable pub consume_retry : Env → Producer → KafkaConsumerConfig → Bool → ℕ → World → Outcome
unfolding relay
consume_retry env producer cfg has_heartbeat fuel w =
    let cfg' = retry_defaults cfg in
    consume env (relay env producer cfg')
      (record {
        consumer = record {
          max_retries = pos (2 ^ 31 - 1);
          retry_suffix = cfg'.retry_suffix;
          dlq_suffix = cfg'.dlq_suffix;
          retry_backoff_base = pos 0;
          retry_backoff_max = pos 0;
          dlq_max_payload_bytes = pos 0;
        };
        producer = some producer;
        has_heartbeat = has_heartbeat;
        has_on_done = false;
      })
      fuel w
