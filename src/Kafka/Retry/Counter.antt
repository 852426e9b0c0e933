-- ===== src/Kafka/Retry/Counter.antt =====
-- The retry counter of a record on its way through the retry topic.
use go_mongo_boilerplate.Base.{ℕ, ◌≡◌, refl, ap, ◌∙◌, false, Option, some, arith}
use go_mongo_boilerplate.Base.Int.{ℤ, pos, add64, ◌≤ℤ◌}
use go_mongo_boilerplate.Stdlib.Text.{Text}
use go_mongo_boilerplate.Stdlib.Decimal.{itoa}
use go_mongo_boilerplate.Stdlib.Errors.{GoError, is_error, canceled}
use go_mongo_boilerplate.Sqs.Headers.{header_retry_count, parse_count}
use go_mongo_boilerplate.Sqs.Headers.Counts.{parse_count-itoa}
use go_mongo_boilerplate.Kafka.Routing.{retry, err_non_retryable, decide_route}
use go_mongo_boilerplate.Kafka.World.{Record, Env, PublishConfig}
use go_mongo_boilerplate.Kafka.Headers.{
  get, set, retry_count, inc_retry_count, keep_headers, sanitize_for_republish,
}
use go_mongo_boilerplate.Kafka.Headers.Carrier.{get-set-same}
use go_mongo_boilerplate.Kafka.Producer.{zero_config, apply_options, record_for}
use go_mongo_boilerplate.Kafka.Consumer.{
  KafkaConsumerConfig, republish_options, marked_headers, republished,
}
use go_mongo_boilerplate.Kafka.Retry.{relayed_headers, relay_options}
use go_mongo_boilerplate.Kafka.Retry.Carried.{
  IsApart, keep_headers_counter, record_for_counter, relay_options-extra, republish_options-extra,
}

-- The copy that the main consumer puts on the retry topic, and the one that the relay puts back on the
-- main topic.
abbrev pub requeued : Env → ℕ → Text → KafkaConsumerConfig → Option GoError → Record → Record
requeued env now dest cfg err src =
    let copy = republished cfg src dest err false in
    record_for env now dest copy.key copy.value
      (apply_options (republish_options copy.headers) zero_config)

abbrev pub relayed : Env → ℕ → Text → Record → Record
relayed env now dest src =
    record_for env now dest src.key src.value
      (apply_options (relay_options (relayed_headers src dest)) zero_config)

module _ (env : Env) (now : ℕ) (dest : Text) (apart : IsApart env) where
  produced_counter :
      (key value : Text) (cfg : PublishConfig) (s : Text)
      → get cfg.extra_headers header_retry_count ≡ s
      → retry_count (record_for env now dest key value cfg).headers ≡ parse_count s
  unfolding retry_count
  produced_counter key value cfg s e =
      ap parse_count (record_for_counter env now dest key value cfg apart ∙ e)

  -- Whatever count a record had, the copy that goes to the retry topic counts 1, provided that the
  -- trace propagator does not write the counter itself: the sanitising strips the old count first.
  pub requeued_counter :
      (cfg : KafkaConsumerConfig) (err : Option GoError) (src : Record)
      → retry_count (requeued env now dest cfg err src).headers ≡ pos 1
  unfolding republished marked_headers inc_retry_count sanitize_for_republish retry_count add64
      parse_count
  requeued_counter cfg err src =
      let kept = keep_headers src.headers in
      let hs = set kept header_retry_count (itoa (pos 1)) in
      let marked : (republished cfg src dest err false).headers ≡ hs =
        rw (keep_headers_counter src.headers) refl in
      rw marked (
        produced_counter _ _ _ (itoa (pos 1))
          (republish_options-extra hs ∙ get-set-same kept header_retry_count (itoa (pos 1)))
        ∙ parse_count-itoa 1 (omega arith))

  -- The relay keeps the counter of a record as it was written, provided that the trace propagator does
  -- not write the counter itself.
  pub relayed_counter :
      (src : Record) → retry_count (relayed env now dest src).headers ≡ retry_count src.headers
  unfolding relayed_headers retry_count
  relayed_counter src = produced_counter src.key src.value _ (get src.headers header_retry_count) (
      relay_options-extra (relayed_headers src dest) zero_config refl
      ∙ get-set-same (sanitize_for_republish src dest).headers header_retry_count
          (get src.headers header_retry_count))

-- After a round through the retry topic a record is always retried again, however many rounds it has
-- behind it: the error is neither a cancellation nor non-retryable, the budget is two or more, and
-- the trace propagator does not write the counter.
pub retry_topic_unspent :
    (env env' : Env) (now now' : ℕ) (retry_topic main_topic : Text) (cfg : KafkaConsumerConfig)
    (src : Record) (err : Option GoError) (e : GoError) (max : ℤ)
    → IsApart env
    → IsApart env'
    → is_error e canceled ≡ false
    → is_error e err_non_retryable ≡ false
    → pos 2 ≤ℤ max
    → decide_route
        (some e)
        (retry_count
          (relayed env' now' main_topic (requeued env now retry_topic cfg err src)).headers)
        max
      ≡ retry
unfolding decide_route
retry_topic_unspent env env' now now' retry_topic main_topic cfg src err e max apart apart' c n h =
    let count =
      relayed_counter env' now' main_topic apart' (requeued env now retry_topic cfg err src)
      ∙ requeued_counter env now retry_topic apart cfg err src in
    rw (count, c, n) (ground arith)
