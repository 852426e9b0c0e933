-- ===== src/Sqs/Retry.antt =====
-- internal/platform/sqs/consumer_retry.go: the consumer of the retry queue, whose handler sends each
-- message back to its main queue.
pub mod Carried
pub mod Cycle
pub mod Counter
use go_mongo_boilerplate.Base.{ℕ, Bool, true, false, [], ◌∷◌, ◌++◌, Option, none, some}
use go_mongo_boilerplate.Base.Int.{ℤ}
use go_mongo_boilerplate.Stdlib.Text.{Text, trim_suffix}
use go_mongo_boilerplate.Stdlib.Decimal.{itoa}
use go_mongo_boilerplate.Sqs.Headers.{
  Attributes, Message, header_retry_count, retry_count, sanitize_for_republish,
  set_string_attribute,
}
use go_mongo_boilerplate.Sqs.Queues.{dest_queue_url}
use go_mongo_boilerplate.Sqs.Settings.{SqsConsumerConfig, defaults_for_consumer}
use go_mongo_boilerplate.Sqs.World.{Env, World, PublishOpt, Producer, Handler}
use go_mongo_boilerplate.Sqs.Producer.{force_sample}
use go_mongo_boilerplate.Sqs.Consumer.{
  text_or_empty, idempotency_options, custom_options, ConsumeOptions, Outcome, consume,
}
use mathlib.Core.List.{List}

-- The sanitised attributes, with the count of the received message.
unfoldable pub relayed_attributes : Message → Attributes
relayed_attributes msg =
    set_string_attribute (sanitize_for_republish msg) header_retry_count
      (itoa (retry_count (some msg)))

unfoldable pub relay_options : Attributes → List PublishOpt
relay_options attrs = force_sample ∷ (idempotency_options attrs ++ custom_options attrs)

-- The handler of the retry consumer.
unfoldable pub relay : Producer → Text → Handler
relay producer main_queue_url msg w =
    producer main_queue_url (text_or_empty msg.body) (relay_options (relayed_attributes msg)) w

unfoldable pub retry_queue_url : SqsConsumerConfig → Text
retry_queue_url cfg = dest_queue_url cfg.queue_url cfg.retry_suffix cfg.dlq_suffix false

-- The nested consumer gets no producer.
unfoldable pub consume_retry : Env → Producer → SqsConsumerConfig → Bool → ℕ → World → Outcome
consume_retry env producer cfg has_heartbeat fuel w =
    let cfg' = defaults_for_consumer cfg in
    let url = retry_queue_url cfg' in
    consume env (relay producer (trim_suffix url cfg'.retry_suffix))
      (record {
        consumer = record cfg' { queue_url = url };
        producer = none;
        has_heartbeat = has_heartbeat;
        has_on_done = false;
      })
      fuel w
