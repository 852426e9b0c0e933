-- ===== src/Kafka/Retry/Delay.antt =====
-- The delay of the Kafka retry consumer.
use go_mongo_boilerplate.Base.{arith}
use go_mongo_boilerplate.Base.Int.{ℤ, pos, ◌≤ℤ◌, ◌<ℤ◌}
use go_mongo_boilerplate.Sqs.Backoff.{capped_bounds}
use go_mongo_boilerplate.Kafka.Retry.{backoff_delay, retry_defaults}
use go_mongo_boilerplate.Kafka.Consumer.{KafkaConsumerConfig}

-- With the defaults in place, every record waits for a positive time that is within the configured
-- maximum, or within five minutes if none is configured: whatever its count, and even if the product
-- overflows.
pub backoff_delay_defaults :
    (cfg : KafkaConsumerConfig) (n : ℤ)
    → let c = retry_defaults cfg in
      let d = backoff_delay c.retry_backoff_base c.retry_backoff_max n in
      (pos 0 <ℤ d) × (d ≤ℤ c.retry_backoff_max)
unfolding backoff_delay retry_defaults
backoff_delay_defaults cfg n = capped_bounds _ (retry_defaults cfg).retry_backoff_max (ground arith)
