-- ===== src/Worker/Topics.antt =====
-- The retry topic, from the side of the client that reads it and from that of the consumer that writes
-- to it.
use go_mongo_boilerplate.Base.Int.{ℤ}
use go_mongo_boilerplate.Base.{false, List, []}
use go_mongo_boilerplate.Stdlib.Text.{Text, trim_suffix}
use go_mongo_boilerplate.Stdlib.Outcome.{Outcome}
use go_mongo_boilerplate.Kafka.Consumer.{with_defaults, dest_topic}
use go_mongo_boilerplate.Kafka.Headers.{retry_count}
use go_mongo_boilerplate.Kafka.World.{Record, World, PublishOpt}
use go_mongo_boilerplate.Kafka.Retry.{retry_defaults, relayed_headers, relay_options, backoff_delay}
use go_mongo_boilerplate.Worker.{KafkaConfig, ClientOptions}

-- The options that a provider hands to the client library.
abbrev pub options_of :
    ((ClientOptions → Outcome ClientOptions) → KafkaConfig → Outcome ClientOptions)
    → KafkaConfig
    → Outcome ClientOptions
options_of provide cfg = provide Outcome.ok cfg

abbrev pub topics_of : Outcome ClientOptions → List Text
topics_of (Outcome.ok o) = o.topics
topics_of (Outcome.err e) = []

abbrev retry_suffix_of : KafkaConfig → Text
retry_suffix_of cfg = (with_defaults cfg.consumer).retry_suffix

-- How long the retry consumer waits with a record.
abbrev pub wait_of : KafkaConfig → Record → ℤ
wait_of cfg rec =
    backoff_delay (retry_defaults cfg.consumer).retry_backoff_base
      (retry_defaults cfg.consumer).retry_backoff_max (retry_count rec.headers)

abbrev relayed_options : KafkaConfig → Record → List PublishOpt
relayed_options cfg rec =
    let topic = dest_topic cfg.topic (with_defaults cfg.consumer) false in
    relay_options (
      relayed_headers (record rec { topic = topic })
        (trim_suffix topic (retry_defaults cfg.consumer).retry_suffix))
