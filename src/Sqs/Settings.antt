-- ===== src/Sqs/Settings.antt =====
-- SQSConsumerConfig of internal/platform/config/config.go and defaultsForConsumer of
-- internal/platform/sqs/consumer.go.
use go_mongo_boilerplate.Base.{◌*◌, ◌≡◌, ◌≢◌, refl, ◌||◌, [], ◌∷◌, arith, if◌then◌else◌}
use go_mongo_boilerplate.Base.Int.{ℤ, pos, ltb_ℤ, leb_ℤ, ◌≤ℤ◌, ◌<ℤ◌}
use go_mongo_boilerplate.Stdlib.Text.{Text, codes, is_empty}
use go_mongo_boilerplate.Sqs.Backoff.{second, sqs_max_delay}

-- Durations are in nanoseconds.
pub record SqsConsumerConfig : Type 0 where
  pub queue_url : Text
  pub max_retries : ℤ
  pub retry_suffix : Text
  pub dlq_suffix : Text
  pub visibility_timeout_seconds : ℤ
  pub wait_time_seconds : ℤ
  pub max_messages : ℤ
  pub retry_backoff_base : ℤ
  pub retry_backoff_max : ℤ
  pub dlq_max_payload_bytes : ℤ

unfoldable pub positive_or : ℤ → ℤ → ℤ
positive_or n fallback = if leb_ℤ n (pos 0) then fallback else n

unfoldable pub text_or : Text → Text → Text
text_or s fallback = if is_empty s then fallback else s

unfoldable pub defaults_for_consumer : SqsConsumerConfig → SqsConsumerConfig
defaults_for_consumer cfg = record cfg {
  max_retries = positive_or cfg.max_retries (pos 3);
  retry_suffix = text_or cfg.retry_suffix (codes "-retry");
  dlq_suffix = text_or cfg.dlq_suffix (codes "-dlq");
  visibility_timeout_seconds = positive_or cfg.visibility_timeout_seconds (pos 30);
  wait_time_seconds = positive_or cfg.wait_time_seconds (pos 20);
  max_messages =
      if leb_ℤ cfg.max_messages (pos 0) || ltb_ℤ (pos 10) cfg.max_messages
      then pos 10
      else cfg.max_messages;
  dlq_max_payload_bytes = positive_or cfg.dlq_max_payload_bytes (pos 65536);
  retry_backoff_base = positive_or cfg.retry_backoff_base (pos (5 * second));
  retry_backoff_max = positive_or cfg.retry_backoff_max sqs_max_delay;
}

-- What the consumer loop relies on.
pub record IsComplete (cfg : SqsConsumerConfig) : Type 0 where
  pub retries : pos 0 <ℤ cfg.max_retries
  pub retry_named : cfg.retry_suffix ≢ []
  pub dlq_named : cfg.dlq_suffix ≢ []
  pub visible : pos 0 <ℤ cfg.visibility_timeout_seconds
  pub waits : pos 0 <ℤ cfg.wait_time_seconds
  pub some_messages : pos 0 <ℤ cfg.max_messages
  pub few_messages : cfg.max_messages ≤ℤ pos 10
  pub payload : pos 0 <ℤ cfg.dlq_max_payload_bytes
  pub base : pos 0 <ℤ cfg.retry_backoff_base
  pub max : pos 0 <ℤ cfg.retry_backoff_max

positive_or_pos : (n fallback : ℤ) → pos 0 <ℤ fallback → pos 0 <ℤ positive_or n fallback
unfolding positive_or
positive_or_pos n fallback h = ground arith

text_or-ne-nil : (s fallback : Text) → fallback ≢ [] → text_or s fallback ≢ []
unfolding text_or
text_or-ne-nil [] fallback h = h
text_or-ne-nil (c ∷ s) fallback h = λ e. cc

-- Whatever is configured, the loop gets positive limits, between one and ten messages a poll, and
-- suffixes that tell the queues apart.
pub defaults_for_consumer-IsComplete :
    (cfg : SqsConsumerConfig) → IsComplete (defaults_for_consumer cfg)
unfolding defaults_for_consumer
defaults_for_consumer-IsComplete cfg = record {
  retries = positive_or_pos cfg.max_retries (pos 3) (omega arith);
  retry_named = text_or-ne-nil cfg.retry_suffix (codes "-retry") (λ e. cc);
  dlq_named = text_or-ne-nil cfg.dlq_suffix (codes "-dlq") (λ e. cc);
  visible = positive_or_pos cfg.visibility_timeout_seconds (pos 30) (omega arith);
  waits = positive_or_pos cfg.wait_time_seconds (pos 20) (omega arith);
  some_messages = ground arith;
  few_messages = ground arith;
  payload = positive_or_pos cfg.dlq_max_payload_bytes (pos 65536) (omega arith);
  base = positive_or_pos cfg.retry_backoff_base (pos (5 * second)) (omega arith);
  max = positive_or_pos cfg.retry_backoff_max sqs_max_delay (omega arith);
}

positive_or_of_pos : (n fallback : ℤ) → pos 0 <ℤ n → positive_or n fallback ≡ n
unfolding positive_or
positive_or_of_pos n fallback h = ground arith

text_or_of_ne : (s fallback : Text) → s ≢ [] → text_or s fallback ≡ s
unfolding text_or
text_or_of_ne [] fallback h = absurd (h refl)
text_or_of_ne (c ∷ s) fallback h = refl

within_ten :
    (n : ℤ)
    → pos 0 <ℤ n
    → n ≤ℤ pos 10
    → (if leb_ℤ n (pos 0) || ltb_ℤ (pos 10) n then pos 10 else n) ≡ n
within_ten n h k = ground arith

-- A complete configuration is left as it is.
pub defaults_for_consumer_complete :
    (cfg : SqsConsumerConfig) → IsComplete cfg → defaults_for_consumer cfg ≡ cfg
unfolding defaults_for_consumer
defaults_for_consumer_complete cfg h = rw (
  positive_or_of_pos _ _ h.retries,
  text_or_of_ne _ _ h.retry_named,
  text_or_of_ne _ _ h.dlq_named,
  positive_or_of_pos _ _ h.visible,
  positive_or_of_pos _ _ h.waits,
  within_ten _ h.some_messages h.few_messages,
  positive_or_of_pos _ _ h.payload,
  positive_or_of_pos _ _ h.base,
  positive_or_of_pos _ _ h.max,
)
