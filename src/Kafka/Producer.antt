-- ===== src/Kafka/Producer.antt =====
-- internal/platform/kafka/producer.go: the options of Publish, and the record that it produces. Spans
-- are not modelled.
use go_mongo_boilerplate.Base.{ℕ, true, false, List, [], ◌∷◌, ◌++◌, Option, none, some}
use go_mongo_boilerplate.Stdlib.Text.{Text, codes}
use go_mongo_boilerplate.Stdlib.Errors.{GoError, wrap}
use go_mongo_boilerplate.Kafka.World.{
  Headers, Record, Env, PublishConfig, PublishOpt, Producer, produced, emit,
}
use go_mongo_boilerplate.Kafka.Headers.{set, set_idempotency_key}

unfoldable pub with_idempotency_key : Text → PublishOpt
with_idempotency_key k c = record c { idempotency_key = k }

unfoldable pub with_header : Text → Text → PublishOpt
with_header k v c = record c { extra_headers = c.extra_headers ++ ((k, v) ∷ []) }

unfoldable pub force_sample : PublishOpt
force_sample c = record c { force_sample = true }

abbrev pub zero_config : PublishConfig
zero_config = record { idempotency_key = []; extra_headers = []; force_sample = false }

unfoldable pub apply_options : List PublishOpt → PublishConfig → PublishConfig
apply_options [] c = c
apply_options (o ∷ opts) c = apply_options opts (o c)

-- `InjectTraceHeaders`: the propagator sets its pairs through the carrier.
unfoldable pub inject : Headers → List (Text × Text) → Headers
inject hs [] = hs
inject hs ((k, v) ∷ pairs) = inject (set hs k v) pairs

unfoldable pub record_for : Env → ℕ → Text → Text → Text → PublishConfig → Record
record_for env now topic key value cfg = record {
  topic = topic;
  key = key;
  value = value;
  headers =
      inject (set_idempotency_key cfg.extra_headers cfg.idempotency_key (env.uuid now)).0
        (env.trace_headers now);
  offset = 0;
}

unfoldable pub publish_error : Text → Option GoError → Option GoError
publish_error topic none = none
publish_error topic (some err) =
    some (wrap (codes "kafka publish " ++ (topic ++ codes ": ")) err [])

unfoldable pub publish : Env → Producer
unfolding publish_error
publish env topic key value opts w =
    let rec = record_for env w.now topic key value (apply_options opts zero_config) in
    let err = env.produce w.now rec in (publish_error topic err, emit (produced rec err) w)
