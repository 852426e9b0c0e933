-- ===== src/Sqs/Producer.antt =====
-- internal/platform/sqs/producer.go: the options of Publish, and the message that it sends. Spans
-- are not modelled; the option that starts a new root span is kept as its flag.

pub mod Results
use go_mongo_boilerplate.Base.{
  ℕ, ◌/◌, true, false, List, [], ◌∷◌, ◌++◌, Option, none, some, ltb, length, if◌then◌else◌,
}
use go_mongo_boilerplate.Base.Int.{ℤ, pos, ltb_ℤ, pos_part}
use go_mongo_boilerplate.Stdlib.Text.{Text, codes}
use go_mongo_boilerplate.Stdlib.Decimal.{itoa}
use go_mongo_boilerplate.Stdlib.Errors.{GoError, sentinel, wrap}
use go_mongo_boilerplate.Stdlib.Maps.{insert}
use go_mongo_boilerplate.Sqs.Routing.{err_too_many_attributes}
use go_mongo_boilerplate.Sqs.Backoff.{second, sqs_max_delay}
use go_mongo_boilerplate.Sqs.Headers.{
  Attributes, max_custom_attributes, set_string_attribute, set_idempotency_key,
}
use go_mongo_boilerplate.Sqs.Queues.{queue_name}
use go_mongo_boilerplate.Sqs.World.{
  SendMessageInput, Env, World, PublishConfig, PublishOpt, Producer, sent, emit,
}

unfoldable pub with_idempotency_key : Text → PublishOpt
with_idempotency_key k c = record c { idempotency_key = k }

unfoldable pub with_attribute : Text → Text → PublishOpt
with_attribute key value c = record c { extra_attrs = insert key value c.extra_attrs }

unfoldable pub with_delay : ℤ → PublishOpt
with_delay d c = record c { delay = d }

unfoldable pub force_sample : PublishOpt
force_sample c = record c { force_sample = true }

abbrev pub zero_config : PublishConfig
zero_config = record { idempotency_key = []; extra_attrs = []; delay = pos 0; force_sample = false }

unfoldable pub apply_options : List PublishOpt → PublishConfig → PublishConfig
apply_options [] c = c
apply_options (o ∷ opts) c = apply_options opts (o c)

-- A map filled by `SetStringAttribute` from the pairs of another, also `Inject` through the carrier.
unfoldable pub set_all : Attributes → List (Text × Text) → Attributes
set_all attrs [] = attrs
set_all attrs ((k, v) ∷ pairs) = set_all (set_string_attribute attrs k v) pairs

-- `DelaySeconds`: the whole seconds of the delay, up to the limit.
unfoldable pub delay_seconds : ℤ → ℕ
delay_seconds d =
    if ltb_ℤ (pos 0) d
    then pos_part (if ltb_ℤ sqs_max_delay d then sqs_max_delay else d) / second
    else 0

-- The message for a checked configuration.
unfoldable pub message_input : Env → ℕ → Text → Text → PublishConfig → SendMessageInput
message_input env now queue_url body cfg =
    let custom = set_all [] cfg.extra_attrs in
    let keyed = (set_idempotency_key custom cfg.idempotency_key (env.uuid now)).0 in
    record {
      queue_url = queue_url;
      message_body = body;
      message_attributes = set_all keyed (env.trace_headers now);
      delay_seconds = delay_seconds cfg.delay;
    }

too_many : ℕ → GoError
too_many n =
    wrap [] (sentinel err_too_many_attributes)
      (codes ": got " ++ (itoa (pos n) ++ (codes ", max " ++ itoa (pos max_custom_attributes))))

publish_error : Text → Option GoError → Option GoError
publish_error queue_url none = none
publish_error queue_url (some err) =
    some (wrap (codes "sqs publish " ++ ((queue_name queue_url).0 ++ codes ": ")) err [])

send_message : Env → Text → SendMessageInput → World → Option GoError × World
send_message env queue_url input w =
    let err = env.send w.now input in (publish_error queue_url err, emit (sent input err) w)

unfoldable pub publish : Env → Producer
unfolding send_message publish_error too_many
publish env queue_url body opts w =
    let cfg = apply_options opts zero_config in
    if ltb max_custom_attributes (length cfg.extra_attrs)
    then (some (too_many (length cfg.extra_attrs)), w)
    else send_message env queue_url (message_input env w.now queue_url body cfg) w
