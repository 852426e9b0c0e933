-- ===== src/Sqs/Tests.antt =====
-- Runs of the SQS package on concrete messages, and the theorems applied to them.
use go_mongo_boilerplate.Base.{
  ◌*◌, ◌^◌, ◌<◌, ◌≡◌, ◌≢◌, ◌↔◌, ◌⊎◌, refl, true, false, List, [], ◌∷◌, none, some, arith, ltb,
  length, if◌then◌else◌,
}
use Prim.Native.Nat.{min}
use go_mongo_boilerplate.Base.Int.{pos, ◌≤ℤ◌, ◌<ℤ◌}
use go_mongo_boilerplate.Stdlib.Maps.{insert}
use go_mongo_boilerplate.Stdlib.Text.{Text, text_eq, codes, equal_fold}
use go_mongo_boilerplate.Stdlib.Decimal.{atoi}
use go_mongo_boilerplate.Stdlib.Errors.{GoError, sentinel, plain, canceled, is_error, is_error?}
use go_mongo_boilerplate.Stdlib.Traceparent.{traceparent_matches}
use go_mongo_boilerplate.Stdlib.Traceparent.Grammar.{IsTraceparent, traceparent_matches_iff}
use go_mongo_boilerplate.Sqs.Routing.{
  commit, drop, retry, dlq, err_non_retryable, decide_route, decide_route_iff,
}
use go_mongo_boilerplate.Sqs.Backoff.{second, backoff_delay, backoff_delay-eq-min}
use go_mongo_boilerplate.Sqs.Headers.{
  Attributes, Message, header_retry_count, header_trace_parent, max_custom_attributes,
  string_attribute, get_string_attribute, retry_count, sanitize_for_republish,
}
use go_mongo_boilerplate.Sqs.Headers.Sanitize.{IsTrusted, sanitize_for_republish-IsTrusted}
use go_mongo_boilerplate.Sqs.Settings.{SqsConsumerConfig, defaults_for_consumer}
use go_mongo_boilerplate.Sqs.World.{messages, Env, World, PublishOpt, Handler}
use go_mongo_boilerplate.Sqs.Producer.{with_attribute, zero_config, apply_options}
use go_mongo_boilerplate.Sqs.Consumer.{consume, returned}
use go_mongo_boilerplate.Sqs.Consumer.Justified.{IsJustified, IsQuiet}
use go_mongo_boilerplate.Sqs.Consumer.Loop.{options, world_of, consume-IsJustified}
use go_mongo_boilerplate.Sqs.Consumer.Ends.{consume-returned}
use go_mongo_boilerplate.Sqs.Retry.Cycle.{IsApart}
use go_mongo_boilerplate.Sqs.Retry.Counter.{relayed, requeued, retry_round_unspent}

abbrev attrs : Attributes
attrs =
    (header_retry_count, string_attribute (codes "2"))
    ∷ (codes "tenant", string_attribute (codes "acme"))
    ∷ (header_trace_parent, string_attribute (codes "forged"))
    ∷ []

abbrev msg : Message
msg = record {
  message_id = some (codes "m1");
  receipt_handle = some (codes "r1");
  body = some (codes "{}");
  attributes = attrs;
}

abbrev cfg : SqsConsumerConfig
cfg = record {
  queue_url = codes "https://sqs/1/orders";
  max_retries = pos 0;
  retry_suffix = [];
  dlq_suffix = [];
  visibility_timeout_seconds = pos 0;
  wait_time_seconds = pos 0;
  max_messages = pos 50;
  retry_backoff_base = pos 0;
  retry_backoff_max = pos 0;
  dlq_max_payload_bytes = pos 0;
}

abbrev busy : GoError
busy = plain (codes "busy")

-- The handler fails at every moment, and the context is cancelled from the moment 8 on.
abbrev env : Env
env = record {
  ctx_err = λ t. if ltb t 8 then none else some (sentinel canceled);
  receive = λ t. messages (msg ∷ []);
  send = λ t input. none;
  delete = λ t queue handle. none;
  handle = λ t m. some busy;
  trace_headers = λ t. (header_trace_parent, codes "00") ∷ [];
  uuid = λ t. codes "u";
}

abbrev handler : Handler
handler m w = (env.handle w.now m, w)

abbrev start : World
start = record { now = 0; log = [] }

handler-IsQuiet : IsQuiet (defaults_for_consumer cfg) handler
handler-IsQuiet = record { keeps = λ m w j. j; forward = λ m w. omega arith }

env-IsApart : IsApart env
unfolding equal_fold
env-IsApart t = (refl, tt)

consume-IsJustified_example :
    IsJustified
      (defaults_for_consumer cfg)
      (world_of (consume env handler (options env cfg true false true) 5 start)).log
consume-IsJustified_example =
    consume-IsJustified env cfg handler handler-IsQuiet true false true 5 start tt

consume-returned_example :
    (e : GoError) × (w : World) × (consume env handler (options env cfg true true false) 9 start
      ≡ returned e w)
consume-returned_example =
    consume-returned env cfg handler handler-IsQuiet.forward true true false 8
      (λ t h. (sentinel canceled, ground arith)) 8 start (omega arith)

decide_route_iff_example :
    ((decide_route (some busy) (pos 3) (pos 3) ≡ commit) ↔ (some busy ≡ none))
    × ((decide_route (some busy) (pos 3) (pos 3) ≡ drop) ↔ (is_error? (some busy) canceled ≡ true))
    × ((decide_route (some busy) (pos 3) (pos 3) ≡ dlq) ↔ (
        (some busy ≢ none)
        × (is_error? (some busy) canceled ≡ false)
        × ((is_error? (some busy) err_non_retryable ≡ true) ⊎ (pos 3 ≤ℤ pos 3))))
    × ((decide_route (some busy) (pos 3) (pos 3) ≡ retry) ↔ (
        (some busy ≢ none)
        × (is_error? (some busy) canceled ≡ false)
        × (is_error? (some busy) err_non_retryable ≡ false)
        × (pos 3 <ℤ pos 3)))
decide_route_iff_example = decide_route_iff (some busy) (pos 3) (pos 3)

retry_round_unspent_example :
    decide_route
      (some busy)
      (retry_count (some (relayed env [] start (requeued env [] start cfg (some busy) msg))))
      (pos 3)
    ≡ retry
unfolding is_error
retry_round_unspent_example =
    retry_round_unspent env env [] [] start start cfg msg (some busy) busy (pos 3) env-IsApart
      env-IsApart refl refl (omega arith)

backoff_delay-eq-min_example :
    backoff_delay (pos 5) (pos 100) (pos 3) ≡ pos (min (5 * 2 ^ min 3 16) (min 100 (900 * second)))
backoff_delay-eq-min_example = backoff_delay-eq-min 5 100 3 (omega arith) (omega arith)

sanitize_for_republish-IsTrusted_example :
    (get_string_attribute (sanitize_for_republish msg) header_retry_count ≡ [])
    × IsTrusted (get_string_attribute (sanitize_for_republish msg) header_trace_parent)
sanitize_for_republish-IsTrusted_example = sanitize_for_republish-IsTrusted msg

msg-retry_count : retry_count (some msg) ≡ pos 2
unfolding retry_count get_string_attribute equal_fold atoi
msg-retry_count = refl

abbrev parent : Text
parent = codes "00-4bf92f3577b34da6a3ce929d0e0e4736-00f067aa0ba902b7-01"

traceparent_matches_iff_example : (traceparent_matches parent ≡ true) ↔ IsTraceparent parent
traceparent_matches_iff_example = traceparent_matches_iff parent

abbrev eight : List PublishOpt
eight =
    with_attribute (codes "a") []
    ∷ with_attribute (codes "b") []
    ∷ with_attribute (codes "c") []
    ∷ with_attribute (codes "d") []
    ∷ with_attribute (codes "e") []
    ∷ with_attribute (codes "f") []
    ∷ with_attribute (codes "g") []
    ∷ with_attribute (codes "h") []
    ∷ []

eight_attrs : max_custom_attributes < length (apply_options eight zero_config).extra_attrs
unfolding apply_options with_attribute insert text_eq
eight_attrs = omega arith
