-- ===== src/Sqs/Consumer.antt =====
-- internal/platform/sqs/consumer.go: the poll loop, the dispatch of one message and the republish to
-- the retry or dead-letter queue. Loggers and spans are not modelled.
pub mod Justified
pub mod Safety
pub mod Loop
pub mod Ends
use go_mongo_boilerplate.Base.{
  ℕ, zero, suc, Bool, true, false, ◌||◌, List, [], ◌∷◌, ◌++◌, Option, none, some, take, length,
  if◌then◌else◌,
}
use go_mongo_boilerplate.Base.Int.{ℤ, pos, ltb_ℤ, pos_part}
use go_mongo_boilerplate.Stdlib.Text.{Text, codes, text_eq, is_empty}
use go_mongo_boilerplate.Stdlib.Errors.{GoError, plain, is_error, canceled}
use go_mongo_boilerplate.Sqs.Routing.{Route, commit, drop, retry, dlq, decide_route}
use go_mongo_boilerplate.Sqs.Backoff.{second, backoff_delay}
use go_mongo_boilerplate.Sqs.Headers.{
  Attributes, Message, header_trace_parent, header_trace_state, header_idempotency_key,
  get_string_attribute, retry_count, inc_retry_count, sanitize_for_republish, set_error_reason,
}
use go_mongo_boilerplate.Sqs.Queues.{dest_queue_url}
use go_mongo_boilerplate.Sqs.Settings.{SqsConsumerConfig, defaults_for_consumer}
use go_mongo_boilerplate.Sqs.World.{
  Received, messages, failed, Env, World, PublishOpt, Producer, Handler, emit, polled, heartbeat,
  handled, deleted, slept, finished,
}
use go_mongo_boilerplate.Sqs.Producer.{
  with_idempotency_key, with_attribute, with_delay, force_sample,
}

-- `*p`, or the zero value for a nil pointer.
abbrev pub text_or_empty : Option Text → Text
text_or_empty none = []
text_or_empty (some s) = s

-- The keys that the loop over the attributes skips, since the producer sets them.
unfoldable pub is_reserved : Text → Bool
is_reserved k =
    text_eq k header_trace_parent
    || text_eq k header_trace_state
    || text_eq k header_idempotency_key

unfoldable pub custom_options : Attributes → List PublishOpt
unfolding is_reserved
custom_options [] = []
custom_options ((k, v) ∷ attrs) =
    let rest = custom_options attrs in
    if is_reserved k
    then rest
    else elim v.string_value [ none ↦ rest | some s ↦ with_attribute k s ∷ rest ]

unfoldable pub idempotency_options : Attributes → List PublishOpt
idempotency_options attrs =
    let k = get_string_attribute attrs header_idempotency_key in
    if is_empty k then [] else with_idempotency_key k ∷ []

-- On the retry path: the delay before the message is seen again. The count is raised by one and
-- lowered by one again in the source.
unfoldable pub delay_options : SqsConsumerConfig → Message → Bool → List PublishOpt
delay_options cfg src true = []
delay_options cfg src false =
    let delay =
      backoff_delay cfg.retry_backoff_base cfg.retry_backoff_max (retry_count (some src)) in
    if ltb_ℤ (pos 0) delay then with_delay delay ∷ [] else []

-- The attributes and the body of the copy.
unfoldable pub republished : SqsConsumerConfig → Message → Option GoError → Bool → Attributes × Text
republished cfg src handler_err true =
    let body = text_or_empty src.body in
    let cut =
      if ltb_ℤ cfg.dlq_max_payload_bytes (pos (length body))
      then take (pos_part cfg.dlq_max_payload_bytes) body
      else body in
    (set_error_reason (sanitize_for_republish src) handler_err, cut)
republished cfg src handler_err false =
    ((inc_retry_count (sanitize_for_republish src)).0, text_or_empty src.body)

unfoldable pub republish_options : SqsConsumerConfig → Message → Attributes → Bool → List PublishOpt
unfolding custom_options idempotency_options delay_options
republish_options cfg src attrs to_dlq =
    force_sample
    ∷ (idempotency_options attrs ++ (custom_options attrs ++ delay_options cfg src to_dlq))

-- The sleeps after the three attempts, in nanoseconds.
abbrev pub attempt_backoff : List ℤ
attempt_backoff = pos 100000000 ∷ pos 500000000 ∷ pos second ∷ []

-- After an attempt: done, given up since the context is cancelled, or another attempt.
unfoldable pub after_attempt :
    Env
    → ℤ
    → (Option GoError → World → Option GoError × World)
    → Option GoError × World
    → Option GoError × World
after_attempt env pause again (none, w) = (none, w)
after_attempt env pause again (some e, w) = elim (env.ctx_err w.now) [
  | some _ ↦ (some e, w)
  | none ↦ again (some e) (emit (slept pause) w)
]

-- One attempt for each sleep; the last error if all fail.
unfoldable pub attempts :
    Env
    → (World → Option GoError × World)
    → List ℤ
    → Option GoError
    → World
    → Option GoError × World
unfolding after_attempt
attempts env try [] last_err w = (last_err, w)
attempts env try (pause ∷ pauses) last_err w =
    after_attempt env pause (attempts env try pauses) (try w)

unfoldable pub republish :
    Env
    → Option Producer
    → Message
    → Text
    → Option GoError
    → SqsConsumerConfig
    → Bool
    → World
    → Option GoError × World
republish env none src dest handler_err cfg to_dlq w =
    (some (plain (codes "sqs: producer not configured for retry/DLQ")), w)
republish env (some p) src dest handler_err cfg to_dlq w =
    let (attrs, body) = republished cfg src handler_err to_dlq in
    attempts env (p dest body (republish_options cfg src attrs to_dlq)) attempt_backoff none w

unfoldable pub delete_message : Env → Text → Message → World → World
delete_message env queue_url msg w = elim msg.receipt_handle [
  | none ↦ w
  | some handle ↦ emit (deleted queue_url handle (env.delete w.now queue_url handle)) w
]

-- Delete, unless the republish failed.
unfoldable pub delete_unless_failed :
    Env → SqsConsumerConfig → Message → Option GoError × World → World
unfolding delete_message
delete_unless_failed env cfg msg (some _, w) = w
delete_unless_failed env cfg msg (none, w) = delete_message env cfg.queue_url msg w

unfoldable pub republish_and_delete :
    Env → Option Producer → Message → Option GoError → SqsConsumerConfig → Bool → World → World
unfolding delete_unless_failed
republish_and_delete env p msg err cfg to_dlq w =
    let dest = dest_queue_url cfg.queue_url cfg.retry_suffix cfg.dlq_suffix to_dlq in
    delete_unless_failed env cfg msg (republish env p msg dest err cfg to_dlq w)

unfoldable pub follow_route :
    Env → Option Producer → Message → Option GoError → SqsConsumerConfig → Route → World → World
unfolding republish_and_delete delete_message
follow_route env p msg err cfg commit w = delete_message env cfg.queue_url msg w
follow_route env p msg err cfg drop w = w
follow_route env p msg err cfg retry w = republish_and_delete env p msg err cfg false w
follow_route env p msg err cfg dlq w = republish_and_delete env p msg err cfg true w

-- From the result of the handler on.
unfoldable pub after_handle :
    Env → Option Producer → Message → SqsConsumerConfig → Option GoError × World → World
after_handle env p msg cfg (err, w) =
    let route = decide_route err (retry_count (some msg)) cfg.max_retries in
    follow_route env p msg err cfg route (emit (handled msg err) w)

unfoldable pub process_message :
    Env → Handler → Option Producer → Message → SqsConsumerConfig → World → World
unfolding after_handle
process_message env h p msg cfg w = after_handle env p msg cfg (h msg w)

-- `ConsumeOptions`; a nil heartbeat or completion callback is `false`.
pub record ConsumeOptions : Type 0 where
  pub consumer : SqsConsumerConfig
  pub producer : Option Producer
  pub has_heartbeat : Bool
  pub has_on_done : Bool

unfoldable pub after_message :
    Env → (World → Option GoError × World) → World → Option GoError × World
after_message env next w = elim (env.ctx_err w.now) [ some e ↦ (some e, w) | none ↦ next w ]

-- The messages of one poll; the context is read after each.
unfoldable pub process_all :
    Env
    → Handler
    → Option Producer
    → SqsConsumerConfig
    → List Message
    → World
    → Option GoError × World
unfolding after_message
process_all env h p cfg [] w = (none, w)
process_all env h p cfg (msg ∷ msgs) w =
    after_message env (process_all env h p cfg msgs) (process_message env h p msg cfg w)

-- What follows a poll: the error to return with, or another round.
unfoldable pub after_receive :
    Env → Handler → ConsumeOptions → SqsConsumerConfig → Received → World → Option GoError × World
after_receive env h opts cfg (failed err) w =
    let w' = emit (slept (pos second)) w in
    if is_error err canceled then (some err, w) else (env.ctx_err w'.now, w')
after_receive env h opts cfg (messages msgs) w =
    process_all env h opts.producer cfg msgs (if opts.has_heartbeat then emit heartbeat w else w)

-- One round of the loop.
unfoldable pub poll :
    Env → Handler → ConsumeOptions → SqsConsumerConfig → World → Option GoError × World
poll env h opts cfg w = elim (env.ctx_err w.now) [
  | some e ↦ (some e, w)
  | none ↦ after_receive env h opts cfg (env.receive w.now) (emit (polled (env.receive w.now)) w)
]

-- The loop returns with an error, or is still running when the fuel is spent.
pub data Outcome : Type 0 where
  returned : GoError → World → Outcome
  running : World → Outcome

unfoldable pub after_poll : ConsumeOptions → (World → Outcome) → Option GoError × World → Outcome
after_poll opts again (none, w) = again w
after_poll opts again (some e, w) = returned e (if opts.has_on_done then emit finished w else w)

unfoldable pub rounds : Env → Handler → ConsumeOptions → SqsConsumerConfig → ℕ → World → Outcome
unfolding after_poll
rounds env h opts cfg zero w = running w
rounds env h opts cfg (suc fuel) w =
    after_poll opts (rounds env h opts cfg fuel) (poll env h opts cfg w)

unfoldable pub consume : Env → Handler → ConsumeOptions → ℕ → World → Outcome
unfolding rounds
consume env h opts fuel w = rounds env h opts (defaults_for_consumer opts.consumer) fuel w
