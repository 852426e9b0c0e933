-- ===== src/Kafka/Consumer.antt =====
-- internal/platform/kafka/consumer.go: the poll loop with its batch commits, and the republish to the
-- retry or dead-letter topic. Loggers, spans and the wait group are not modelled.
pub mod Commits
pub mod Forward
pub mod Prefix
pub mod Loop
pub mod Ends
use go_mongo_boilerplate.Base.{
  ℕ, zero, suc, Bool, true, false, ◌||◌, List, [], ◌∷◌, ◌++◌, Option, none, some, take, length,
  if◌then◌else◌,
}
use go_mongo_boilerplate.Base.Int.{ℤ, pos, ltb_ℤ, leb_ℤ, pos_part}
use go_mongo_boilerplate.Stdlib.Text.{Text, codes, text_eq, is_empty, trim_suffix}
use go_mongo_boilerplate.Stdlib.Errors.{GoError, plain, is_error, canceled}
use go_mongo_boilerplate.Sqs.Headers.{
  header_trace_parent, header_trace_state, header_idempotency_key,
}
use go_mongo_boilerplate.Kafka.Routing.{Route, commit, drop, retry, dlq, decide_route}
use go_mongo_boilerplate.Kafka.World.{
  Headers, Record, Fetches, Env, World, PublishOpt, Producer, Handler, emit, polled, heartbeat,
  handled, committed, slept, finished,
}
use go_mongo_boilerplate.Kafka.Headers.{
  retry_count, inc_retry_count, get_idempotency_key, sanitize_for_republish, set_error_reason,
}
use go_mongo_boilerplate.Kafka.Producer.{with_idempotency_key, with_header, force_sample}

-- `KafkaConsumerConfig`; durations are in nanoseconds.
pub record KafkaConsumerConfig : Type 0 where
  pub max_retries : ℤ
  pub retry_suffix : Text
  pub dlq_suffix : Text
  pub retry_backoff_base : ℤ
  pub retry_backoff_max : ℤ
  pub dlq_max_payload_bytes : ℤ

abbrev pub positive_or : ℤ → ℤ → ℤ
positive_or n fallback = if leb_ℤ n (pos 0) then fallback else n

abbrev pub text_or : Text → Text → Text
text_or s fallback = if is_empty s then fallback else s

-- The defaults at the head of `Consume`.
unfoldable pub with_defaults : KafkaConsumerConfig → KafkaConsumerConfig
with_defaults cfg = record cfg {
  max_retries = positive_or cfg.max_retries (pos 3);
  retry_suffix = text_or cfg.retry_suffix (codes ".retry");
  dlq_suffix = text_or cfg.dlq_suffix (codes ".dlq");
  dlq_max_payload_bytes = positive_or cfg.dlq_max_payload_bytes (pos 65536);
}

unfoldable pub dest_topic : Text → KafkaConsumerConfig → Bool → Text
dest_topic origin cfg to_dlq =
    let base = trim_suffix origin cfg.retry_suffix in
    if to_dlq then base ++ cfg.dlq_suffix else base ++ cfg.retry_suffix

-- The headers that the loop over them skips, since the producer sets them.
unfoldable pub is_reserved : Text → Bool
is_reserved k =
    text_eq k header_idempotency_key
    || text_eq k header_trace_parent
    || text_eq k header_trace_state

unfoldable pub custom_options : Headers → List PublishOpt
unfolding is_reserved
custom_options [] = []
custom_options ((k, v) ∷ hs) =
    let rest = custom_options hs in if is_reserved k then rest else with_header k v ∷ rest

unfoldable pub idempotency_options : Headers → List PublishOpt
idempotency_options hs =
    let k = get_idempotency_key hs in if is_empty k then [] else with_idempotency_key k ∷ []

-- The value that a copy has: cut to the limit on the way to the dead-letter topic.
unfoldable pub cut_value : KafkaConsumerConfig → Text → Bool → Text
cut_value cfg value false = value
cut_value cfg value true =
    if ltb_ℤ cfg.dlq_max_payload_bytes (pos (length value))
    then take (pos_part cfg.dlq_max_payload_bytes) value
    else value

unfoldable pub marked_headers : Headers → Option GoError → Bool → Headers
marked_headers hs handler_err true = set_error_reason hs handler_err
marked_headers hs handler_err false = (inc_retry_count hs).0

-- The copy before it is handed to the producer.
unfoldable pub republished : KafkaConsumerConfig → Record → Text → Option GoError → Bool → Record
unfolding cut_value marked_headers
republished cfg src dest handler_err to_dlq =
    let sanitized = sanitize_for_republish src dest in
    record sanitized {
      value = cut_value cfg sanitized.value to_dlq;
      headers = marked_headers sanitized.headers handler_err to_dlq;
    }

unfoldable pub republish_options : Headers → List PublishOpt
unfolding custom_options idempotency_options
republish_options hs = force_sample ∷ (idempotency_options hs ++ custom_options hs)

-- The sleeps after the three attempts, in nanoseconds.
abbrev pub attempt_backoff : List ℤ
attempt_backoff = pos 100000000 ∷ pos 500000000 ∷ pos 1000000000 ∷ []

-- After an attempt: done, given up since the context is cancelled, or another attempt.
unfoldable pub after_attempt :
    Env
    → ℤ
    → (Option GoError → World → Option GoError × World)
    → Option GoError × World
    → Option GoError × World
after_attempt env pause again (none, w) = (none, w)
after_attempt env pause again (some e, w) = elim (env.ctx_err w.now) [
  | some _ ↦ (some e, w)
  | none ↦ again (some e) (emit (slept pause) w)
]

unfoldable pub attempts :
    Env
    → (World → Option GoError × World)
    → List ℤ
    → Option GoError
    → World
    → Option GoError × World
unfolding after_attempt
attempts env try [] last_err w = (last_err, w)
attempts env try (pause ∷ pauses) last_err w =
    after_attempt env pause (attempts env try pauses) (try w)

unfoldable pub republish :
    Env
    → Option Producer
    → Record
    → Text
    → Option GoError
    → KafkaConsumerConfig
    → Bool
    → World
    → Option GoError × World
republish env none src dest handler_err cfg to_dlq w =
    (some (plain (codes "kafka: producer not configured for retry/DLQ")), w)
republish env (some p) src dest handler_err cfg to_dlq w =
    let copy = republished cfg src dest handler_err to_dlq in
    attempts env (p dest copy.key copy.value (republish_options copy.headers)) attempt_backoff none
      w

-- What one record does to the batch: whether it may be committed; if not, the batch stops.
unfoldable pub after_republish : Option GoError × World → Bool × World
after_republish (none, w) = (true, w)
after_republish (some _, w) = (false, w)

unfoldable pub follow_route :
    Env
    → Option Producer
    → Record
    → Option GoError
    → KafkaConsumerConfig
    → Route
    → World
    → Bool × World
unfolding after_republish
follow_route env p rec err cfg commit w = (true, w)
follow_route env p rec err cfg drop w = (false, w)
follow_route env p rec err cfg retry w =
    after_republish (republish env p rec (dest_topic rec.topic cfg false) err cfg false w)
follow_route env p rec err cfg dlq w =
    after_republish (republish env p rec (dest_topic rec.topic cfg true) err cfg true w)

unfoldable pub after_handle :
    Env → Option Producer → Record → KafkaConsumerConfig → Option GoError × World → Bool × World
unfolding follow_route
after_handle env p rec cfg (err, w) =
    follow_route env p rec err cfg (decide_route err (retry_count rec.headers) cfg.max_retries)
      (emit (handled rec err) w)

-- The rest of the batch, if the record is committable.
unfoldable pub after_record :
    Record → (World → List Record × World) → Bool × World → List Record × World
after_record rec next (false, w) = ([], w)
after_record rec next (true, w) = let r = next w in (rec ∷ r.0, r.1)

-- The records of one fetch: those that may be committed.
unfoldable pub process_all :
    Env
    → Handler
    → Option Producer
    → KafkaConsumerConfig
    → List Record
    → World
    → List Record × World
unfolding after_record after_handle
process_all env h p cfg [] w = ([], w)
process_all env h p cfg (rec ∷ recs) w =
    after_record rec (process_all env h p cfg recs) (after_handle env p rec cfg (h rec w))

-- An error of the commit is only logged.
unfoldable pub commit_all : Env → List Record × World → World
commit_all env ([], w) = w
commit_all env (rec ∷ recs, w) =
    emit (committed (rec ∷ recs) (env.commit_records w.now (rec ∷ recs))) w

-- The first cancellation among the errors of a fetch.
unfoldable pub cancellation : List GoError → Option GoError
cancellation [] = none
cancellation (e ∷ es) = if is_error e canceled then some e else cancellation es

pub record ConsumeOptions : Type 0 where
  pub consumer : KafkaConsumerConfig
  pub producer : Option Producer
  pub has_heartbeat : Bool
  pub has_on_done : Bool

unfoldable pub after_fetch :
    Env → Handler → ConsumeOptions → KafkaConsumerConfig → Fetches → World → Option GoError × World
unfolding process_all commit_all
after_fetch env h opts cfg fetches w = elim (cancellation fetches.errors) [
  | some e ↦ (some e, w)
  | none ↦ (
    none,
    commit_all env (
        process_all env h opts.producer cfg fetches.records
          (if opts.has_heartbeat then emit heartbeat w else w)),
  )
]

-- One round of the loop.
unfoldable pub poll :
    Env → Handler → ConsumeOptions → KafkaConsumerConfig → World → Option GoError × World
unfolding after_fetch
poll env h opts cfg w = elim (env.ctx_err w.now) [
  | some e ↦ (some e, w)
  | none ↦
      after_fetch env h opts cfg (env.poll_fetches w.now) (emit (polled (env.poll_fetches w.now)) w)
]

-- The loop returns with an error, or is still running when the fuel is spent.
pub data Outcome : Type 0 where
  returned : GoError → World → Outcome
  running : World → Outcome

unfoldable pub after_poll : ConsumeOptions → (World → Outcome) → Option GoError × World → Outcome
after_poll opts again (none, w) = again w
after_poll opts again (some e, w) = returned e (if opts.has_on_done then emit finished w else w)

unfoldable pub rounds : Env → Handler → ConsumeOptions → KafkaConsumerConfig → ℕ → World → Outcome
unfolding after_poll poll
rounds env h opts cfg zero w = running w
rounds env h opts cfg (suc fuel) w =
    after_poll opts (rounds env h opts cfg fuel) (poll env h opts cfg w)

unfoldable pub consume : Env → Handler → ConsumeOptions → ℕ → World → Outcome
unfolding rounds
consume env h opts fuel w = rounds env h opts (with_defaults opts.consumer) fuel w
