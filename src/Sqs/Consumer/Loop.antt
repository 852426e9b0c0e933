-- ===== src/Sqs/Consumer/Loop.antt =====
-- The whole loop of the SQS consumer: every deletion is justified, and a cancelled context ends it.
use go_mongo_boilerplate.Base.{
  ℕ, zero, suc, Bool, List, [], ◌∷◌, Option, none, some, inl, inr, Option-cases, Bool-cases,
  if◌then◌else◌,
}
use go_mongo_boilerplate.Stdlib.Errors.{GoError, is_error, canceled}
use go_mongo_boilerplate.Sqs.Routing.{decide_route, decide_route, decide_route-ne-commit}
use go_mongo_boilerplate.Sqs.Headers.{Message, retry_count}
use go_mongo_boilerplate.Sqs.Settings.{SqsConsumerConfig, defaults_for_consumer}
use go_mongo_boilerplate.Sqs.World.{
  Env, polled, heartbeat, World, Handler, Producer, emit, Received, messages, failed,
}
use go_mongo_boilerplate.Sqs.Producer.{publish}
use go_mongo_boilerplate.Sqs.Consumer.{
  after_handle, follow_route, process_message, after_message, process_all, after_receive, poll,
  Outcome, returned, running, after_poll, rounds, consume, ConsumeOptions,
}
use go_mongo_boilerplate.Sqs.Consumer.Justified.{IsJustified, IsQuiet}
use go_mongo_boilerplate.Sqs.Consumer.Safety.{delete_message-IsJustified, follow_route-IsJustified}

-- The producer that the consumer gets: the real one, or nil.
abbrev pub producer_of : Env → Bool → Option Producer
producer_of env p = if p then some (publish env) else none

abbrev pub options : Env → SqsConsumerConfig → (producer heartbeat on_done : Bool) → ConsumeOptions
options env cfg p hb od = record {
  consumer = cfg;
  producer = producer_of env p;
  has_heartbeat = hb;
  has_on_done = od;
}

-- The world in which the loop stands.
abbrev pub world_of : Outcome → World
world_of (returned e w) = w
world_of (running w) = w

module _ (env : Env) (cfg : SqsConsumerConfig) (h : Handler) (quiet : IsQuiet cfg h)
    (p : Bool) where
  after_handle-IsJustified :
      (msg : Message) (r : Option GoError × World)
      → IsJustified cfg r.1.log
      → IsJustified cfg (after_handle env (producer_of env p) msg cfg r).log
  unfolding after_handle follow_route decide_route
  after_handle-IsJustified msg (none, w) j = delete_message-IsJustified env cfg msg w j
  after_handle-IsJustified msg (some e, w) j =
      follow_route-IsJustified env cfg msg p e _ w
        (decide_route-ne-commit e (retry_count (some msg)) cfg.max_retries) j

  process_message-IsJustified :
      (msg : Message) (w : World)
      → IsJustified cfg w.log
      → IsJustified cfg (process_message env h (producer_of env p) msg cfg w).log
  unfolding process_message
  process_message-IsJustified msg w j = after_handle-IsJustified msg (h msg w) (quiet.keeps msg w j)

  process_all-IsJustified :
      (msgs : List Message) (w : World)
      → IsJustified cfg w.log
      → IsJustified cfg (process_all env h (producer_of env p) cfg msgs w).1.log
  unfolding process_all
  process_all-IsJustified [] w j = j
  process_all-IsJustified (msg ∷ msgs) w j =
      let w' = process_message env h (producer_of env p) msg cfg w in
      let j' = process_message-IsJustified msg w j in
      elim (Option-cases (env.ctx_err w'.now)) [
        | inl live ↦ rw (live, after_message) (process_all-IsJustified msgs w' j')
        | inr (e, gone) ↦ rw (gone, after_message) j'
      ]

  module _ (c : SqsConsumerConfig) (hb od : Bool) where
    after_receive-IsJustified :
        (out : Received) (w : World)
        → IsJustified cfg w.log
        → IsJustified cfg (after_receive env h (options env c p hb od) cfg out w).1.log
    unfolding after_receive emit
    after_receive-IsJustified (failed err) w j = elim (Bool-cases (is_error err canceled)) [
      | inl cancelled ↦ rw cancelled j
      | inr other ↦ rw other j
    ]
    after_receive-IsJustified (messages msgs) w j = elim (Bool-cases hb) [
      | inl beats ↦ rw beats (process_all-IsJustified msgs (emit heartbeat w) j)
      | inr silent ↦ rw silent (process_all-IsJustified msgs w j)
    ]

    poll-IsJustified :
        (w : World)
        → IsJustified cfg w.log
        → IsJustified cfg (poll env h (options env c p hb od) cfg w).1.log
    unfolding poll emit
    poll-IsJustified w j = elim (Option-cases (env.ctx_err w.now)) [
      | inl live ↦
          rw (live, poll)
            (after_receive-IsJustified (env.receive w.now) (emit (polled (env.receive w.now)) w) j)
      | inr (e, gone) ↦ rw (gone, poll) j
    ]

    after_poll-IsJustified :
        (again : World → Outcome)
        → ((w : World) → IsJustified cfg w.log → IsJustified cfg (world_of (again w)).log)
        → (r : Option GoError × World) → IsJustified cfg r.1.log
        → IsJustified cfg (world_of (after_poll (options env c p hb od) again r)).log
    unfolding after_poll emit
    after_poll-IsJustified again next (none, w) j = next w j
    after_poll-IsJustified again next (some e, w) j = elim (Bool-cases od) [
      | inl tells ↦ rw tells j
      | inr silent ↦ rw silent j
    ]

    rounds-IsJustified :
        (fuel : ℕ) (w : World)
        → IsJustified cfg w.log
        → IsJustified cfg (world_of (rounds env h (options env c p hb od) cfg fuel w)).log
    unfolding rounds
    rounds-IsJustified zero w j = j
    rounds-IsJustified (suc fuel) w j =
        after_poll-IsJustified (rounds env h (options env c p hb od) cfg fuel)
          (rounds-IsJustified fuel) _ (poll-IsJustified w j)

-- However long the consumer runs, whatever fails and whenever the context is cancelled: it deletes a
-- message from its queue only right after the handler succeeded on it, or right after a send of its
-- copy to the retry or dead-letter queue was accepted, provided that the handler deletes nothing on
-- its own and that the log before was of that kind.
pub consume-IsJustified :
    (env : Env) (cfg : SqsConsumerConfig) (h : Handler)
    → IsQuiet (defaults_for_consumer cfg) h
    → (producer heartbeat on_done : Bool) (fuel : ℕ) (w : World)
    → IsJustified (defaults_for_consumer cfg) w.log
    → IsJustified
        (defaults_for_consumer cfg)
        (world_of (consume env h (options env cfg producer heartbeat on_done) fuel w)).log
unfolding consume
consume-IsJustified env cfg h quiet p hb od fuel w j =
    rounds-IsJustified env (defaults_for_consumer cfg) h quiet p cfg hb od fuel w j
