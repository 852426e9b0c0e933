-- ===== src/Sqs/Consumer/Ends.antt =====
-- A cancelled context ends the loop of the SQS consumer.
use native.Mathlib.Decide.{dec_lt}
use native.Mathlib.Nat.{le_trans, le_refl}
use go_mongo_boilerplate.Base.{
  ℕ, zero, suc, ◌+◌, ◌≤◌, ◌<◌, ◌≡◌, refl, Bool, true, false, List, [], ◌∷◌, Option, none, some, inl,
  inr, arith, Option-cases, Bool-cases,
}
use go_mongo_boilerplate.Base.Int.{ℤ}
use go_mongo_boilerplate.Stdlib.Text.{Text}
use go_mongo_boilerplate.Stdlib.Errors.{GoError}
use go_mongo_boilerplate.Sqs.Routing.{Route, commit, drop, retry, dlq}
use go_mongo_boilerplate.Sqs.Headers.{Message}
use go_mongo_boilerplate.Sqs.Settings.{SqsConsumerConfig, defaults_for_consumer}
use go_mongo_boilerplate.Sqs.World.{
  Env, polled, heartbeat, slept, World, Handler, Producer, emit, Received, messages, failed,
  PublishOpt, handled,
}
use go_mongo_boilerplate.Sqs.Producer.{publish}
use go_mongo_boilerplate.Sqs.Producer.Results.{rejected, refused, accepted, publish-PublishResult}
use go_mongo_boilerplate.Sqs.Consumer.Loop.{producer_of, options}
use go_mongo_boilerplate.Sqs.Consumer.{
  after_attempt, attempts, attempt_backoff, republish, delete_message, delete_unless_failed,
  republish_and_delete, after_handle, follow_route, process_message, after_message, process_all,
  after_receive, poll, Outcome, returned, after_poll, rounds, consume, ConsumeOptions,
}

-- A producer that takes no time back.
abbrev pub IsForward : Producer → Type 0
IsForward p = (q b : Text) (opts : List PublishOpt) (w : World) → w.now ≤ (p q b opts w).1.now

-- A handler that takes no time back.
abbrev pub HandlesForward : Handler → Type 0
HandlesForward h = (msg : Message) (w : World) → w.now ≤ (h msg w).1.now

abbrev pub AllForward : Option Producer → Type 0
AllForward none = Unit
AllForward (some p) = IsForward p

module _ (env : Env) where
  after_attempt_now :
      (pause : ℤ) (again : Option GoError → World → Option GoError × World)
      → ((e : Option GoError) (w : World) → w.now ≤ (again e w).1.now)
      → (r : Option GoError × World) → r.1.now ≤ (after_attempt env pause again r).1.now
  unfolding after_attempt emit
  after_attempt_now pause again next (none, w) = le_refl w.now
  after_attempt_now pause again next (some e, w) = elim (Option-cases (env.ctx_err w.now)) [
    | inl live ↦ rw (live, after_attempt) (omega (arith, next (some e) (emit (slept pause) w)))
    | inr (c, gone) ↦ rw (gone, after_attempt) (le_refl w.now)
  ]

  attempts_now :
      (try : World → Option GoError × World)
      → ((w : World) → w.now ≤ (try w).1.now)
      → (pauses : List ℤ) (e : Option GoError) (w : World)
      → w.now ≤ (attempts env try pauses e w).1.now
  unfolding attempts
  attempts_now try fwd [] e w = le_refl w.now
  attempts_now try fwd (pause ∷ pauses) e w =
      le_trans (fwd w)
        (after_attempt_now pause (attempts env try pauses) (attempts_now try fwd pauses) (try w))

  delete_message_now :
      (q : Text) (msg : Message) (w : World) → w.now ≤ (delete_message env q msg w).now
  unfolding delete_message emit
  delete_message_now q msg w = ground arith

  delete_unless_failed_now :
      (cfg : SqsConsumerConfig) (msg : Message) (r : Option GoError × World)
      → r.1.now ≤ (delete_unless_failed env cfg msg r).now
  unfolding delete_unless_failed
  delete_unless_failed_now cfg msg (none, w) = delete_message_now cfg.queue_url msg w
  delete_unless_failed_now cfg msg (some e, w) = le_refl w.now

  republish_now :
      (p : Option Producer) (msg : Message) (dest : Text) (err : Option GoError)
      (cfg : SqsConsumerConfig) (to_dlq : Bool) (w : World)
      → AllForward p
      → w.now ≤ (republish env p msg dest err cfg to_dlq w).1.now
  unfolding republish
  republish_now none msg dest err cfg to_dlq w fwd = le_refl w.now
  republish_now (some q) msg dest err cfg to_dlq w fwd =
      attempts_now _ (fwd _ _ _) attempt_backoff none w

  module _ (p : Option Producer) (fwd : AllForward p) (cfg : SqsConsumerConfig) where
    follow_route_now :
        (msg : Message) (err : Option GoError) (r : Route) (w : World)
        → w.now ≤ (follow_route env p msg err cfg r w).now
    unfolding follow_route republish_and_delete
    follow_route_now msg err commit w = delete_message_now cfg.queue_url msg w
    follow_route_now msg err drop w = le_refl w.now
    follow_route_now msg err retry w =
        le_trans (republish_now p msg _ err cfg false w fwd) (delete_unless_failed_now cfg msg _)
    follow_route_now msg err dlq w =
        le_trans (republish_now p msg _ err cfg true w fwd) (delete_unless_failed_now cfg msg _)

    after_handle_now :
        (msg : Message) (r : Option GoError × World) → r.1.now ≤ (after_handle env p msg cfg r).now
    unfolding after_handle emit
    after_handle_now msg (err, w) =
        omega (arith, follow_route_now msg err _ (emit (handled msg err) w))

    module _ (h : Handler) (h_fwd : HandlesForward h) where
      process_message_now :
          (msg : Message) (w : World) → w.now ≤ (process_message env h p msg cfg w).now
      unfolding process_message
      process_message_now msg w = le_trans (h_fwd msg w) (after_handle_now msg (h msg w))

      process_all_now :
          (msgs : List Message) (w : World) → w.now ≤ (process_all env h p cfg msgs w).1.now
      unfolding process_all
      process_all_now [] w = le_refl w.now
      process_all_now (msg ∷ msgs) w =
          let w' = process_message env h p msg cfg w in
          elim (Option-cases (env.ctx_err w'.now)) [
            | inl live ↦
                rw (live, after_message)
                  (le_trans (process_message_now msg w) (process_all_now msgs w'))
            | inr (e, gone) ↦ rw (gone, after_message) (process_message_now msg w)
          ]

module _ (env : Env) (opts : ConsumeOptions) (fwd : AllForward opts.producer)
    (cfg : SqsConsumerConfig) (h : Handler) (h_fwd : HandlesForward h) where
  after_receive_now :
      (out : Received) (w : World) → w.now ≤ (after_receive env h opts cfg out w).1.now
  unfolding after_receive emit
  after_receive_now (failed err) w = ground arith
  after_receive_now (messages msgs) w = elim (Bool-cases opts.has_heartbeat) [
    | inl beats ↦
        rw (beats, after_receive)
          (omega (arith, process_all_now env opts.producer fwd cfg h h_fwd msgs (emit heartbeat w)))
    | inr silent ↦
        rw (silent, after_receive) (process_all_now env opts.producer fwd cfg h h_fwd msgs w)
  ]

  poll_now : (w : World) → env.ctx_err w.now ≡ none → w.now < (poll env h opts cfg w).1.now
  unfolding poll emit
  poll_now w live =
      rw (live, poll)
        (omega (arith, after_receive_now (env.receive w.now) (emit (polled (env.receive w.now)) w)))

  poll_live : (w : World) → (poll env h opts cfg w).0 ≡ none → env.ctx_err w.now ≡ none
  unfolding poll
  poll_live w e = elim (Option-cases (env.ctx_err w.now)) [
    | inl live ↦ live
    | inr (c, gone) ↦ absurd (cc (rw (gone, poll) at e))
  ]

  module _ (end : ℕ)
      (cancelled : (t : ℕ) → end ≤ t → (e : GoError) × (env.ctx_err t ≡ some e)) where
    live_before : (w : World) → env.ctx_err w.now ≡ none → w.now < end
    live_before w live = elim (dec_lt w.now end) [
      | yes p ↦ p
      | no p ↦ let (e, gone) = cancelled w.now (omega arith) in absurd (cc)
    ]

    after_poll-returned :
        (again : World → Outcome) (r : Option GoError × World)
        → (r.0 ≡ none → (e : GoError) × (w' : World) × (again r.1 ≡ returned e w'))
        → (e : GoError) × (w' : World) × (after_poll opts again r ≡ returned e w')
    unfolding after_poll
    after_poll-returned again (none, w) k = k refl
    after_poll-returned again (some e, w) k = (e, _, refl)

    rounds-returned :
        (fuel : ℕ) (w : World)
        → end < w.now + suc fuel
        → (e : GoError) × (w' : World) × (rounds env h opts cfg (suc fuel) w ≡ returned e w')
    unfolding rounds
    rounds-returned zero w b =
        after_poll-returned (rounds env h opts cfg zero) (poll env h opts cfg w)
          (λ e. absurd (omega (arith, live_before w (poll_live w e))))
    rounds-returned (suc fuel) w b =
        after_poll-returned (rounds env h opts cfg (suc fuel)) (poll env h opts cfg w) (λ e.
          let live = poll_live w e in
          rounds-returned fuel (poll env h opts cfg w).1
            (omega (arith, live_before w live, poll_now w live)))

publish-IsForward : (env : Env) → IsForward (publish env)
unfolding emit
publish-IsForward env q b opts w = elim (publish-PublishResult env q b opts w) [
  | rejected e r ↦ rw r (le_refl w.now)
  | refused e e' r ↦ rw r (omega arith)
  | accepted r ↦ rw r (omega arith)
]

AllForward-producer_of : (env : Env) (p : Bool) → AllForward (producer_of env p)
AllForward-producer_of env true = publish-IsForward env
AllForward-producer_of env false = tt

-- Once the context stays cancelled from some moment on, the consumer returns with an error, provided
-- that the handler returns at no earlier moment than it was called at: one round for each moment
-- before, and one more, are enough.
pub consume-returned :
    (env : Env) (cfg : SqsConsumerConfig) (h : Handler)
    → HandlesForward h
    → (producer heartbeat on_done : Bool) (end : ℕ)
    → ((t : ℕ) → end ≤ t → (e : GoError) × (env.ctx_err t ≡ some e))
    → (fuel : ℕ) (w : World) → end < w.now + suc fuel
    → (e : GoError) × (w' : World) × (consume env h
          (options env cfg producer heartbeat on_done)
          (suc fuel)
          w
        ≡ returned e w')
unfolding consume
consume-returned env cfg h h_fwd p hb od end cancelled fuel w b =
    rounds-returned env (options env cfg p hb od) (AllForward-producer_of env p)
      (defaults_for_consumer cfg) h h_fwd end cancelled fuel w b
