-- ===== src/Sqs/Consumer/Safety.antt =====
-- The SQS consumer deletes a message only when it is handled or its copy is accepted.
use go_mongo_boilerplate.Base.{
  ◌≢◌, ℕ, ◌≡◌, refl, sym, Bool, true, false, List, [], ◌∷◌, Option, none, some, take, inl, inr,
  arith, Option-cases, if◌then◌else◌, length, take_of_length-le,
}
use go_mongo_boilerplate.Base.Int.{ℤ, pos, pos_part, ltb_ℤ}
use go_mongo_boilerplate.Stdlib.Text.{Text}
use go_mongo_boilerplate.Stdlib.Errors.{GoError}
use go_mongo_boilerplate.Sqs.Routing.{Route, commit, drop, retry, dlq}
use go_mongo_boilerplate.Sqs.Backoff.{second}
use go_mongo_boilerplate.Sqs.Headers.{Message}
use go_mongo_boilerplate.Sqs.Queues.{dest_queue_url}
use go_mongo_boilerplate.Sqs.Settings.{SqsConsumerConfig}
use go_mongo_boilerplate.Sqs.World.{Env, Event, handled, sent, slept, World, PublishOpt, emit}
use go_mongo_boilerplate.Sqs.Producer.{publish, message_input}
use go_mongo_boilerplate.Sqs.Producer.Results.{
  rejected, refused, accepted, publish-PublishResult, input_for,
}
use go_mongo_boilerplate.Sqs.Consumer.{
  text_or_empty, republished, republish_options, after_attempt, attempts, republish, delete_message,
  delete_unless_failed, republish_and_delete, follow_route,
}
use go_mongo_boilerplate.Sqs.Consumer.Justified.{IsCopy, Attempted, Settled, IsJustified}

cut-eq-take :
    (b : Bool) (n : ℕ) (s : Text) → (if b then take n s else s) ≡ take (if b then n else length s) s
cut-eq-take true n s = refl
cut-eq-take false n s = sym (take_of_length-le (length s) s (omega arith))

module _ (env : Env) (cfg : SqsConsumerConfig) where
  -- Between the failure of the handler and the accepted copy.
  abbrev Pending : Message → List Event → Type 0
  Pending msg log = Attempted msg log × IsJustified cfg log

  -- The copy has just been accepted.
  abbrev IsForwarded : Message → List Event → Type 0
  IsForwarded msg (sent input none ∷ log) = IsCopy cfg msg input × Pending msg log
  IsForwarded msg _ = ⊥

  Post : Message → Option GoError × World → Type 0
  Post msg (none, w) = IsForwarded msg w.log
  Post msg (some e, w) = Pending msg w.log

  module _ (msg : Message) where
    Pending-of_Post : (e : GoError) (w : World) → Post msg (some e, w) → Pending msg w.log
    unfolding Post
    Pending-of_Post e w h = h

    after_attempt-Post :
        (pause : ℤ) (again : Option GoError → World → Option GoError × World)
        → ((e : GoError) (w : World) → Pending msg w.log → Post msg (again (some e) w))
        → (r : Option GoError × World) → Post msg r
        → Post msg (after_attempt env pause again r)
    unfolding after_attempt emit
    after_attempt-Post pause again next (none, w) h = h
    after_attempt-Post pause again next (some e, w) h = elim (Option-cases (env.ctx_err w.now)) [
      | inl live ↦ rw (live, after_attempt) (next e (emit (slept pause) w) (Pending-of_Post e w h))
      | inr (c, gone) ↦ rw (gone, after_attempt) h
    ]

    module _ (dest body : Text) (opts : List PublishOpt)
        (copied : (w : World) → IsCopy cfg msg (input_for env dest body opts w)) where
      publish-Post : (w : World) → Pending msg w.log → Post msg (publish env dest body opts w)
      unfolding emit Post
      publish-Post w h = elim (publish-PublishResult env dest body opts w) [
        | rejected e r ↦ rw r h
        | refused e e' r ↦ rw r h
        | accepted r ↦ rw r (copied w, h)
      ]

      attempts-Post :
          (pauses : List ℤ) (e : GoError) (w : World)
          → Pending msg w.log
          → Post msg (attempts env (publish env dest body opts) pauses (some e) w)
      unfolding attempts Post
      attempts-Post [] e w h = h
      attempts-Post (pause ∷ pauses) e w h =
          after_attempt-Post pause (attempts env (publish env dest body opts) pauses)
            (attempts-Post pauses) (publish env dest body opts w) (publish-Post w h)

  message_input-IsCopy :
      (msg : Message) (err : Option GoError) (to_dlq : Bool) (opts : List PublishOpt) (w : World)
      → IsCopy cfg msg (
          input_for env
            (dest_queue_url cfg.queue_url cfg.retry_suffix cfg.dlq_suffix to_dlq)
            (republished cfg msg err to_dlq).1
            opts
            w)
  unfolding message_input republished
  message_input-IsCopy msg err true opts w = record {
    to_dlq = true;
    routed = refl;
    cut =
        if ltb_ℤ cfg.dlq_max_payload_bytes (pos (length (text_or_empty msg.body)))
        then pos_part cfg.dlq_max_payload_bytes
        else length (text_or_empty msg.body);
    body = cut-eq-take _ (pos_part cfg.dlq_max_payload_bytes) (text_or_empty msg.body);
  }
  message_input-IsCopy msg err false opts w = record {
    to_dlq = false;
    routed = refl;
    cut = length (text_or_empty msg.body);
    body = sym (take_of_length-le _ (text_or_empty msg.body) (omega arith));
  }

  republish-Post :
      (msg : Message) (p : Bool) (err : Option GoError) (to_dlq : Bool) (w : World)
      → Pending msg w.log
      → Post msg (
          republish env
            (if p then some (publish env) else none)
            msg
            (dest_queue_url cfg.queue_url cfg.retry_suffix cfg.dlq_suffix to_dlq)
            err
            cfg
            to_dlq
            w)
  unfolding republish attempts Post
  republish-Post msg false err to_dlq w h = h
  republish-Post msg true err to_dlq w h =
      let opts = republish_options cfg msg (republished cfg msg err to_dlq).0 to_dlq in
      let dest = dest_queue_url cfg.queue_url cfg.retry_suffix cfg.dlq_suffix to_dlq in
      let body = (republished cfg msg err to_dlq).1 in
      let pauses : List ℤ = pos 500000000 ∷ pos second ∷ [] in
      after_attempt-Post msg (pos 100000000) (attempts env (publish env dest body opts) pauses)
        (attempts-Post msg dest body opts (message_input-IsCopy msg err to_dlq opts) pauses)
        (publish env dest body opts w)
        (publish-Post msg dest body opts (message_input-IsCopy msg err to_dlq opts) w h)

  IsForwarded-IsJustified :
      (msg : Message) (log : List Event) → IsForwarded msg log → IsJustified cfg log
  IsForwarded-IsJustified msg (sent input none ∷ log) h = h.1.1
  IsForwarded-IsJustified msg _ h = absurd h

  Settled-IsForwarded :
      (msg : Message) (handle : Text) (log : List Event)
      → msg.receipt_handle ≡ some handle
      → IsForwarded msg log
      → Settled cfg handle log × IsJustified cfg log
  Settled-IsForwarded msg handle (sent input none ∷ log) e h = ((msg, e, h.0, h.1.0), h.1.1)
  Settled-IsForwarded msg handle _ e h = absurd h

  delete_unless_failed-IsJustified :
      (msg : Message) (r : Option GoError × World)
      → Post msg r
      → IsJustified cfg (delete_unless_failed env cfg msg r).log
  unfolding delete_unless_failed Post emit
  delete_unless_failed-IsJustified msg (some e, w) h = h.1
  delete_unless_failed-IsJustified msg (none, w) h = elim (Option-cases msg.receipt_handle) [
    | inl missing ↦ rw missing (IsForwarded-IsJustified msg w.log h)
    | inr (handle, present) ↦
        let s = Settled-IsForwarded msg handle w.log present h in rw present (refl, s.0, s.1)
  ]

  pub delete_message-IsJustified :
      (msg : Message) (w : World)
      → IsJustified cfg w.log
      → IsJustified cfg (delete_message env cfg.queue_url msg (emit (handled msg none) w)).log
  unfolding delete_message emit
  delete_message-IsJustified msg w h = elim (Option-cases msg.receipt_handle) [
    | inl missing ↦ rw missing h
    | inr (handle, present) ↦ rw present (refl, refl, h)
  ]

  pub follow_route-IsJustified :
      (msg : Message) (p : Bool) (e : GoError) (r : Route) (w : World)
      → r ≢ commit
      → IsJustified cfg w.log
      → IsJustified cfg
          (follow_route env
            (if p then some (publish env) else none)
            msg
            (some e)
            cfg
            r
            (emit (handled msg (some e)) w)).log
  unfolding follow_route republish_and_delete emit
  follow_route-IsJustified msg p e commit w n h = absurd (n refl)
  follow_route-IsJustified msg p e drop w n h = h
  follow_route-IsJustified msg p e retry w n h =
      delete_unless_failed-IsJustified msg _
        (republish-Post msg p (some e) false (emit (handled msg (some e)) w) (refl, h))
  follow_route-IsJustified msg p e dlq w n h =
      delete_unless_failed-IsJustified msg _
        (republish-Post msg p (some e) true (emit (handled msg (some e)) w) (refl, h))
