-- ===== src/Kafka/Consumer/Forward.antt =====
-- One record of the Kafka consumer: it may be committed only when it is handled or its copy is
-- accepted.
use go_mongo_boilerplate.Base.{
  ℕ, ◌≡◌, refl, sym, ap, Bool, true, false, List, [], ◌∷◌, Option, none, some, take, inl, inr,
  arith, Option-cases, if◌then◌else◌, length, take_of_length-le,
}
use go_mongo_boilerplate.Base.Int.{ℤ, pos, pos_part, ltb_ℤ}
use go_mongo_boilerplate.Stdlib.Text.{Text}
use go_mongo_boilerplate.Stdlib.Errors.{GoError}
use go_mongo_boilerplate.Kafka.Routing.{Route, commit, drop, retry, dlq, decide_route}
use go_mongo_boilerplate.Kafka.World.{
  Record, Env, Event, World, Producer, PublishOpt, emit, slept, handled, produced,
}
use go_mongo_boilerplate.Kafka.Headers.{retry_count, sanitize_for_republish}
use go_mongo_boilerplate.Kafka.Producer.{
  publish, publish_error, record_for, apply_options, zero_config,
}
use go_mongo_boilerplate.Kafka.Consumer.{
  KafkaConsumerConfig, dest_topic, cut_value, republished, republish_options, after_attempt,
  attempts, republish, after_republish, follow_route, after_handle,
}
use go_mongo_boilerplate.Kafka.Consumer.Commits.{
  Held, IsCopy, Forwarded, Settled, IsSteady, IsSteady-refl, IsSteady-trans, IsSteady-cons,
}

-- The producer that the consumer gets: the real one, or nil.
abbrev pub producer_of : Env → Bool → Option Producer
producer_of env p = if p then some (publish env) else none

cut_value-eq-take :
    (cfg : KafkaConsumerConfig) (value : Text) (to_dlq : Bool)
    → (n : ℕ) × (cut_value cfg value to_dlq ≡ take n value)
unfolding cut_value
cut_value-eq-take cfg value false =
    (length value, sym (take_of_length-le (length value) value (omega arith)))
cut_value-eq-take cfg value true = cut (ltb_ℤ cfg.dlq_max_payload_bytes (pos (length value)))
  where
    cut :
        (b : Bool)
        → (n : ℕ) × ((if b then take (pos_part cfg.dlq_max_payload_bytes) value else value)
            ≡ take n value)
    cut true = (pos_part cfg.dlq_max_payload_bytes, refl)
    cut false = (length value, sym (take_of_length-le (length value) value (omega arith)))

fine : (dest : Text) (err : Option GoError) → publish_error dest err ≡ none → err ≡ none
unfolding publish_error
fine dest none h = refl
fine dest (some e) h = absurd (cc)

succeeded : (err : Option GoError) (n max : ℤ) → decide_route err n max ≡ commit → err ≡ none
unfolding decide_route
succeeded none n max k = refl
succeeded (some e) n max k = ground arith

module _ (env : Env) (cfg : KafkaConsumerConfig) (rec : Record) where
  -- After an attempt to forward the record.
  abbrev Post : List Event → Option GoError × World → Type 0
  Post log r = IsSteady cfg log r.1.log × (r.0 ≡ none → Forwarded cfg rec r.1.log)

  after_attempt-Post :
      (pause : ℤ) (again : Option GoError → World → Option GoError × World)
      → ((e : GoError) (w : World) → Post w.log (again (some e) w))
      → (log : List Event) (r : Option GoError × World) → Post log r
      → Post log (after_attempt env pause again r)
  unfolding after_attempt emit
  after_attempt-Post pause again next log (none, w) h = h
  after_attempt-Post pause again next log (some e, w) h = elim (Option-cases (env.ctx_err w.now)) [
    | inl live ↦
        let n = next e (emit (slept pause) w) in
        rw (live, after_attempt)
          (
            IsSteady-trans cfg h.0
                (IsSteady-trans cfg (IsSteady-cons cfg (slept pause) w.log (λ k. k)) n.0),
            n.1,
          )
    | inr (c, gone) ↦ rw (gone, after_attempt) h
  ]

  module _ (dest key value : Text) (opts : List PublishOpt)
      (copied : (now : ℕ)
        → IsCopy cfg rec (record_for env now dest key value (apply_options opts zero_config))) where
    publish-Post : (w : World) → Post w.log (publish env dest key value opts w)
    unfolding publish emit
    publish-Post w =
        let copy = record_for env w.now dest key value (apply_options opts zero_config) in
        (
          IsSteady-cons cfg (produced copy (env.produce w.now copy)) w.log (λ k. k),
          λ accepted. (
            copy,
            copied w.now,
            inl (ap (produced copy) (fine dest (env.produce w.now copy) accepted)),
          ),
        )

    attempts-Post :
        (pauses : List ℤ) (e : GoError) (w : World)
        → Post w.log (attempts env (publish env dest key value opts) pauses (some e) w)
    unfolding attempts
    attempts-Post [] e w = (IsSteady-refl cfg w.log, λ h. absurd (cc))
    attempts-Post (pause ∷ pauses) e w =
        after_attempt-Post pause (attempts env (publish env dest key value opts) pauses)
          (attempts-Post pauses) w.log (publish env dest key value opts w) (publish-Post w)

  republished-IsCopy :
      (now : ℕ) (to_dlq : Bool) (err : Option GoError) (opts : List PublishOpt)
      → IsCopy cfg rec (
          record_for env now
            (dest_topic rec.topic cfg to_dlq)
            (republished cfg rec (dest_topic rec.topic cfg to_dlq) err to_dlq).key
            (republished cfg rec (dest_topic rec.topic cfg to_dlq) err to_dlq).value
            (apply_options opts zero_config))
  unfolding republished record_for sanitize_for_republish
  republished-IsCopy now to_dlq err opts =
      let cut = cut_value-eq-take cfg rec.value to_dlq in
      record { to_dlq = to_dlq; routed = refl; key = refl; cut = cut.0; value = cut.1 }

  republish-Post :
      (p to_dlq : Bool) (err : Option GoError) (w : World)
      → Post w.log
          (republish env (producer_of env p) rec (dest_topic rec.topic cfg to_dlq) err cfg to_dlq w)
  unfolding republish attempts
  republish-Post false to_dlq err w = (IsSteady-refl cfg w.log, λ h. absurd (cc))
  republish-Post true to_dlq err w =
      let copy = republished cfg rec (dest_topic rec.topic cfg to_dlq) err to_dlq in
      let opts = republish_options copy.headers in
      let dest = dest_topic rec.topic cfg to_dlq in
      let copied : (now : ℕ)
          → IsCopy cfg rec
              (record_for env now dest copy.key copy.value (apply_options opts zero_config)) =
        λ now. republished-IsCopy now to_dlq err opts in
      let later = pos 500000000 ∷ pos 1000000000 ∷ [] in
      after_attempt-Post (pos 100000000)
        (attempts env (publish env dest copy.key copy.value opts) later)
        (attempts-Post dest copy.key copy.value opts copied later) w.log
        (publish env dest copy.key copy.value opts w)
        (publish-Post dest copy.key copy.value opts copied w)

  -- After the routing of the record: if it may be committed, it is settled.
  abbrev Routed : List Event → Bool × World → Type 0
  Routed log r = IsSteady cfg log r.1.log × (r.0 ≡ true → Settled cfg rec r.1.log)

  after_republish-Routed :
      (log : List Event) (r : Option GoError × World) → Post log r → Routed log (after_republish r)
  unfolding after_republish
  after_republish-Routed log (none, w) h = (h.0, λ k. inr (h.1 refl))
  after_republish-Routed log (some e, w) h = (h.0, λ k. absurd (cc))

  follow_route-Routed :
      (p : Bool) (err : Option GoError) (route : Route) (w : World)
      → (route ≡ commit → Held (handled rec none) w.log)
      → Routed w.log (follow_route env (producer_of env p) rec err cfg route w)
  unfolding follow_route
  follow_route-Routed p err commit w h = (IsSteady-refl cfg w.log, λ k. inl (h refl))
  follow_route-Routed p err drop w h = (IsSteady-refl cfg w.log, λ k. absurd (cc))
  follow_route-Routed p err retry w h =
      after_republish-Routed w.log _ (republish-Post p false err w)
  follow_route-Routed p err dlq w h = after_republish-Routed w.log _ (republish-Post p true err w)

  pub after_handle-Routed :
      (p : Bool) (r : Option GoError × World)
      → IsSteady cfg r.1.log (after_handle env (producer_of env p) rec cfg r).1.log
        × ((after_handle env (producer_of env p) rec cfg r).0 ≡ true
            → Settled cfg rec (after_handle env (producer_of env p) rec cfg r).1.log)
  unfolding after_handle emit
  after_handle-Routed p (err, w) =
      let route = decide_route err (retry_count rec.headers) cfg.max_retries in
      let w' = emit (handled rec err) w in
      let q =
        follow_route-Routed p err route w' (λ k. inl (ap (handled rec) (succeeded err _ _ k))) in
      (IsSteady-trans cfg (IsSteady-cons cfg (handled rec err) w.log (λ k. k)) q.0, q.1)
