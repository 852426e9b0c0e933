-- ===== src/Kafka/Consumer/Ends.antt =====
-- A cancelled context ends the loop of the Kafka consumer.
use native.Mathlib.Decide.{dec_lt}
use native.Mathlib.Nat.{le_trans, le_refl}
use go_mongo_boilerplate.Base.{
  ℕ, zero, suc, ◌+◌, ◌≤◌, ◌<◌, ◌≡◌, refl, Bool, true, false, List, [], ◌∷◌, Option, none, some, inl,
  inr, arith, Option-cases, Bool-cases,
}
use go_mongo_boilerplate.Base.Int.{ℤ}
use go_mongo_boilerplate.Stdlib.Text.{Text}
use go_mongo_boilerplate.Stdlib.Errors.{GoError}
use go_mongo_boilerplate.Kafka.Routing.{Route, commit, drop, retry, dlq, decide_route}
use go_mongo_boilerplate.Kafka.World.{
  Record, Fetches, Env, World, Handler, emit, polled, heartbeat, slept, handled,
}
use go_mongo_boilerplate.Kafka.Headers.{retry_count}
use go_mongo_boilerplate.Kafka.Producer.{publish}
use go_mongo_boilerplate.Kafka.Consumer.{
  KafkaConsumerConfig, with_defaults, after_attempt, attempts, attempt_backoff, republish,
  after_republish, follow_route, after_handle, after_record, process_all, commit_all, cancellation,
  after_fetch, poll, Outcome, returned, after_poll, rounds, consume,
}
use go_mongo_boilerplate.Kafka.Consumer.Forward.{producer_of}
use go_mongo_boilerplate.Kafka.Consumer.Loop.{options}

-- A handler that returns at no earlier moment than it was called at.
abbrev pub IsForward : Handler → Type 0
IsForward h = (rec : Record) (w : World) → w.now ≤ (h rec w).1.now

module _ (env : Env) where
  after_attempt_now :
      (pause : ℤ) (again : Option GoError → World → Option GoError × World)
      → ((e : Option GoError) (w : World) → w.now ≤ (again e w).1.now)
      → (r : Option GoError × World) → r.1.now ≤ (after_attempt env pause again r).1.now
  unfolding after_attempt emit
  after_attempt_now pause again later (none, w) = le_refl w.now
  after_attempt_now pause again later (some e, w) = elim (Option-cases (env.ctx_err w.now)) [
    | inr (c, gone) ↦ rw (gone, after_attempt) (le_refl w.now)
    | inl live ↦ rw (live, after_attempt) (omega (arith, later (some e) (emit (slept pause) w)))
  ]

  attempts_now :
      (try : World → Option GoError × World)
      → ((w : World) → w.now ≤ (try w).1.now)
      → (pauses : List ℤ) (e : Option GoError) (w : World)
      → w.now ≤ (attempts env try pauses e w).1.now
  unfolding attempts
  attempts_now try fwd [] e w = le_refl w.now
  attempts_now try fwd (pause ∷ pauses) e w =
      le_trans (fwd w)
        (after_attempt_now pause (attempts env try pauses) (attempts_now try fwd pauses) (try w))

  republish_now :
      (p to_dlq : Bool) (rec : Record) (dest : Text) (err : Option GoError)
      (cfg : KafkaConsumerConfig) (w : World)
      → w.now ≤ (republish env (producer_of env p) rec dest err cfg to_dlq w).1.now
  unfolding republish publish emit
  republish_now false to_dlq rec dest err cfg w = le_refl w.now
  republish_now true to_dlq rec dest err cfg w =
      attempts_now _ (λ v. omega arith) attempt_backoff none w

  after_republish_now : (r : Option GoError × World) → r.1.now ≤ (after_republish r).1.now
  unfolding after_republish
  after_republish_now (none, w) = le_refl w.now
  after_republish_now (some e, w) = le_refl w.now

  module _ (p : Bool) (cfg : KafkaConsumerConfig) where
    follow_route_now :
        (rec : Record) (err : Option GoError) (r : Route) (w : World)
        → w.now ≤ (follow_route env (producer_of env p) rec err cfg r w).1.now
    unfolding follow_route
    follow_route_now rec err commit w = le_refl w.now
    follow_route_now rec err drop w = le_refl w.now
    follow_route_now rec err retry w =
        le_trans (republish_now p false rec _ err cfg w) (after_republish_now _)
    follow_route_now rec err dlq w =
        le_trans (republish_now p true rec _ err cfg w) (after_republish_now _)

    after_handle_now :
        (rec : Record) (r : Option GoError × World)
        → r.1.now ≤ (after_handle env (producer_of env p) rec cfg r).1.now
    unfolding after_handle emit
    after_handle_now rec (err, w) = omega (
      arith,
      follow_route_now rec err (decide_route err (retry_count rec.headers) cfg.max_retries)
          (emit (handled rec err) w),
    )

    after_record_now :
        (rec : Record) (later : World → List Record × World)
        → ((w : World) → w.now ≤ (later w).1.now)
        → (r : Bool × World) → r.1.now ≤ (after_record rec later r).1.now
    unfolding after_record
    after_record_now rec later fwd (false, w) = le_refl w.now
    after_record_now rec later fwd (true, w) = fwd w

    commit_all_now : (r : List Record × World) → r.1.now ≤ (commit_all env r).now
    unfolding commit_all emit
    commit_all_now ([], w) = le_refl w.now
    commit_all_now (rec ∷ recs, w) = omega arith

    module _ (h : Handler) (fwd : IsForward h) where
      process_all_now :
          (recs : List Record) (w : World)
          → w.now ≤ (process_all env h (producer_of env p) cfg recs w).1.now
      unfolding process_all
      process_all_now [] w = le_refl w.now
      process_all_now (rec ∷ recs) w = le_trans (fwd rec w) (
          le_trans (after_handle_now rec (h rec w)) (
            after_record_now rec (process_all env h (producer_of env p) cfg recs)
              (process_all_now recs) _))

      module _ (c : KafkaConsumerConfig) (hb od : Bool) where
        after_fetch_now :
            (fetches : Fetches) (w : World)
            → w.now ≤ (after_fetch env h (options env c p hb od) cfg fetches w).1.now
        unfolding after_fetch emit
        after_fetch_now fetches w = elim (Option-cases (cancellation fetches.errors)) [
          | inr (e, gone) ↦ rw (gone, after_fetch) (le_refl w.now)
          | inl live ↦
              rw (live, after_fetch)
                (elim (Bool-cases hb) [
                  | inl beats ↦ rw beats (
                      omega (
                        arith,
                        process_all_now fetches.records (emit heartbeat w),
                        commit_all_now (
                            process_all env h (producer_of env p) cfg fetches.records
                              (emit heartbeat w)),
                      ))
                  | inr silent ↦
                      rw silent (le_trans (process_all_now fetches.records w) (commit_all_now _))
                ])
        ]

        poll_now :
            (w : World)
            → env.ctx_err w.now ≡ none
            → w.now < (poll env h (options env c p hb od) cfg w).1.now
        unfolding poll emit
        poll_now w live =
            rw (live, poll)
              (omega (
                arith,
                after_fetch_now (env.poll_fetches w.now) (emit (polled (env.poll_fetches w.now)) w),
              ))

        poll_live :
            (w : World)
            → (poll env h (options env c p hb od) cfg w).0 ≡ none
            → env.ctx_err w.now ≡ none
        unfolding poll
        poll_live w e = elim (Option-cases (env.ctx_err w.now)) [
          | inl live ↦ live
          | inr (c, gone) ↦ absurd (cc (rw (gone, poll) at e))
        ]

        module _ (end : ℕ)
            (cancelled : (t : ℕ) → end ≤ t → (e : GoError) × (env.ctx_err t ≡ some e)) where
          live_before : (w : World) → env.ctx_err w.now ≡ none → w.now < end
          live_before w live = elim (dec_lt w.now end) [
            | yes b ↦ b
            | no b ↦ let (e, gone) = cancelled w.now (omega arith) in absurd (cc)
          ]

          after_poll-returned :
              (again : World → Outcome) (r : Option GoError × World)
              → (r.0 ≡ none → (e : GoError) × (w' : World) × (again r.1 ≡ returned e w'))
              → (e : GoError) × (w' : World) × (after_poll (options env c p hb od) again r
                  ≡ returned e w')
          unfolding after_poll
          after_poll-returned again (none, w) k = k refl
          after_poll-returned again (some e, w) k = (e, _, refl)

          rounds-returned :
              (fuel : ℕ) (w : World)
              → end < w.now + suc fuel
              → (e : GoError) × (w' : World) × (rounds env h
                    (options env c p hb od)
                    cfg
                    (suc fuel)
                    w
                  ≡ returned e w')
          unfolding rounds
          rounds-returned zero w b =
              after_poll-returned (rounds env h (options env c p hb od) cfg zero)
                (poll env h (options env c p hb od) cfg w)
                (λ e. absurd (omega (arith, live_before w (poll_live w e))))
          rounds-returned (suc fuel) w b =
              after_poll-returned (rounds env h (options env c p hb od) cfg (suc fuel))
                (poll env h (options env c p hb od) cfg w)
                (λ e.
                  let live = poll_live w e in
                  rounds-returned fuel (poll env h (options env c p hb od) cfg w).1
                    (omega (arith, live_before w live, poll_now w live)))

-- Once the context stays cancelled from some moment on, the Kafka consumer returns with an error, provided
-- that the handler returns at no earlier moment than it was called at: one round for each moment
-- before, and one more, are enough.
pub consume_ends :
    (env : Env) (cfg : KafkaConsumerConfig) (h : Handler)
    → IsForward h
    → (producer heartbeat on_done : Bool) (end : ℕ)
    → ((t : ℕ) → end ≤ t → (e : GoError) × (env.ctx_err t ≡ some e))
    → (fuel : ℕ) (w : World) → end < w.now + suc fuel
    → (e : GoError) × (w' : World) × (consume env h
          (options env cfg producer heartbeat on_done)
          (suc fuel)
          w
        ≡ returned e w')
unfolding consume
consume_ends env cfg h fwd p hb od end cancelled fuel w b =
    rounds-returned env p (with_defaults cfg) h fwd cfg hb od end cancelled fuel w b
