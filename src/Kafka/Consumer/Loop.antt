-- ===== src/Kafka/Consumer/Loop.antt =====
-- The whole loop of the Kafka consumer: every commit is justified.
use go_mongo_boilerplate.Base.{
  ℕ, zero, suc, ◌≡◌, refl, Bool, true, false, List, [], ◌∷◌, Option, none, some, inl, inr,
  Option-cases, Bool-cases, All,
}
use go_mongo_boilerplate.Stdlib.Errors.{GoError}
use go_mongo_boilerplate.Kafka.World.{
  Record, Event, Fetches, Env, World, Handler, emit, polled, heartbeat,
}
use go_mongo_boilerplate.Kafka.Consumer.{
  KafkaConsumerConfig, with_defaults, after_record, after_handle, process_all, commit_all,
  cancellation, after_fetch, poll, Outcome, returned, running, after_poll, rounds, consume,
  ConsumeOptions,
}
use go_mongo_boilerplate.Kafka.Consumer.Commits.{
  Settled, Settled-grows, IsCommitted, IsSteady, IsSteady-refl, IsSteady-trans, IsQuiet,
}
use go_mongo_boilerplate.Kafka.Consumer.Forward.{producer_of, after_handle-Routed}

abbrev pub options :
    Env → KafkaConsumerConfig → (producer heartbeat on_done : Bool) → ConsumeOptions
options env cfg p hb od = record {
  consumer = cfg;
  producer = producer_of env p;
  has_heartbeat = hb;
  has_on_done = od;
}

-- The world in which the loop stands.
abbrev pub world_of : Outcome → World
world_of (returned e w) = w
world_of (running w) = w

module _ (env : Env) (cfg : KafkaConsumerConfig) (h : Handler) (quiet : IsQuiet cfg h)
    (p : Bool) where
  -- The batch so far: its records are settled.
  abbrev Batch : List Event → List Record × World → Type 0
  Batch log r = IsSteady cfg log r.1.log × All (λ rec. Settled cfg rec r.1.log) r.0

  after_record-Batch :
      (rec : Record) (next : World → List Record × World)
      → ((w : World) → Batch w.log (next w))
      → (r : Bool × World) → (r.0 ≡ true → Settled cfg rec r.1.log)
      → Batch r.1.log (after_record rec next r)
  unfolding after_record
  after_record-Batch rec next k (false, w) s = (IsSteady-refl cfg w.log, tt)
  after_record-Batch rec next k (true, w) s =
      let n = k w in (n.0, (Settled-grows cfg rec w.log (next w).1.log n.0 (s refl), n.1))

  process_all-Batch :
      (recs : List Record) (w : World)
      → Batch w.log (process_all env h (producer_of env p) cfg recs w)
  unfolding process_all
  process_all-Batch [] w = (IsSteady-refl cfg w.log, tt)
  process_all-Batch (rec ∷ recs) w =
      let r = after_handle env (producer_of env p) rec cfg (h rec w) in
      let routed = after_handle-Routed env cfg rec p (h rec w) in
      let rest =
        after_record-Batch rec (process_all env h (producer_of env p) cfg recs)
          (process_all-Batch recs) r routed.1 in
      (IsSteady-trans cfg (quiet rec w) (IsSteady-trans cfg routed.0 rest.0), rest.1)

  commit_all-IsCommitted :
      (log : List Event) (r : List Record × World)
      → Batch log r
      → IsCommitted cfg log
      → IsCommitted cfg (commit_all env r).log
  unfolding commit_all emit
  commit_all-IsCommitted log ([], w) b k = b.0.keeps k
  commit_all-IsCommitted log (rec ∷ recs, w) b k = (b.1, b.0.keeps k)

  module _ (c : KafkaConsumerConfig) (hb od : Bool) where
    after_fetch-IsCommitted :
        (fetches : Fetches) (w : World)
        → IsCommitted cfg w.log
        → IsCommitted cfg (after_fetch env h (options env c p hb od) cfg fetches w).1.log
    unfolding after_fetch emit
    after_fetch-IsCommitted fetches w k = elim (Option-cases (cancellation fetches.errors)) [
      | inr (e, gone) ↦ rw (gone, after_fetch) k
      | inl live ↦
          rw (live, after_fetch)
            (elim (Bool-cases hb) [
              | inl beats ↦ rw beats (
                  commit_all-IsCommitted (emit heartbeat w).log _
                    (process_all-Batch fetches.records (emit heartbeat w)) k)
              | inr silent ↦
                  rw silent (commit_all-IsCommitted w.log _ (process_all-Batch fetches.records w) k)
            ])
    ]

    poll-IsCommitted :
        (w : World)
        → IsCommitted cfg w.log
        → IsCommitted cfg (poll env h (options env c p hb od) cfg w).1.log
    unfolding poll emit
    poll-IsCommitted w k = elim (Option-cases (env.ctx_err w.now)) [
      | inr (e, gone) ↦ rw (gone, poll) k
      | inl live ↦
          rw (live, poll)
            (after_fetch-IsCommitted (env.poll_fetches w.now)
              (emit (polled (env.poll_fetches w.now)) w) k)
    ]

    after_poll-IsCommitted :
        (again : World → Outcome)
        → ((w : World) → IsCommitted cfg w.log → IsCommitted cfg (world_of (again w)).log)
        → (r : Option GoError × World) → IsCommitted cfg r.1.log
        → IsCommitted cfg (world_of (after_poll (options env c p hb od) again r)).log
    unfolding after_poll emit
    after_poll-IsCommitted again next (none, w) k = next w k
    after_poll-IsCommitted again next (some e, w) k = elim (Bool-cases od) [
      | inl tells ↦ rw tells k
      | inr silent ↦ rw silent k
    ]

    rounds-IsCommitted :
        (fuel : ℕ) (w : World)
        → IsCommitted cfg w.log
        → IsCommitted cfg (world_of (rounds env h (options env c p hb od) cfg fuel w)).log
    unfolding rounds
    rounds-IsCommitted zero w k = k
    rounds-IsCommitted (suc fuel) w k =
        after_poll-IsCommitted (rounds env h (options env c p hb od) cfg fuel)
          (rounds-IsCommitted fuel) _ (poll-IsCommitted w k)

-- However long the Kafka consumer runs and whatever fails: every record that it asks to commit was
-- handled without an error before, or a copy of it was accepted for its retry or dead-letter topic,
-- provided that the handler itself commits nothing and the log before
-- was of that kind.
pub consume-IsCommitted :
    (env : Env) (cfg : KafkaConsumerConfig) (h : Handler)
    → IsQuiet (with_defaults cfg) h
    → (producer heartbeat on_done : Bool) (fuel : ℕ) (w : World)
    → IsCommitted (with_defaults cfg) w.log
    → IsCommitted
        (with_defaults cfg)
        (world_of (consume env h (options env cfg producer heartbeat on_done) fuel w)).log
unfolding consume
consume-IsCommitted env cfg h quiet p hb od fuel w k =
    rounds-IsCommitted env (with_defaults cfg) h quiet p cfg hb od fuel w k
