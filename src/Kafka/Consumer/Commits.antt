-- ===== src/Kafka/Consumer/Commits.antt =====
-- When the commits in the log of the Kafka consumer are justified, and logs that grow.
use go_mongo_boilerplate.Base.{ℕ, ◌≡◌, ◌⊎◌, inl, inr, Bool, List, [], ◌∷◌, none, take, All}
use go_mongo_boilerplate.Kafka.World.{Record, Event, World, Handler, handled, produced, committed}
use go_mongo_boilerplate.Kafka.Consumer.{KafkaConsumerConfig, dest_topic}

-- The event is in the log.
abbrev pub Held : Event → List Event → Type 0
Held e [] = ⊥
Held e (x ∷ log) = (x ≡ e) ⊎ Held e log

-- What was produced goes to the retry or the dead-letter topic, with the record's key, and with its
-- value or a first part of it.
pub record IsCopy (cfg : KafkaConsumerConfig) (rec copy : Record) : Type 0 where
  pub to_dlq : Bool
  pub routed : copy.topic ≡ dest_topic rec.topic cfg to_dlq
  pub key : copy.key ≡ rec.key
  pub cut : ℕ
  pub value : copy.value ≡ take cut rec.value

module _ (cfg : KafkaConsumerConfig) where
  -- A copy of the record was accepted.
  abbrev pub Forwarded : Record → List Event → Type 0
  Forwarded rec log = (copy : Record) × IsCopy cfg rec copy × Held (produced copy none) log

  -- The record was handled, or its copy was accepted.
  abbrev pub Settled : Record → List Event → Type 0
  Settled rec log = Held (handled rec none) log ⊎ Forwarded rec log

  -- Each record of each commit was settled before.
  abbrev pub IsCommitted : List Event → Type 0
  IsCommitted [] = Unit
  IsCommitted (committed recs result ∷ log) = All (λ rec. Settled rec log) recs × IsCommitted log
  IsCommitted (_ ∷ log) = IsCommitted log

  -- The log grows, and by no commit that is not justified.
  pub record IsSteady (log log' : List Event) : Type 0 where
    pub grows : (e : Event) → Held e log → Held e log'
    pub keeps : IsCommitted log → IsCommitted log'

  pub IsSteady-refl : (log : List Event) → IsSteady log log
  IsSteady-refl log = record { grows = λ e h. h; keeps = λ h. h }

  pub IsSteady-trans : {a b c : List Event} → IsSteady a b → IsSteady b c → IsSteady a c
  IsSteady-trans p q = record {
    grows = λ e h. q.grows e (p.grows e h);
    keeps = λ h. q.keeps (p.keeps h);
  }

  pub IsSteady-cons :
      (x : Event) (log : List Event)
      → (IsCommitted log → IsCommitted (x ∷ log))
      → IsSteady log (x ∷ log)
  IsSteady-cons x log k = record { grows = λ e h. inr h; keeps = k }

  pub Settled-grows :
      (rec : Record) (log log' : List Event)
      → IsSteady log log'
      → Settled rec log
      → Settled rec log'
  Settled-grows rec log log' s (inl h) = inl (s.grows (handled rec none) h)
  Settled-grows rec log log' s (inr (copy, c, h)) = inr (copy, c, s.grows (produced copy none) h)

  -- A handler that commits nothing on its own, and takes nothing out of the log.
  abbrev pub IsQuiet : Handler → Type 0
  IsQuiet h = (rec : Record) (w : World) → IsSteady w.log (h rec w).1.log
