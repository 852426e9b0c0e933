-- ===== src/Worker/Heartbeats.antt =====
-- Which heartbeats the consumers of a run give.
use go_mongo_boilerplate.Base.{
  ℕ, ◌≡◌, ◌⊎◌, inl, inr, refl, ◌∙◌, ap, false, List, [], ◌∷◌, some, All,
}
use go_mongo_boilerplate.Stdlib.Text.{Text, codes}
use go_mongo_boilerplate.Stdlib.Errors.{GoError}
use go_mongo_boilerplate.Health.Heartbeat.{check, new_checker}
use go_mongo_boilerplate.Worker.{
  Checkers, Task, tasks, heartbeat, provide_checkers, provide_sqs_handler,
}

-- Heartbeats of tasks at moments, the first first.
unfoldable pub beats : List (Task × ℕ) → Checkers → Checkers
unfolding heartbeat
beats [] c = c
beats ((t, now) ∷ rest) c = beats rest (heartbeat t now c)

-- The task is one of the list.
abbrev pub IsAmong : List Task → Task → Type 0
IsAmong [] t = ⊥
IsAmong (u ∷ us) t = (t ≡ u) ⊎ IsAmong us t

-- The task is none of the SQS consumers.
abbrev IsKafka : Task → Type 0
IsKafka t = (t ≡ Task.kafka_consume) ⊎ (t ≡ Task.kafka_consume_retry)

heartbeat-sqs : (t : Task) (now : ℕ) (c : Checkers) → IsKafka t → (heartbeat t now c).sqs ≡ c.sqs
unfolding heartbeat
heartbeat-sqs t now c (inl e) = rw e
heartbeat-sqs t now c (inr e) = rw e

among-IsKafka : (queue_url : Text) (t : Task) → IsAmong (tasks queue_url false) t → IsKafka t
unfolding tasks
among-IsKafka [] t h = elim h [ inl e ↦ inl e | inr (inl e) ↦ inr e | inr (inr z) ↦ absurd z ]
among-IsKafka (c ∷ queue_url) t h = elim h [
  | inl e ↦ inl e
  | inr (inl e) ↦ inr e
  | inr (inr z) ↦ absurd z
]

beats-sqs :
    (queue_url : Text) (bs : List (Task × ℕ)) (c : Checkers)
    → All (λ b. IsAmong (tasks queue_url false) b.0) bs
    → (beats bs c).sqs ≡ c.sqs
unfolding beats
beats-sqs queue_url [] c h = refl
beats-sqs queue_url ((t, now) ∷ rest) c h =
    beats-sqs queue_url rest (heartbeat t now c) h.1
    ∙ heartbeat-sqs t now c (among-IsKafka queue_url t h.0)

-- Without a handler for SQS, as the worker is delivered, no consumer of the run gives the heartbeat of
-- the SQS checker, so that its check fails at every moment, whatever the queue URL is.
pub sqs_check_fails :
    (queue_url : Text) (bs : List (Task × ℕ)) (now : ℕ)
    → All (λ b. IsAmong (tasks queue_url provide_sqs_handler) b.0) bs
    → check now (beats bs provide_checkers).sqs
      ≡ some (GoError.plain (codes "sqs: no poll observed yet"))
unfolding provide_sqs_handler check provide_checkers new_checker
sqs_check_fails queue_url bs now h = ap (check now) (beats-sqs queue_url bs provide_checkers h)
