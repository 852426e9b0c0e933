-- ===== src/Sqs/Consumer/Justified.antt =====
-- When a deletion in the log of the SQS consumer is justified.
use go_mongo_boilerplate.Base.{ℕ, ◌≤◌, ◌≡◌, Bool, List, [], ◌∷◌, none, some, take}
use go_mongo_boilerplate.Stdlib.Text.{Text}
use go_mongo_boilerplate.Sqs.Headers.{Message}
use go_mongo_boilerplate.Sqs.Queues.{dest_queue_url}
use go_mongo_boilerplate.Sqs.Settings.{SqsConsumerConfig}
use go_mongo_boilerplate.Sqs.World.{
  SendMessageInput, Event, handled, sent, deleted, slept, World, Handler,
}
use go_mongo_boilerplate.Sqs.Consumer.{text_or_empty}

-- What was sent goes to the retry or the dead-letter queue and holds the message's body, or a first
-- part of it.
pub record IsCopy (cfg : SqsConsumerConfig) (msg : Message) (input : SendMessageInput)
    : Type 0 where
  pub to_dlq : Bool
  pub routed : input.queue_url ≡ dest_queue_url cfg.queue_url cfg.retry_suffix cfg.dlq_suffix to_dlq
  pub cut : ℕ
  pub body : input.message_body ≡ take cut (text_or_empty msg.body)

-- Since the handler of the message failed there were sleeps and refused sends only.
abbrev pub Attempted : Message → List Event → Type 0
Attempted msg [] = ⊥
Attempted msg (handled m (some e) ∷ log) = m ≡ msg
Attempted msg (sent input (some e) ∷ log) = Attempted msg log
Attempted msg (slept d ∷ log) = Attempted msg log
Attempted msg (_ ∷ log) = ⊥

-- The last event: the message of this receipt handle was handled, or its copy was accepted.
abbrev pub Settled : SqsConsumerConfig → Text → List Event → Type 0
Settled cfg handle [] = ⊥
Settled cfg handle (handled m none ∷ log) = m.receipt_handle ≡ some handle
Settled cfg handle (sent input none ∷ log) =
    (msg : Message) × (msg.receipt_handle ≡ some handle) × IsCopy cfg msg input × Attempted msg log
Settled cfg handle (_ ∷ log) = ⊥

-- Each deletion follows at once on such an event.
abbrev pub IsJustified : SqsConsumerConfig → List Event → Type 0
IsJustified cfg [] = Unit
IsJustified cfg (deleted queue handle result ∷ log) =
    (queue ≡ cfg.queue_url) × Settled cfg handle log × IsJustified cfg log
IsJustified cfg (_ ∷ log) = IsJustified cfg log

-- A handler that does not delete messages on its own, and that takes no time back.
pub record IsQuiet (cfg : SqsConsumerConfig) (h : Handler) : Type 0 where
  pub keeps : (msg : Message) (w : World) → IsJustified cfg w.log → IsJustified cfg (h msg w).1.log
  pub forward : (msg : Message) (w : World) → w.now ≤ (h msg w).1.now
