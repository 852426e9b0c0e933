-- ===== src/Sqs.antt =====
-- internal/platform/sqs: routing, backoff, message attributes, queue names, producer, consumer and
-- retry consumer.
pub mod Routing
pub mod Backoff
pub mod Headers
pub mod Queues
pub mod Settings
pub mod World
pub mod Producer
pub mod Consumer
pub mod Retry
mod Tests
