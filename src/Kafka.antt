-- ===== src/Kafka.antt =====
-- internal/platform/kafka: the Kafka consumer, which commits a batch of records at a time, and its
-- retry and dead-letter topics.
pub mod Routing
pub mod World
pub mod Headers
pub mod Producer
pub mod Consumer
pub mod Retry
mod Tests
