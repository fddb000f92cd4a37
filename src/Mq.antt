-- ===== src/Mq.antt =====
-- internal/mq: the publisher with its fallback, and the consumer.
pub mod Publisher
pub mod Consumer
pub mod Link
pub mod Session
