-- ===== src/Kafka.antt =====
-- The Kafka transport: src/modules/kafka.
pub mod Handlers
pub mod Connection
pub mod Messages
pub mod Producer
