-- ===== src/Rabbit.antt =====
-- The RabbitMQ transport: src/modules/rabbit-mq.
pub mod Options
pub mod Messages
pub mod Lifecycle
pub mod Setup
pub mod Client
