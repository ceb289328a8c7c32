-- ===== src/Graceful.antt =====
-- Graceful shutdown: src/modules/graceful-shutdown.
pub mod Counter
pub mod Wait
pub mod Events
pub mod Service
