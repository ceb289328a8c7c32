-- ===== src/Logger.antt =====
-- The ELK logger: src/modules/elk-logger.
pub mod Value
pub mod Prune
pub mod Markers
pub mod Spans
pub mod OnMethod
pub mod Nest
