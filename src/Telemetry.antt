-- ===== src/Telemetry.antt =====
-- The export of finished spans to OpenTelemetry (`src/modules/opentelemetry`).
pub mod Sampling
pub mod Propagation
