-- ===== src/Prometheus.antt =====
-- Metrics of method calls, `src/modules/prometheus`: the decorator `PrometheusOnMethod`, the configuration
-- of its events and the service that carries the events out. prom-client is a parameter.
pub mod Config
pub mod Events
pub mod OnMethod
