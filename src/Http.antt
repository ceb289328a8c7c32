-- ===== src/Http.antt =====
-- The HTTP client: src/modules/http/http-client.
pub mod Options
pub mod Errors
pub mod Request
