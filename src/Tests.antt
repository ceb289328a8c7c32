-- ===== src/Tests.antt =====
-- The theorems applied at concrete inputs.
mod Shutdown
mod Consumers
mod Batches
mod Logs
mod Requests
mod Channels
mod Circles
mod Guards
mod Headers
mod Producers
mod Publishers
mod Metrics
mod Logged
mod Calls
mod Contexts
