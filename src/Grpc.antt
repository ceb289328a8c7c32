-- ===== src/Grpc.antt =====
-- The gRPC client: src/modules/grpc/grpc-client.
pub mod Options
pub mod Errors
pub mod Request
