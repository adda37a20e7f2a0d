-- ===== src/Log.antt =====
-- Package v2/internallog.
pub mod Level
pub mod Payload
pub mod Http
pub mod Grpc
pub mod Variance
