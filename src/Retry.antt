-- ===== src/Retry.antt =====
-- Retries of requests to the gRPC services, and the mapping of their errors (retry.go, error_ps.go).
pub mod Errors
pub mod Request
pub mod Loop
pub mod Timeouts
pub mod Records
pub mod Permission
mod Examples
