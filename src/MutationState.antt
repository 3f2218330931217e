-- ===== src/MutationState.antt =====
-- The mutation state that queries are consistent with (token.go).
pub mod Json
pub mod Latest
pub mod RoundTrip
mod Examples
