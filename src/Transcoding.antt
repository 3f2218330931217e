-- ===== src/Transcoding.antt =====
-- The transcoders between Go values and stored bytes with flags (transcoding.go).
pub mod Defs
pub mod RoundTrip
mod Examples
