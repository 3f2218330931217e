-- ===== src/Threshold.antt =====
-- The threshold logging tracer (thresholdlogtracer.go).
pub mod Order
pub mod Span
pub mod Group
pub mod Slowest
pub mod Recording
pub mod Tracer
pub mod Logging
pub mod Logged
pub mod Lifetime
pub mod Totals
mod Examples
