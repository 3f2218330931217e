-- ===== src/Meter.antt =====
-- The latency histograms of the logging meter (logging_meter.go).
pub mod Histogram
pub mod Conserved
mod Examples
