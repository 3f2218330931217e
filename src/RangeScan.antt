-- ===== src/RangeScan.antt =====
-- Range scans and sampling scans (rangescanopmanager.go, collection_rangescan.go, kvprovider_core.go).
pub mod Tokens
pub mod Snapshot
pub mod Conflicts
pub mod Balancer
pub mod Least
pub mod Workers
pub mod Tally
pub mod Account
pub mod Complete
pub mod Returns
pub mod Lossless
pub mod Items
pub mod Runs
pub mod Verdict
pub mod Busy
pub mod Partition
pub mod Resume
pub mod Covers
mod Examples
