-- ===== src/Structures.antt =====
-- The list, map, set and queue documents (collection_ds.go).
pub mod Agent
pub mod Queue
pub mod Once
pub mod Fifo
pub mod Set
pub mod Removal
pub mod Found
mod Ends
mod Cluster
mod Examples
