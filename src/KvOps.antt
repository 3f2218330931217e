-- ===== src/KvOps.antt =====
-- One key-value operation: its options, its deadlines and its durability (kvopmanager_core.go,
-- collection_dura.go, and the durability levels of constants.go).
pub mod Level
pub mod Manager
pub mod Expiry
pub mod Timeouts
pub mod Options
pub mod Observe
pub mod Observers
pub mod Pending
pub mod Holders
pub mod Durability
pub mod Requests
pub mod Operations
pub mod Promises
pub mod Unencodable
mod Examples
