-- ===== src/Replicas.antt =====
-- Reads of all replicas: the result that their goroutines share (coreReplicasResult in
-- collection_crud.go).
pub mod Results
pub mod Invariant
pub mod Safety
mod Examples
