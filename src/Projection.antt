-- ===== src/Projection.antt =====
-- Projections of a document by paths (GetResult in results.go).
pub mod Paths
pub mod Content
pub mod Fields
pub mod Get
pub mod Specs
mod Examples
