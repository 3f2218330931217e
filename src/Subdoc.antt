-- ===== src/Subdoc.antt =====
-- Subdocument operations (subdocspecs.go, kvprovider_coresubdoc.go, and their results in results.go).
pub mod Specs
pub mod Lookup
pub mod Mutate
pub mod Found
pub mod Implements
pub mod Accepted
pub mod Writable
mod Examples
