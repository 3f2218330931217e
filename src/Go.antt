-- ===== src/Go.antt =====
-- What the modelled code takes from the Go language and its standard library.
pub mod Sort
pub mod Slice
pub mod Word
pub mod Decimal
pub mod Bytes
pub mod ByteMap
