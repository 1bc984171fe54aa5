-- ===== src/Row.antt =====
-- internal/codec/row: the row codec. `Types` is types.go, `Value` the dynamic values of row.go,
-- `Encode` and `Decode` the two directions, `Batch` the log, kv and value batches.
pub mod Types
pub mod Value
pub mod Number
pub mod Encode
pub mod Decode
pub mod MapEntries
pub mod Read
pub mod NullBits
pub mod RoundTrip
pub mod Crc
pub mod Batch
pub mod Unbatch
pub mod Malformed
mod Runs
