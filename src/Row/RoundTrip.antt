-- ===== src/Row/RoundTrip.antt =====
-- internal/codec/row/row.go: encodeRow and decodeRow together, in the indexed format. `Typed` says which
-- Go value a field holds; the children go from scalars to rows.
pub mod Typed
pub mod Scalars
pub mod Collections
pub mod Rows
pub mod Indexed
pub mod Total
