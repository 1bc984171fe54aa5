-- ===== src/Writer.antt =====
-- client/writer.go: the buffered AppendWriter and UpsertWriter. `Options` is their options, `Buffer` the
-- critical sections of both (the two state types have the same code), `Methods` the calls of Write, Flush
-- and CloseWithContext over them, `Interleaving` the goroutines that share a writer.
pub mod Options
pub mod Buffer
pub mod Methods
pub mod Interleaving
pub mod Limits
pub mod Overfull
mod Runs
