-- ===== src/Lib.antt =====
-- A model of the Go client for Apache Fluss: its row codec, its frame codec, its metadata cache and schema
-- descriptors, its snapshot reader, its buffered writers, its table client with the API for rows, its
-- scanner and its admin client.
--
-- Parts. The row codec (internal/codec/row) turns rows of dynamic values into bytes under a schema, and
-- packs rows into log, kv and value batches with checksums. The frame codec (internal/codec/frame) puts
-- requests and responses on the connection. The metadata cache (internal/metadata) keeps servers, tables
-- and the leader of each bucket, under keys that it formats; beside it, schema descriptors are parsed into
-- the schemas of the row codec. The snapshot reader (internal/snapshot) decodes stored rows with the row
-- codec and puts them under the columns asked for. The writers (client/writer.go) buffer
-- encoded batches and hand them to the table client (client/table.go), by hand or when a timer fires; it
-- sends each batch to the leader of its bucket and retries those that failed for a stale leader. Lookups and
-- fetches are grouped by leaders in the same way. The row API (client/row.go) encodes rows for these calls
-- and decodes what they answer; the scanner (client/scanner.go) reads a bucket page by page. The admin
-- client (client/admin.go) asks the coordinator; the table client gets the info of a table from it.
--
-- Files and sources.
-- - Prelude, Result, Bytes: what the parts share. Numbers and lists over the native naturals; Go's
--   results with `err` for an error value and `panic` for a run-time panic; encoding/binary.
-- - Row.Types: internal/codec/row/types.go (FieldType, Schema, IsFixed, Validate).
-- - Row.Value, Row.Number, Row.Encode, Row.Batch: internal/codec/row/row.go from values to bytes
--   (asBool to asTimestampLtz, math/big, encodeRow, encodeValue, EncodeLookupKey, Encode*RecordBatch).
-- - Row.Decode, Row.MapEntries, Row.Read, Row.Unbatch: the same file from bytes to values (decodeRow,
--   decodeValue, decodeMap, Decode*RecordBatch, DecodeLogRecordBatchRows, DecodeValueRecordBatchRows).
-- - Row.Crc: hash/crc32 with the Castagnoli table.
-- - Row.RoundTrip, Row.Unbatch.LogRoundTrip, Row.Unbatch.LogRecords,
--   Row.Unbatch.KvRoundTrip, Row.Unbatch.Fuel, Row.Malformed: theorems.
-- - Frame: internal/codec/frame/frame.go (EncodeRequest, ReadResponse); Frame.Responses: theorems.
-- - Writer.Options, Writer.Buffer, Writer.Methods: client/writer.go and the options of client/types.go.
--   Buffer has one function for each critical section, Methods the calls made of them.
-- - Writer.Interleaving: a step for each critical section, so that a run is any interleaving of
--   goroutines; Writer.Interleaving.Safety, Writer.Limits, Writer.Overfull: theorems.
-- - Metadata.Cache: internal/metadata/cache.go, every method of Cache; Metadata.Cache.Keys, Laws and
--   Routes: theorems. Format: fmt's %d. Text: package strings on ASCII texts.
-- - Metadata.Schema: internal/metadata/schema_descriptor.go. Parser: fieldTypeParser. Descriptor: the
--   structs behind the JSON, toFieldType, ParseSchemaColumns, ParseSchema. Printer: a reference printer.
--   Steps, Fuel, Printer.Words, Printer.Trim, Printer.RoundTrip, Descriptor.Forms, Descriptor.Columns:
--   lemmas and theorems. Metadata.TableDescriptor: internal/metadata/table_descriptor.go.
-- - Snapshot: internal/snapshot/decode.go and reader.go (decodeValue, projectRow, lookupPlan, ReadAll);
--   Snapshot.Projection, Plans and Stored: theorems.
-- - Client: client/client.go and client/pb.go (parseTableMetadata and the like, ingestMetadata, routeFor);
--   Client.Ingest, Client.Routing: theorems.
-- - Table.Retry: client/table.go, AppendLog and its helpers over the results of appendLogOnce and
--   RefreshMetadata; Table.Retry.Hidden: a theorem. Table.Upsert, Table.Upsert.Once: UpsertKV and
--   upsertKVOnce, with mergePutResults and parsePutResults; Table.Upsert.Sorting, Like: theorems.
-- - Table.Send, Table.Send.Routes, Table.Send.Once: client/table.go (routeFor, groupBatchesByLeader and
--   its like, ensureTableInfo, appendLogOnce), client/parse.go (parseProduceResults); Protocol:
--   internal/protocol/errors.go; Table.Send.Groups, Known, Failing and Errors: theorems.
-- - Table.Read, Table.Read.Calls: client/table.go (Lookup, PrefixLookup, FetchLogWithOptions, LimitScan) with
--   their messages and the functions of client/parse.go and client/pb.go; Table.Read.Gathering, Returning: theorems.
--   Table.Sample: a small cluster for runs.
-- - Rows, Rows.Encoding, Rows.Decoding, Rows.Lookups, Rows.Snapshots: client/row.go and
--   client/snapshot_fetcher.go; Rows.Keys, Targets,
--   Stored, Versions and Scanned: theorems.
-- - Scan: client/scanner.go; Scan.Rows: ScanRows of client/row.go; Scan.Requests, Drained and Complete:
--   theorems.
-- - Admin: client/admin.go (invokeAny, invokeCoordinator, GetTableInfo) and RefreshMetadata of
--   client/client.go; Admin.Databases, Tables, Partitions, Snapshots, Acls and Cluster: the other calls;
--   Admin.Snapshots.Latest: a theorem.
-- - Transport: internal/transport/client.go, the calls of a connection (invoke, readLoop, resolve,
--   resolveError, failAll) as a step relation; Transport.Matching, Transport.Blocking: theorems.
-- - Row.Runs, Frame.Runs, Metadata.Runs, Metadata.Schema.Runs, Client.Runs, Snapshot.Runs, Table.Runs,
--   Table.Send.Runs, Table.Read.Runs, Table.Upsert.Runs, Rows.Runs, Rows.Runs.Scans, Scan.Runs, Admin.Runs,
--   Transport.Runs, Writer.Runs: runs at concrete inputs.
--
-- Representation. A machine integer is its bit pattern, a natural number below 2 ^ w; a float is its IEEE
-- bits, and float rounding and the parsing of decimal strings are a parameter (`Numbers`). A slice is a
-- list and an offset into it is what is left of it. Functions on field types recur on the type.
--
-- Bounds and fuel. The loops of decodeLogRecords and DecodeLogRecordBatchRows take the payload's length as
-- fuel, which is enough because each round takes at least one byte off; running out is a panic in the
-- model. parseFieldType takes the text's length as fuel for its calls and rounds, each of which takes a
-- byte; running out would be a panic too. The loop of ScanRows takes the number of its rounds as fuel and
-- says when it runs out; one round for each page that the server gives is enough. A varint has up to 10
-- bytes. Sizes that the code writes into 32 bits are cut to 32 bits.
--
-- Not modelled: sockets, the dial and the handshake (internal/transport), generated protobuf code and its
-- glue (internal/proto, internal/pbutil), the Arrow codec (internal/codec/arrow), the download of
-- snapshots (internal/snapshot/fetcher.go). A message is a record of its fields, and the failed type tests
-- of messages, which the transport rules out, are left out. The remote calls are parameters: `Net`
-- (metadata, table infos and log writes), `Put`, `Reads`, `SnapshotCalls`, and for the scanner and each
-- call of the admin client a function of its own; the retries of Table.Retry and Table.Upsert are over any
-- results of an attempt (`Server`, `PutServer`). The clock is left out: a timer is a flag and its callback
-- is a flush. The order in which Go walks a map is a part of the value, or a function of the parameters.
-- json.Unmarshal, the snapshot's files and database (`Store`) and the Arrow codec are parameters. The
-- loader of decode plans is a parameter of the snapshot reader; in a snapshot scan it asks the state in
-- which the reader is opened.
pub mod Admin
pub mod Bytes
pub mod Client
pub mod Format
pub mod Frame
pub mod Metadata
pub mod Prelude
pub mod Protocol
pub mod Result
pub mod Row
pub mod Rows
pub mod Scan
pub mod Snapshot
pub mod Table
pub mod Text
pub mod Transport
pub mod Writer
