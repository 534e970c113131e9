-- ===== src/Lib.antt =====
-- Nendi: change data capture for PostgreSQL, in Rust.
--
-- PostgreSQL's logical replication stream is decoded into change events. A producer pushes them into
-- a bounded ring buffer; the pipeline's coordinator drains it into batches and hands a batch over when
-- the flush policy says so. Batches are stored under keys that sort by LSN. Consumers read from the
-- LSN behind the one that they last committed, and what all of them have committed is discarded by a
-- filter that runs in RocksDB's compactions. Events go out by gRPC streams with flow control or by
-- webhooks behind a circuit breaker, and those that cannot be delivered go to a dead letter queue.
--
-- Files and the code that they model (all paths from the repository's root):
--
-- Common             no code of the repository: tests on numbers, lists, words, UTF-8, maps as
--                    association lists, readers of bytes whose errors and panics are values, calls
--                    of a server, exclusive or, and natural numbers as `f64`
-- Shared/Lsn         shared/src/lsn/types.rs
-- Shared/Event       shared/src/event/types.rs and envelope.rs
-- Shared/Proto       shared/src/serialize/proto.rs
-- Shared/Queue       shared/src/queue/ring.rs
-- Core/Pipeline      core/src/pipeline: Batch (batch.rs), Flush (flush.rs), Coordinator
--                    (coordinator.rs), Ingestion and FilterExpr (ingestion.rs)
-- Core/Offset        core/src/offset/registry.rs and manager.rs
-- Core/Storage       core/src/storage: Keys and Store (rocks/tenant.rs), Gc (gc/scheduler.rs,
--                    gc/watermark.rs, rocks/compaction.rs), Filter (rocks/filter.rs), Wal
--                    (wal/batch.rs)
-- Core/Delivery      no code of its own: the pipeline, the store, offsets and compactions together
-- Core/Memory        core/src/memory/budget.rs
-- Core/Backpressure  core/src/backpressure: Gate (gate.rs), Throttle (throttle.rs)
-- Pgsql/Decoding     services/pgsql/src/decoding/pgoutput.rs; Wire is PostgreSQL's side of the
--                    protocol, from its documentation
-- Pgsql/Stream       services/pgsql/src/replication/stream.rs
-- Pgsql/Ack          services/pgsql/src/replication/ack.rs
-- Pgsql/DdlBuffer    services/pgsql/src/schema/buffer.rs
-- Pgsql/Client       services/pgsql/src/connector/client.rs
-- Pgsql/Slots        services/pgsql/src/replication/slot.rs, slot/manager.rs and slot/policy.rs
-- Pgsql/Ddl          services/pgsql/src/trigger/ddl/parser.rs and handler.rs
-- Pgsql/Snapshot     services/pgsql/src/snapshot/builder.rs and exporter.rs
-- Pgsql/Schema       services/pgsql/src/schema/registry.rs and fingerprint.rs
-- Http/Circuit       http/src/egress/webhook/circuit.rs
-- Http/Dlq           http/src/egress/webhook/dlq.rs
-- Http/Webhook       http/src/egress/webhook/dispatcher.rs
-- Http/Flow          http/src/egress/grpc/backpressure.rs, grpc/replay.rs, webhook/batcher.rs
--
-- How the code is written here:
--
-- - A method on `&mut self` takes the state as its last argument and returns the new one, beside its
--   result if it has one. Types and functions have the source's names; a name that antt reserves or
--   that another definition has is a near one (`opened` for the state `Open`, `unsubscribe` for
--   `OffsetRegistry::remove`, `forget` for `WatermarkTracker::remove`).
-- - Unsigned integers are natural numbers, and what wraps at 32 or 64 bits says so. An `i64` is its
--   64-bit pattern. Texts are their UTF-8 bytes, and `from_utf8` is a decision on bytes.
-- - Clocks are arguments, in microseconds. Logging is left out.
-- - A `DashMap` or `HashMap` is an association list; no code relies on the order of its entries.
-- - What several threads share is a step relation over single accesses, where a call makes more than
--   one (`OffsetRegistry::commit`, `CreditThrottle::try_consume`, the calls of `BackpressureGate`).
--   The queue's own operations are atomic.
-- - Code from elsewhere is a parameter: crossbeam's `ArrayQueue` is a record of its operations and
--   their documented laws, with lists as one instance; a column family of RocksDB is a record of
--   the same kind, with sorted lists as one instance; the directory of the write-ahead log is a
--   record of `std::fs` calls and their laws, with files in memory as one instance; a PostgreSQL
--   server behind tokio-postgres is a record of queries, with prepared answers as one instance, and
--   what its documentation says of replication slots is a record of laws; an HTTP server behind
--   reqwest answers a request or does not; the sizes of `ChangeEvent` and `DlqEntry` in
--   memory and the hash of the decoder's `compute_fingerprint` are numbers and a function; `to_uppercase` is a function.
-- - Setting memory aside by a number that a caller gives (`with_capacity`) panics where the bytes
--   overflow an `isize`; that memory runs out, which ends the process, is left out.
-- - The threshold of the lag policy is an `f64`, and so is the comparison with it: both sides are whole
--   numbers of parts of 2 ^ 53, rounded to 53 digits. Numbers below 2 ^ 181 are, by at most 128
--   doublings of the unit; the product of a `u64` and the threshold is below 2 ^ 118.
-- - Loops over a list or a count are structural. `drain_ring` loops until the ring is empty, on fuel:
--   one more than the ring's length, which is enough as nothing is pushed meanwhile. A number's
--   hexadecimal digits are at most eight for a `u32`, and sixteen for a `u64`.
--
-- Not modelled: the fallback decoder, which answers nothing; the installation of event triggers; HTTP
-- and gRPC transport, the tokio runtime, metrics, configuration and RocksDB's options, which call
-- libraries and compute little; what else is computed in floating point (token bucket, backoff, fill
-- ratio, the memory budget's threshold).
pub mod Common
pub mod Shared
pub mod Core
pub mod Pgsql
pub mod Http
