-- ===== src/Pgsql.antt =====
-- services/pgsql: the replication stream's decoding, its acknowledgement, and schema changes.
pub mod Decoding
pub mod Stream
pub mod Ack
pub mod DdlBuffer
pub mod Client
pub mod Ddl
pub mod Slots
pub mod Schema
pub mod Snapshot
