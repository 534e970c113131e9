-- ===== src/Core/Pipeline.antt =====
-- core/src/pipeline: from the ring buffer to batches for the storage.
pub mod Ingestion
pub mod FilterExpr
pub mod Batch
pub mod Flush
pub mod Coordinator
