-- ===== src/Core/Delivery.antt =====
-- The pipeline, the tenant store, offsets and compactions together, for consumers: what becomes of an
-- event from `try_push` to `read_from`.
pub mod Flushed
pub mod Compacted
mod Tests
