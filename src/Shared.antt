-- ===== src/Shared.antt =====
-- shared: the types and helpers that every crate uses.
pub mod Lsn
pub mod Event
pub mod Proto
pub mod Queue
