-- ===== src/Core/Storage.antt =====
-- core/src/storage: the tenant store, its keys, filters and garbage collection.
pub mod Store
pub mod Keys
pub mod Gc
pub mod Filter
pub mod Wal
mod Tests
