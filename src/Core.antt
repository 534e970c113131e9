-- ===== src/Core.antt =====
-- core: the streaming engine.
pub mod Pipeline
pub mod Memory
pub mod Offset
pub mod Storage
pub mod Delivery
pub mod Backpressure
