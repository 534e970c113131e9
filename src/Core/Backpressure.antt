-- ===== src/Core/Backpressure.antt =====
-- core/src/backpressure: what slows the pipeline and the consumer streams down.
pub mod Gate
pub mod Throttle
mod Tests
