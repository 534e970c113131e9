-- ===== src/Http.antt =====
-- http/src/egress: delivery to consumers, by webhook and by stream.
pub mod Circuit
pub mod Dlq
pub mod Flow
pub mod Webhook
