-- ===== src/Messages.antt =====
-- src/models/sv2/sv2-messages.ts and sv2-extended-messages.ts: the payloads of the SV2 Mining
-- Protocol. Each child defines a group of messages, and its child RoundTrip proves them.
pub mod Setup
pub mod Channel
pub mod Work
pub mod Extended
pub mod Extensions
