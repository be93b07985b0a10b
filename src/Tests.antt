-- ===== src/Tests.antt =====
-- Runs of the model at concrete inputs, and the theorems applied there.
mod Setting
mod Frames
mod Noise
mod Payloads
mod Messages
mod Prefixes
mod Targets
mod Shares
mod Fleet
mod Setup
mod Mining
mod Work
mod Sessions
mod Counts
