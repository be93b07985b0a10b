-- ===== src/Codec.antt =====
-- src/models/sv2/sv2-binary-codec.ts: BufferReader and BufferWriter.
-- Their methods are in the children Read and Write; the other children prove them.
pub mod Read
pub mod Write
pub mod Reading
pub mod Writing
pub mod Codes
pub mod RoundTrip
