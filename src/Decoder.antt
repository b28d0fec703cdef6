-- ===== src/Decoder.antt =====
-- src/core/xq_decoder.c: the decoder.
pub mod Input
pub mod State
pub mod Records
pub mod Blocks
pub mod Safety
pub mod RoundTrip
