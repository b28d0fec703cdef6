-- ===== src/Codec/Lzb.antt =====
-- src/codec/xq_codec_lzb.c
pub mod Decode
pub mod Match
pub mod Encode
pub mod Context
pub mod Sequence
pub mod RoundTrip
