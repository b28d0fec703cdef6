-- ===== src/Codec.antt =====
-- src/codec: the codecs.
pub mod Exec
pub mod Varint
pub mod Stored
pub mod Lzb
pub mod Table
