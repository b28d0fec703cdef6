-- ===== src/Common.antt =====
-- src/common: checked arithmetic, little-endian bytes and the checksums.
pub mod Checked
pub mod Bytes
pub mod Crc32c
pub mod Xxh64
