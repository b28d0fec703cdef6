-- ===== src/Format.antt =====
-- src/format: the fixed-size structures of the container.
pub mod Consts
pub mod Chunks
pub mod Header
pub mod Record
pub mod Block
pub mod Footer
pub mod Checksum
pub mod Index
