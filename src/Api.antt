-- ===== src/Api.antt =====
-- src/core/xq_api.c: the calls that compress and decompress in memory.
pub mod Memory
pub mod Bound
