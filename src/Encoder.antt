-- ===== src/Encoder.antt =====
-- src/core/xq_encoder.c: the encoder, on one thread.
pub mod State
pub mod Jobs
pub mod Records
pub mod Create
pub mod Threads
