-- ===== src/Tests.antt =====
-- Runs of the models on small inputs, and each theorem applied to one.
pub mod Common
pub mod Format
pub mod Codec
pub mod Params
pub mod Core
pub mod Blocks
