-- ===== src/Format/Block/Check.antt =====
-- Which block headers `xq_fmt_block_parse` accepts.
use xq.Base.{◌+◌, ◌/◌, ◌%◌, ◌≤◌, ◌≡◌, arith}
use xq.Base.Bits.{bit_and-one}
use xq.Common.Checked.{IsU64, add_u64_ok}
use xq.Common.Bytes.{IsByte, IsU32}
use xq.Status.{ok}
use xq.Format.Block.{BlockHeader, block_check}

-- What fits the fields of the structure.
pub record BlockFits (b : BlockHeader) : Type 0 where
  pub bflags : IsByte b.bflags
  pub codec_id : IsByte b.codec_id
  pub stored_size : IsU32 b.stored_size
  pub raw_size : IsU32 b.raw_size
  pub raw_offset : IsU64 b.raw_offset

-- 1 to 2 ^ 28 raw bytes that end within 64 bits, stored in little more, and in just as many where
-- the block is stored as it is.
pub record IsValidBlock (b : BlockHeader) : Type 0 where
  pub bflags : IsByte b.bflags
  pub codec_id : IsByte b.codec_id
  pub raw_least : 1 ≤ b.raw_size
  pub raw_most : b.raw_size ≤ 268_435_456
  pub stored_most : b.stored_size ≤ b.raw_size + b.raw_size / 8 + 1024
  pub stored_raw : b.bflags % 2 ≡ 1 → b.stored_size ≡ b.raw_size
  pub raw_offset : IsU64 b.raw_offset
  pub raw_end : IsU64 (b.raw_offset + b.raw_size)

module _ (b : BlockHeader) where
  pub block_check_accepts : IsValidBlock b → block_check b ≡ ok b
  unfolding block_check add_u64_ok
  block_check_accepts v = ground (arith, bit_and-one b.bflags)

  pub block_check_only :
      BlockFits b → {k : BlockHeader} → block_check b ≡ ok k → (k ≡ b) × IsValidBlock b
  unfolding block_check add_u64_ok
  block_check_only fits e = ground (arith, bit_and-one b.bflags)
