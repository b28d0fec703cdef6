-- ===== src/Format/Block.antt =====
-- src/format/xq_format.c: the block header.
pub mod Check
pub mod RoundTrip
use xq.Base.{
  ℕ, ◌+◌, ◌/◌, ◌%◌, ◌^◌, List, ◌++◌, Option, none, some, Bool, true, false, ◌&&◌, ltb, ◌==◌, ◌!=◌,
  take, drop, bit_and,
}
use xq.Common.Bytes.{ld8, ld16le, ld32le, ld64le, st8, st16le, st32le, st64le}
use xq.Common.Checked.{add_u64_ok}
use xq.Common.Crc32c.{crc32c}
use xq.Status.{
  Status, Result, ok, err, ◌>>=◌, ◌>>◌, fail_if, err_param, err_truncated, err_corrupt_block,
}
use xq.Format.Consts.{block_header_size, block_magic, bflag_stored, block_size_max}

-- `xq_block_header`
pub record BlockHeader : Type 0 where
  pub bflags : ℕ
  pub codec_id : ℕ
  pub stored_size : ℕ
  pub raw_size : ℕ
  pub raw_offset : ℕ

-- The fields behind the magic, in the order of their offsets.
unfoldable pub block_fields : BlockHeader → List ℕ
block_fields b =
    st8 b.bflags
    ++ (st8 b.codec_id ++ (st32le b.stored_size ++ (st32le b.raw_size ++ st64le b.raw_offset)))

-- The first 20 bytes, which the checksum covers.
unfoldable pub block_front : BlockHeader → List ℕ
block_front b = st16le block_magic ++ block_fields b

-- `xq_fmt_block_store`: the 24 bytes that it writes
unfoldable pub block_store : BlockHeader → List ℕ
block_store b = block_front b ++ st32le (crc32c (block_front b))

-- The loads of `xq_fmt_block_parse`.
unfoldable pub block_load : List ℕ → BlockHeader
block_load buf = record {
  bflags = ld8 (drop 2 buf);
  codec_id = ld8 (drop 3 buf);
  stored_size = ld32le (drop 4 buf);
  raw_size = ld32le (drop 8 buf);
  raw_offset = ld64le (drop 12 buf);
}

abbrev fails : Option ℕ → Bool
fails none = true
fails (some end) = false

-- The tests of `xq_fmt_block_parse` on the loaded fields.
unfoldable pub block_check : BlockHeader → Result BlockHeader
block_check b = do
  fail_if ((bit_and b.bflags bflag_stored != 0) && (b.stored_size != b.raw_size)) err_corrupt_block
  fail_if (b.raw_size == 0) err_corrupt_block
  fail_if (ltb block_size_max b.raw_size) err_corrupt_block
  fail_if (ltb ((b.raw_size + b.raw_size / 8 + 1024) % 2 ^ 32) b.stored_size) err_corrupt_block
  fail_if (fails (add_u64_ok b.raw_offset b.raw_size)) err_corrupt_block
  ok b

-- `xq_fmt_block_parse`
unfoldable pub block_parse : Option (List ℕ) → ℕ → Result BlockHeader
block_parse none len = err err_param
block_parse (some buf) len = do
  fail_if (ltb len block_header_size) err_truncated
  fail_if (ld16le buf != block_magic) err_corrupt_block
  fail_if (ld32le (drop 20 buf) != crc32c (take 20 buf)) err_corrupt_block
  block_check (block_load buf)
