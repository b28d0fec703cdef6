-- ===== src/Format/Header.antt =====
-- src/format/xq_format.c: the file header. A null `buf` is `none`; the parsed header is returned
-- instead of going through `out`, so the test for a null `out` has no counterpart.
pub mod Check
pub mod RoundTrip
use xq.Base.{
  ℕ, ◌+◌, ◌-◌, ◌*◌, ◌/◌, ◌%◌, ◌^◌, ◌≤◌, ◌<◌, ◌≡◌, refl, List, [], ◌∷◌, ◌++◌, Option, none, some,
  Bool, not, ◌&&◌, ◌||◌, ltb, ◌==◌, ◌!=◌, if◌then◌else◌, take, drop, bit_and,
}
use xq.Common.Bytes.{ld8, ld16le, ld32le, ld64le, st8, st16le, st32le, st64le, shl}
use xq.Common.Crc32c.{crc32c, complement32}
use xq.Status.{
  Status, Result, ok, err, ◌>>=◌, ◌>>◌, fail_if, err_param, err_truncated, err_bad_magic,
  err_corrupt_header, err_unsupported_version, err_unsupported_feature,
}
use xq.Format.Consts.{
  file_header_size, xq_magic, mem_eq, format_major_version, checksum_max, block_size_min,
  block_size_max, flag_known_mask, flag_uniform_blocks,
}

-- `xq_file_header`
pub record FileHeader : Type 0 where
  pub format_major : ℕ
  pub format_minor : ℕ
  pub header_size : ℕ
  pub flags : ℕ
  pub codec_id : ℕ
  pub level : ℕ
  pub checksum_id : ℕ
  pub block_size_log : ℕ
  pub raw_size : ℕ

-- The fields behind the magic, in the order of their offsets.
unfoldable pub header_fields : FileHeader → List ℕ
header_fields h =
    st8 h.format_major
    ++ (st8 h.format_minor
        ++ (st16le h.header_size
            ++ (st32le h.flags
                ++ (st8 h.codec_id
                    ++ (st8 h.level
                        ++ (st8 h.checksum_id ++ (st8 h.block_size_log ++ st64le h.raw_size)))))))

-- The first 28 bytes, which the checksum covers.
unfoldable pub header_front : FileHeader → List ℕ
header_front h = xq_magic ++ header_fields h

-- `xq_fmt_header_store`: the 32 bytes that it writes
unfoldable pub header_store : FileHeader → List ℕ
header_store h = header_front h ++ st32le (crc32c (header_front h))

-- The loads of `xq_fmt_header_parse`.
unfoldable pub header_load : List ℕ → FileHeader
header_load buf = record {
  format_major = ld8 (drop 8 buf);
  format_minor = ld8 (drop 9 buf);
  header_size = ld16le (drop 10 buf);
  flags = ld32le (drop 12 buf);
  codec_id = ld8 (drop 16 buf);
  level = ld8 (drop 17 buf);
  checksum_id = ld8 (drop 18 buf);
  block_size_log = ld8 (drop 19 buf);
  raw_size = ld64le (drop 20 buf);
}

-- The tests of `xq_fmt_header_parse` on the loaded fields.
unfoldable pub header_check : FileHeader → Result FileHeader
header_check h = do
  fail_if (h.format_major != format_major_version) err_unsupported_version
  fail_if (ltb h.header_size file_header_size) err_corrupt_header
  fail_if (ltb 4096 h.header_size) err_corrupt_header
  fail_if (ltb checksum_max h.checksum_id) err_unsupported_feature
  fail_if ((h.block_size_log != 0) && (ltb h.block_size_log 12 || ltb 28 h.block_size_log))
      err_corrupt_header
  fail_if
      ((h.block_size_log != 0)
        && (ltb (shl 32 1 h.block_size_log) block_size_min
            || ltb block_size_max (shl 32 1 h.block_size_log)))
      err_corrupt_header
  fail_if (bit_and h.flags (complement32 flag_known_mask) != 0) err_unsupported_feature
  fail_if ((bit_and h.flags flag_uniform_blocks != 0) && (h.block_size_log == 0)) err_corrupt_header
  ok h

-- `xq_fmt_header_parse`
unfoldable pub header_parse : Option (List ℕ) → ℕ → Result FileHeader
header_parse none len = err err_param
header_parse (some buf) len = do
  fail_if (ltb len file_header_size) err_truncated
  fail_if (not (mem_eq (take 8 buf) xq_magic)) err_bad_magic
  fail_if (ld32le (drop 28 buf) != crc32c (take 28 buf)) err_corrupt_header
  header_check (header_load buf)
