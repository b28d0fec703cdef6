-- ===== src/Format/Footer.antt =====
-- src/format/xq_format.c: the footer.
pub mod RoundTrip
use xq.Base.{
  ℕ, List, ◌++◌, Option, none, some, ◌&&◌, ltb, ◌==◌, ◌!=◌, take, drop, ◌≡◌, ◌≢◌, ◌≤◌, ◌+◌,
}
use xq.Common.Bytes.{ld32le, ld64le, st32le, st64le}
use xq.Common.Checked.{IsU64}
use xq.Common.Crc32c.{crc32c}
use xq.Status.{Result, ok, err, ◌>>=◌, ◌>>◌, fail_if, err_param, err_truncated, err_corrupt_footer}
use xq.Format.Consts.{
  footer_size, footer_magic, record_header_size, index_preamble_size, file_header_size,
}

-- `xq_footer`
pub record Footer : Type 0 where
  pub index_offset : ℕ
  pub index_size : ℕ
  pub stream_checksum : ℕ

-- Bytes 4 to 31, which the checksum covers.
unfoldable pub footer_back : Footer → List ℕ
footer_back f =
    st64le f.index_offset
    ++ (st64le f.index_size ++ (st64le f.stream_checksum ++ st32le footer_magic))

-- `xq_fmt_footer_store`: the 32 bytes that it writes
unfoldable pub footer_store : Footer → List ℕ
footer_store f = st32le (crc32c (footer_back f)) ++ footer_back f

-- The loads of `xq_fmt_footer_parse`.
unfoldable pub footer_load : List ℕ → Footer
footer_load buf = record {
  index_offset = ld64le (drop 4 buf);
  index_size = ld64le (drop 12 buf);
  stream_checksum = ld64le (drop 20 buf);
}

-- The tests of `xq_fmt_footer_parse` on the loaded fields.
unfoldable pub footer_check : Footer → Result Footer
footer_check f = do
  fail_if ((f.index_offset == 0) && (f.index_size != 0)) err_corrupt_footer
  fail_if ((f.index_offset != 0) && ltb f.index_size (record_header_size + index_preamble_size))
      err_corrupt_footer
  fail_if ((f.index_offset != 0) && ltb f.index_offset file_header_size) err_corrupt_footer
  ok f

-- `xq_fmt_footer_parse`
unfoldable pub footer_parse : Option (List ℕ) → ℕ → Result Footer
footer_parse none len = err err_param
footer_parse (some buf) len = do
  fail_if (ltb len footer_size) err_truncated
  fail_if (ld32le (drop 28 buf) != footer_magic) err_corrupt_footer
  fail_if (ld32le buf != crc32c (take 28 (drop 4 buf))) err_corrupt_footer
  footer_check (footer_load buf)

-- An index record that lies behind the file header and can hold its preamble, or none.
pub record IsValidFooter (f : Footer) : Type 0 where
  pub absent : f.index_offset ≡ 0 → f.index_size ≡ 0
  pub size_least : f.index_offset ≢ 0 → 38 ≤ f.index_size
  pub offset_least : f.index_offset ≢ 0 → 32 ≤ f.index_offset
  pub index_offset : IsU64 f.index_offset
  pub index_size : IsU64 f.index_size
  pub stream_checksum : IsU64 f.stream_checksum
