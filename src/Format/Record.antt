-- ===== src/Format/Record.antt =====
-- src/format/xq_format.c: the header of a metadata record and the checksum over its payload.
pub mod RoundTrip
use xq.Base.{
  ℕ, zero, suc, ◌^◌, List, ◌++◌, [], Option, none, some, ◌&&◌, ltb, ◌==◌, ◌!=◌, if◌then◌else◌, take,
  drop,
}
use xq.Common.Bytes.{ld8, ld32le, ld64le, st8, st32le, st64le}
use xq.Common.Crc32c.{crc32c, crc32c_update}
use xq.Status.{
  Status, Result, ok, err, ◌>>=◌, ◌>>◌, fail_if, xq_ok, err_param, err_truncated,
  err_corrupt_record,
}
use xq.Format.Consts.{record_header_size}

-- `xq_record_header`
pub record RecordHeader : Type 0 where
  pub tag : ℕ
  pub rflags : ℕ
  pub size : ℕ
  pub crc32c : ℕ

-- The first 10 bytes.
unfoldable pub record_front : RecordHeader → List ℕ
record_front r = st8 r.tag ++ (st8 r.rflags ++ st64le r.size)

-- The checksum of the first 10 bytes, followed by the payload where there is one.
unfoldable pub record_crc : List ℕ → ℕ → List ℕ → ℕ
record_crc front size payload =
    if size != 0 then crc32c_update (crc32c front) (take size payload) else crc32c front

-- `xq_fmt_record_store`: the 14 bytes that it writes. The field `crc32c` is not read.
unfoldable pub record_store : RecordHeader → List ℕ → List ℕ
record_store r payload = record_front r ++ st32le (record_crc (record_front r) r.size payload)

-- `xq_fmt_record_parse`
unfoldable pub record_parse : Option (List ℕ) → ℕ → Result RecordHeader
record_parse none len = err err_param
record_parse (some buf) len = do
  fail_if (ltb len record_header_size) err_truncated
  let size = ld64le (drop 2 buf)
  fail_if (ltb (2 ^ 40) size) err_corrupt_record
  ok (record {
    tag = ld8 buf;
    rflags = ld8 (drop 1 buf);
    size = size;
    crc32c = ld32le (drop 10 buf);
  })

-- `xq_fmt_record_verify` behind its tests for null
unfoldable pub verify : List ℕ → List ℕ → ℕ → Status
verify hdr payload payload_len =
    if ld64le (drop 2 hdr) != payload_len
    then err_corrupt_record
    else (if record_crc (take 10 hdr) payload_len payload == ld32le (drop 10 hdr)
        then xq_ok
        else err_corrupt_record)

-- `xq_fmt_record_verify`. A null payload is read nowhere: it needs `payload_len` 0.
unfoldable pub record_verify : Option (List ℕ) → Option (List ℕ) → ℕ → Status
record_verify none payload payload_len = err_param
record_verify (some hdr) none (suc n) = err_param
record_verify (some hdr) none zero = verify hdr [] 0
record_verify (some hdr) (some payload) payload_len = verify hdr payload payload_len
