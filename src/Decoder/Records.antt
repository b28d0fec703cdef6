-- ===== src/Decoder/Records.antt =====
-- src/core/xq_decoder.c: the metadata records between the blocks.
use xq.Base.{
  ℕ, ◌+◌, List, Option, none, some, Bool, true, false, ltb, ◌==◌, ◌!=◌, ◌&&◌, not, if◌then◌else◌,
  drop, length, bit_and,
}
use xq.Status.{
  Status, xq_ok, err_corrupt_record, err_memlimit, err_oom, err_unsupported_codec,
  err_unsupported_feature,
}
use xq.Params.{Params, dict_size_max}
use xq.Common.Xxh64.{xxh64}
use xq.Dict.{DictInfo, dict_payload_header, dict_payload_parse}
use xq.Format.Consts.{record_header_size}
use xq.Format.Record.{RecordHeader, record_parse, record_verify}
use xq.Codec.Exec.{Exec, ret, fail, ◌>>=◌, ◌>>◌, fail_if, read_bytes}
use xq.Codec.Table.{CodecVt, codec_get, codec_has_dict}
use xq.Decoder.Input.{Source, run, consume, read_exact, skip_loop}
use xq.Decoder.State.{Decoder, codec_or}

abbrev pub rec_dict : ℕ
rec_dict = 0x01

abbrev pub rec_user_meta : ℕ
rec_user_meta = 0x02

abbrev pub rec_end_of_blocks : ℕ
rec_end_of_blocks = 0x10

abbrev pub rec_index : ℕ
rec_index = 0x11

abbrev pub rflag_critical : ℕ
rflag_critical = 1

abbrev pub codec_stored : ℕ
codec_stored = 0

-- `if (st != XQ_OK) return st;`
abbrev pub check : Status → Exec (Unit {0})
check xq_ok = ret tt
check st = fail st

-- `if (limit && size > limit) return XQ_ERR_MEMLIMIT;`
abbrev pub over_limit : Params → ℕ → Bool
over_limit p size = (p.mem_limit != 0) && ltb (p.mem_limit) size

-- `d->codec->ddict_new(raw, raw_size)`, tested for null
abbrev pub ddict_or : Option (List ℕ) → Exec (List ℕ)
ddict_or none = fail err_oom
ddict_or (some dict) = ret dict

-- The bytes of a dictionary that the record stores as they are, or compressed for the context that the
-- codec `made_by` of the file header made.
unfoldable pub dict_bytes : List CodecVt → ℕ → DictInfo → List ℕ → Exec (List ℕ)
dict_bytes codecs made_by info stored =
    if info.stored_codec == codec_stored
    then (do
      fail_if (info.stored_size != info.raw_size) err_corrupt_record
      read_bytes stored 0 (info.raw_size))
    else (do
      c ← codec_or err_unsupported_codec (codec_get codecs (info.stored_codec))
      packed ← read_bytes stored 0 (info.stored_size)
      raw ← c.decompress made_by (info.raw_size) packed (info.raw_size) none
      fail_if (length raw != info.raw_size) err_corrupt_record
      ret raw)

abbrev pub is_some : Option (List ℕ) → Bool
is_some none = false
is_some (some dict) = true

module _ {S : Type 0} (src : Source S) (codecs : List CodecVt) where
  -- `read_dict_record` from the allocation of the payload on.
  unfoldable pub read_payload : Decoder S → List ℕ → RecordHeader → Exec (Decoder S)
  read_payload d rhdr r = do
    (payload, input') ← read_exact src (d.input) (r.size)
    check (record_verify (some rhdr) (some payload) (r.size))
    info ← run (dict_payload_parse (some payload) (r.size))
    fail_if (over_limit (d.p) (info.raw_size)) err_memlimit
    raw ← dict_bytes codecs ((d.codec).id) info (drop dict_payload_header payload)
    fail_if (xxh64 raw 0 != info.xxh64) err_corrupt_record
    fail_if (not (codec_has_dict (some (d.codec)))) err_unsupported_feature
    dict ← ddict_or ((d.codec).ddict_new raw)
    ret (record d { input = input'; ddict = some dict })

  -- `read_dict_record`
  unfoldable pub read_dict_record : Decoder S → List ℕ → RecordHeader → Exec (Decoder S)
  read_dict_record d rhdr r = do
    fail_if (is_some (d.ddict)) err_corrupt_record
    fail_if (ltb (r.size) dict_payload_header) err_corrupt_record
    fail_if (ltb (dict_size_max + dict_payload_header) (r.size)) err_corrupt_record
    fail_if (over_limit (d.p) (r.size)) err_memlimit
    read_payload d rhdr r

  -- The branch of `handle_record` on the end of the blocks.
  unfoldable pub end_of_blocks : Decoder S → List ℕ → RecordHeader → Exec (Decoder S)
  end_of_blocks d hdrbytes r = do
    fail_if (r.size != 0) err_corrupt_record
    check (record_verify (some hdrbytes) none 0)
    ret (record d { saw_eob = true })

  -- The branch of `handle_record` on a record that it skips.
  unfoldable pub skip_record : Decoder S → RecordHeader → Exec (Decoder S)
  skip_record d r = do
    fail_if
        ((r.tag != rec_user_meta)
          && (r.tag != rec_index)
          && (bit_and (r.rflags) rflag_critical != 0))
        err_unsupported_feature
    input' ← skip_loop src (r.size) (d.input) (r.size)
    ret (record d { input = input' })

  -- The choice of `handle_record` by the tag.
  unfoldable pub by_tag : Decoder S → List ℕ → RecordHeader → Exec (Decoder S)
  by_tag d hdrbytes r =
      if r.tag == rec_end_of_blocks
      then end_of_blocks d hdrbytes r
      else (if r.tag == rec_dict then read_dict_record d hdrbytes r else skip_record d r)

  -- `handle_record`
  unfoldable pub handle_record : Decoder S → List ℕ → Exec (Decoder S)
  handle_record d hdrbytes = do
    r ← run (record_parse (some hdrbytes) record_header_size)
    let d' = record d { input = consume src (d.input) record_header_size }
    by_tag d' hdrbytes r
