-- ===== src/Encoder/Create.antt =====
-- src/core/xq_encoder.c: the creation of an encoder that runs on one thread, and its accessors. The
-- branch that starts threads is not part of it.
use xq.Base.{
  ℕ, zero, suc, ◌+◌, ◌%◌, ◌^◌, List, [], Option, none, some, Bool, false, not, ◌!=◌, if◌then◌else◌,
  length,
}
use xq.Status.{
  Status, Result, ok, err, xq_ok, ◌>>=◌, ◌>>◌, fail_if, err_oom, err_unsupported_codec,
  err_unsupported_feature,
}
use xq.Params.{Params, params_default, block_size_default, params_check}
use xq.Common.Bytes.{shl}
use xq.Common.Xxh64.{xxh64_init}
use xq.Format.Checksum.{checksum_size}
use xq.Codec.Table.{CodecVt, codec_get, codec_has_dict}
use xq.Dict.{Dict}
use xq.Encoder.State.{Sink, Encoder, Outcome, on_ok, low_byte, write_file_header}
use xq.Encoder.Records.{write_dict_record}

-- `while ((1u << log) != bs) log++`. The shift is of 32 bits, so 32 rounds see every power of two.
unfoldable pub log_loop : ℕ → ℕ → ℕ → ℕ
log_loop zero bs log = log
log_loop (suc fuel) bs log =
    let later = log_loop fuel bs (log + 1) in if shl 32 1 log != bs then later else log

-- The status of a check that has to be `XQ_OK`.
abbrev require : Status → Result (Unit {0})
require xq_ok = ok tt
require st = err st

abbrev codec_found : Option CodecVt → Result CodecVt
codec_found none = err err_unsupported_codec
codec_found (some c) = ok c

abbrev cdict_built : Option (List ℕ) → Result (List ℕ)
cdict_built none = err err_oom
cdict_built (some cdict) = ok cdict

module _ {K : Type 0} (sink : Sink K) where
  -- `if (dict && dict->len)`
  unfoldable pub attach_dict : Encoder K → Dict → Result (Encoder K)
  attach_dict e d = do
    fail_if (not (codec_has_dict (some (e.codec)))) err_unsupported_feature
    cdict ← cdict_built ((e.codec).cdict_new (d.bytes) ((e.p).level) (e.block_size))
    ok (record e { dict = some d; cdict = some cdict })

  unfoldable pub with_dict : Encoder K → Option Dict → Result (Encoder K)
  with_dict e none = ok e
  with_dict e (some d) = if length (d.bytes) != 0 then attach_dict e d else ok e

  -- The dictionary record behind the file header, where there is a dictionary.
  unfoldable pub write_dict : Encoder K → Outcome K
  write_dict e = elim (e.dict) [ none ↦ (xq_ok, e) | some d ↦ write_dict_record sink e d ]

  -- A failure frees the encoder.
  abbrev created : Outcome K → Result (Encoder K)
  created (xq_ok, e) = ok e
  created (st, e) = err st

  -- `xq_encoder_create` with parameters that are not null. `memory` is what the buffer of the stream
  -- checksum holds.
  unfoldable pub create_with :
      Bool → List CodecVt → List ℕ → K → Params → ℕ → Option Dict → Result (Encoder K)
  create_with with_zstd codecs memory k p raw_size_hint dict = do
    require (params_check with_zstd (some p))
    let bs = if p.block_size != 0 then p.block_size else block_size_default
    c ← codec_found (codec_get codecs (low_byte (p.codec)))
    let e0 : Encoder K = record {
      sink_ctx = k;
      p = p;
      codec = c;
      dict = none;
      cdict = none;
      block_size = bs;
      block_size_log = log_loop 32 bs 0;
      checksum_len = checksum_size (low_byte (p.checksum));
      raw = [];
      cbuf_cap = c.bound bs;
      raw_offset = 0;
      file_offset = 0;
      idx = [];
      idx_cap = 0;
      stream_ck = xxh64_init memory 0;
      header_written = false;
      finished = false;
      sticky = xq_ok;
    }
    e ← with_dict e0 dict
    created (on_ok (write_file_header sink e raw_size_hint) write_dict)

  -- `xq_encoder_create`
  unfoldable pub encoder_create :
      Bool → List CodecVt → List ℕ → K → Option Params → ℕ → Option Dict → Result (Encoder K)
  encoder_create with_zstd codecs memory k none raw_size_hint dict =
      create_with with_zstd codecs memory k params_default raw_size_hint dict
  encoder_create with_zstd codecs memory k (some p) raw_size_hint dict =
      create_with with_zstd codecs memory k p raw_size_hint dict

-- `xq_encoder_raw_written`
unfoldable pub encoder_raw_written : {K : Type 0} → Option (Encoder K) → ℕ
encoder_raw_written none = 0
encoder_raw_written (some e) = (e.raw_offset + length (e.raw)) % 2 ^ 64

-- `xq_encoder_file_offset`
unfoldable pub encoder_file_offset : {K : Type 0} → Option (Encoder K) → ℕ
encoder_file_offset none = 0
encoder_file_offset (some e) = e.file_offset
