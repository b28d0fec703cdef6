-- ===== src/Decoder/State.antt =====
-- src/core/xq_decoder.c: the decoder and its file header. Every allocation succeeds. `raw` holds the
-- `raw_len` bytes of the block; the context of `codec` has no field,
-- since it is named by the number of the codec that made it.
use xq.Base.{
  ℕ, zero, suc, ◌-◌, List, [], Option, none, some, Bool, false, ltb, ◌!=◌, ◌&&◌, if◌then◌else◌,
}
use xq.Status.{Status, xq_ok, err_memlimit, err_unsupported_codec}
use xq.Params.{Params, params_default}
use xq.Common.Bytes.{shl}
use xq.Common.Xxh64.{Xxh64State, xxh64_init, xxh64_final}
use xq.Format.Consts.{file_header_size, block_size_max}
use xq.Format.Header.{FileHeader, header_parse}
use xq.Format.Checksum.{checksum_size, checksum_none}
use xq.Codec.Exec.{Exec, ret, fail, ◌>>=◌, ◌>>◌, fail_if}
use xq.Codec.Table.{CodecVt, codec_get}
use xq.Decoder.Input.{Source, Input, run, need, consume}

-- `xq_decoder`, from its creation on
pub record Decoder (S : Type 0) : Type 0 where
  pub input : Input S
  pub p : Params
  pub hdr : FileHeader
  pub codec : CodecVt
  pub ddict : Option (List ℕ)
  pub checksum_len : ℕ
  pub raw : List ℕ
  pub raw_cap : ℕ
  pub raw_pos : ℕ
  pub cbuf_cap : ℕ
  pub raw_offset : ℕ
  pub stream_ck : Xxh64State
  pub saw_eob : Bool
  pub sticky : Status

-- A pointer that `xq_codec_get` returned, which is tested for null.
abbrev pub codec_or : Status → Option CodecVt → Exec CodecVt
codec_or st none = fail st
codec_or st (some c) = ret c

-- The size of the blocks that the header announces.
unfoldable pub announced_size : FileHeader → ℕ
announced_size hdr =
    if hdr.block_size_log != 0 then shl 32 1 (hdr.block_size_log) else block_size_max

module _ {S : Type 0} (src : Source S) (codecs : List CodecVt) where
  -- The bytes of a header that is longer than this version's.
  unfoldable pub skip_extra : Input S → ℕ → Exec (Input S)
  skip_extra d zero = ret d
  skip_extra d (suc extra) = do
    (skipped, d') ← need src d (suc extra)
    ret (consume src d' (suc extra))

  -- `read_file_header`, with the fields that `xq_decoder_create` sets before it. `memory` is what the
  -- buffer of the stream checksum holds.
  unfoldable pub read_file_header : List ℕ → Params → Input S → Exec (Decoder S)
  read_file_header memory p d = do
    (bytes, d1) ← need src d file_header_size
    hdr ← run (header_parse (some bytes) file_header_size)
    let d2 = consume src d1 file_header_size
    d3 ← skip_extra d2 (hdr.header_size - file_header_size)
    c ← codec_or err_unsupported_codec (codec_get codecs (hdr.codec_id))
    let bs = announced_size hdr
    fail_if ((p.mem_limit != 0) && ltb (p.mem_limit) bs) err_memlimit
    fail_if (ltb block_size_max bs) err_memlimit
    ret (record {
      input = d3;
      p = p;
      hdr = hdr;
      codec = c;
      ddict = none;
      checksum_len = checksum_size (hdr.checksum_id);
      raw = [];
      raw_cap = bs;
      raw_pos = 0;
      cbuf_cap = c.bound bs;
      raw_offset = 0;
      stream_ck = xxh64_init memory 0;
      saw_eob = false;
      sticky = xq_ok;
    })

  -- `xq_decoder_create`
  unfoldable pub decoder_create : List ℕ → Option Params → S → Exec (Decoder S)
  decoder_create memory none s =
      read_file_header memory params_default
        (record { src_ctx = s; rbuf = []; rpos = 0; src_eof = false })
  decoder_create memory (some p) s =
      read_file_header memory p (record { src_ctx = s; rbuf = []; rpos = 0; src_eof = false })

-- `xq_decoder_raw_size`
unfoldable pub decoder_raw_size : {S : Type 0} → Option (Decoder S) → ℕ
decoder_raw_size none = 0
decoder_raw_size (some d) = (d.hdr).raw_size

-- `xq_decoder_stream_checksum`
unfoldable pub decoder_stream_checksum : {S : Type 0} → Option (Decoder S) → ℕ
decoder_stream_checksum none = 0
decoder_stream_checksum (some d) = xxh64_final (d.stream_ck)

-- `xq_decoder_has_checksums`
unfoldable pub decoder_has_checksums : {S : Type 0} → Option (Decoder S) → Bool
decoder_has_checksums none = false
decoder_has_checksums (some d) = (d.hdr).checksum_id != checksum_none
