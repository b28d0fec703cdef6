-- ===== src/Encoder/State.antt =====
-- src/core/xq_encoder.c: the encoder on one thread and what it emits. Every allocation succeeds; `raw`
-- holds the `raw_len` bytes of the block; the codec contexts are scratch memory and have no field.
use xq.Base.{
  ℕ, ◌+◌, ◌-◌, ◌*◌, ◌/◌, ◌^◌, ◌%◌, List, [], ◌∷◌, ◌++◌, Option, none, some, Bool, true, ltb, ◌==◌,
  ◌!=◌, if◌then◌else◌, length, bit_or,
}
use xq.Status.{Status, Result, ok, err, xq_ok, err_oom}
use xq.Params.{ℤ, pos, negsuc, Params}
use xq.Common.Checked.{uint64_max}
use xq.Common.Xxh64.{Xxh64State}
use xq.Format.Consts.{
  format_major_version, file_header_size, flag_index_expected, flag_dict_present,
  flag_uniform_blocks, flag_stream_written,
}
use xq.Format.Header.{FileHeader, header_store}
use xq.Format.Index.{IndexEntry}
use xq.Codec.Table.{CodecVt}
use xq.Dict.{Dict}

-- `xq_sink_fn`: the sink after it has taken all the bytes, or a status other than `XQ_OK`.
abbrev pub Sink : Type 0 → Type 0
Sink K = K → List ℕ → Result K

-- `xq_encoder`. `dict` is set where `have_dict` is.
pub record Encoder (K : Type 0) : Type 0 where
  pub sink_ctx : K
  pub p : Params
  pub codec : CodecVt
  pub dict : Option Dict
  pub cdict : Option (List ℕ)
  pub block_size : ℕ
  pub block_size_log : ℕ
  pub checksum_len : ℕ
  pub raw : List ℕ
  pub cbuf_cap : ℕ
  pub raw_offset : ℕ
  pub file_offset : ℕ
  pub idx : List IndexEntry
  pub idx_cap : ℕ
  pub stream_ck : Xxh64State
  pub header_written : Bool
  pub finished : Bool
  pub sticky : Status

-- The status that a call returns, and the encoder after it.
abbrev pub Outcome : Type 0 → Type 0
Outcome K = Status × Encoder K

-- `if (st != XQ_OK) return st;`, and on with the encoder.
abbrev pub on_ok : {K : Type 0} → Outcome K → (Encoder K → Outcome K) → Outcome K
on_ok (xq_ok, e) next = next e
on_ok (st, e) next = (st, e)

-- `(uint8_t)v`
abbrev pub low_byte : ℤ → ℕ
low_byte (pos n) = n % 256
low_byte (negsuc n) = 255 - n % 256

-- `XQ_SIZE_UNKNOWN`
abbrev pub size_unknown : ℕ
size_unknown = uint64_max

-- `return (e->sticky = st);`
unfoldable pub stuck : {K : Type 0} → Status → Encoder K → Outcome K
stuck st e = (st, record e { sticky = st })

-- The capacity that `idx_push` grows to.
abbrev pub grown_cap : ℕ → ℕ
grown_cap idx_cap = if idx_cap != 0 then idx_cap * 2 % 2 ^ 64 else 1024

module _ {K : Type 0} (sink : Sink K) where
  -- `emit` with the sink's answer
  unfoldable pub emitted : Encoder K → ℕ → Result K → Outcome K
  emitted e len (ok k) =
      (xq_ok, record e { sink_ctx = k; file_offset = (e.file_offset + len) % 2 ^ 64 })
  emitted e len (err st) = stuck st e

  -- `emit` behind its test of `sticky`
  unfoldable pub emit_open : Status → Encoder K → List ℕ → Outcome K
  emit_open xq_ok e buf = emitted e (length buf) (sink (e.sink_ctx) buf)
  emit_open st e buf = (st, e)

  -- `emit`
  unfoldable pub emit : Encoder K → List ℕ → Outcome K
  emit e buf = emit_open (e.sticky) e buf

  -- The flags of the file header.
  unfoldable pub header_flags : Encoder K → ℕ → ℕ
  header_flags e raw_size_hint =
      let first = bit_or flag_index_expected flag_uniform_blocks in
      let second =
        if raw_size_hint == size_unknown then bit_or first flag_stream_written else first in
      elim (e.dict) [ none ↦ second | some d ↦ bit_or second flag_dict_present ]

  -- `write_file_header`
  unfoldable pub write_file_header : Encoder K → ℕ → Outcome K
  write_file_header e raw_size_hint =
      let h : FileHeader = record {
        format_major = format_major_version;
        format_minor = 0;
        header_size = file_header_size;
        flags = header_flags e raw_size_hint;
        codec_id = low_byte ((e.p).codec);
        level = low_byte ((e.p).level);
        checksum_id = low_byte ((e.p).checksum);
        block_size_log = e.block_size_log;
        raw_size = raw_size_hint;
      } in
      emit (record e { header_written = true }) (header_store h)

  -- The store of an entry in `idx_push`.
  unfoldable pub idx_store : Encoder K → ℕ → ℕ → Outcome K
  idx_store e file_off raw_off = (
    xq_ok,
    record e { idx = e.idx ++ (record { file_offset = file_off; raw_offset = raw_off } ∷ []) },
  )

  -- `idx_push`
  unfoldable pub idx_push : Encoder K → ℕ → ℕ → Outcome K
  idx_push e file_off raw_off =
      if length (e.idx) == e.idx_cap
      then (if ltb (uint64_max / 16) (grown_cap (e.idx_cap))
          then (err_oom, e)
          else idx_store (record e { idx_cap = grown_cap (e.idx_cap) }) file_off raw_off)
      else idx_store e file_off raw_off
