-- ===== src/Encoder/Records.antt =====
-- src/core/xq_encoder.c: the dictionary record, and what `xq_encoder_finish` puts behind the blocks.
pub mod Headers
use xq.Base.{
  ℕ, zero, suc, ◌+◌, ◌-◌, ◌*◌, ◌^◌, ◌%◌, min, List, [], ◌∷◌, ◌++◌, Option, none, some, Bool, true,
  false, ltb, ◌==◌, ◌!=◌, if◌then◌else◌, length, take, drop,
}
use xq.Status.{Status, Result, ok, err, xq_ok, err_dst_too_small, err_internal}
use xq.Params.{ℤ, pos, negsuc, Params}
use xq.Common.Bytes.{st8, st32le, st64le}
use xq.Common.Crc32c.{crc32c, crc32c_update}
use xq.Common.Xxh64.{xxh64_final}
use xq.Format.Consts.{file_header_size, record_header_size}
use xq.Format.Record.{RecordHeader, record_front, record_store}
use xq.Format.Index.{
  IndexEntry, IndexPreamble, index_entry_store, index_preamble_store, index_payload_size,
}
use xq.Format.Index.Payload.{index_entries_store}
use xq.Format.Footer.{Footer, footer_store}
use xq.Format.Checksum.{checksum_none}
use xq.Codec.Table.{CodecVt}
use xq.Dict.{Dict, dict_payload_size, dict_payload_store}
use xq.Decoder.Records.{rec_dict, rec_end_of_blocks, rec_index, rflag_critical, codec_stored}
use xq.Encoder.State.{Sink, Encoder, Outcome, on_ok, low_byte, stuck, emit, idx_push}
use xq.Encoder.Jobs.{is_pos, or_stuck, flush_block}

-- The codec id and the stored bytes of a dictionary, from what the codec returns.
unfoldable pub dict_choice : ℕ → List ℕ → Result (List ℕ) → Result (ℕ × List ℕ)
dict_choice codec bytes (ok out) =
    if ltb (length out) (length bytes) then ok (codec, out) else ok (codec_stored, bytes)
dict_choice codec bytes (err err_dst_too_small) = ok (codec_stored, bytes)
dict_choice codec bytes (err st) = err st

-- The record header of a dictionary, its checksum taken over the pieces of the record.
unfoldable pub dict_record_header : List ℕ → List ℕ → List ℕ
dict_record_header head stored =
    let payload_len = dict_payload_size (length stored) in
    let rh = st8 rec_dict ++ (st8 rflag_critical ++ st64le payload_len) in
    rh ++ st32le (crc32c_update (crc32c_update (crc32c rh) head) stored)

-- `CHUNK` of `xq_encoder_finish`
abbrev pub chunk_entries : ℕ
chunk_entries = 256

-- The checksum over the entries of the index, a chunk at a time. A loop over the entries has their
-- number as its fuel.
unfoldable pub chunks_crc : ℕ → ℕ → List IndexEntry → ℕ
chunks_crc fuel crc [] = crc
chunks_crc zero crc (e ∷ es) = crc
chunks_crc (suc fuel) crc (e ∷ es) =
    chunks_crc fuel (crc32c_update crc (index_entries_store (take chunk_entries (e ∷ es))))
      (drop chunk_entries (e ∷ es))

-- The record header of the index, its checksum taken over the pieces of the record.
unfoldable pub index_record_header : ℕ → List ℕ → List IndexEntry → List ℕ
index_record_header payload pre idx =
    let ihdr = st8 rec_index ++ (st8 0 ++ st64le payload) in
    ihdr ++ st32le (chunks_crc (length idx) (crc32c_update (crc32c ihdr) pre) idx)

-- The end-of-blocks record.
abbrev eob_record : List ℕ
eob_record =
    record_store (record { tag = rec_end_of_blocks; rflags = rflag_critical; size = 0; crc32c = 0 })
      []

module _ {K : Type 0} (sink : Sink K) where
  -- What `write_dict_record` emits.
  unfoldable pub emit_dict_record : Encoder K → Dict → Result (ℕ × List ℕ) → Outcome K
  emit_dict_record e d (err st) = (st, e)
  emit_dict_record e d (ok (codec, stored)) =
      let head = dict_payload_store d codec (length stored) in
      on_ok (emit sink e (dict_record_header head stored))
        (λ e1. on_ok (emit sink e1 head) (λ e2. emit sink e2 stored))

  -- `write_dict_record`
  unfoldable pub write_dict_record : Encoder K → Dict → Outcome K
  write_dict_record e d =
      let out =
        (e.codec).compress ((e.codec).bound (length (d.bytes))) (d.bytes) ((e.p).level) none in
      emit_dict_record e d (dict_choice (low_byte ((e.p).codec)) (d.bytes) out)

  -- The emission of the entries of the index, a chunk at a time.
  unfoldable pub emit_chunks : ℕ → List IndexEntry → Encoder K → Outcome K
  emit_chunks fuel [] e = (xq_ok, e)
  emit_chunks zero (i ∷ is) e = (xq_ok, e)
  emit_chunks (suc fuel) (i ∷ is) e =
      on_ok (emit sink e (index_entries_store (take chunk_entries (i ∷ is))))
        (λ e'. emit_chunks fuel (drop chunk_entries (i ∷ is)) e')

  -- The footer, and the end of `xq_encoder_finish`.
  unfoldable pub emit_footer : ℕ → ℕ → Encoder K → Outcome K
  emit_footer index_offset index_size e =
      let f : Footer = record {
        index_offset = index_offset;
        index_size = index_size;
        stream_checksum =
            if is_pos ((e.p).checksum) checksum_none then 0 else xxh64_final (e.stream_ck);
      } in
      on_ok (emit sink e (footer_store f)) (λ e'. (xq_ok, record e' { finished = true }))

  -- The index of `nblocks > 0` blocks at `index_offset`, and the footer.
  unfoldable pub emit_index : ℕ → Encoder K → Outcome K
  emit_index nblocks e =
      let index_offset = e.file_offset in
      let payload = index_payload_size nblocks in
      let pre = index_preamble_store (record {
        block_count = nblocks;
        total_raw = e.raw_offset;
        total_stored = (index_offset + 2 ^ 64 - file_header_size) % 2 ^ 64;
      }) in
      if payload == 0
      then stuck err_internal e
      else on_ok (emit sink e (index_record_header payload pre (e.idx))) (λ e1.
        on_ok (emit sink e1 pre) (λ e2.
          on_ok (emit_chunks (length (e.idx)) (e.idx) e2)
            (λ e3. emit_footer index_offset ((record_header_size + payload) % 2 ^ 64) e3)))

  -- `xq_encoder_finish` behind the end-of-blocks record's index entry.
  unfoldable pub finish_index : Encoder K → Outcome K
  finish_index e =
      let nblocks = length (e.idx) - 1 in
      if nblocks == 0 then emit_footer 0 0 e else emit_index nblocks e

  -- `xq_encoder_finish` behind the flush of the last block.
  unfoldable pub finish_blocks : Encoder K → Outcome K
  finish_blocks e =
      let index_offset = e.file_offset in
      on_ok (emit sink e eob_record)
        (λ e1. or_stuck (idx_push sink e1 index_offset (e1.raw_offset)) finish_index)

  -- `xq_encoder_finish` behind its test of `sticky`
  unfoldable pub finish_open : Status → Encoder K → Outcome K
  finish_open xq_ok e = if e.finished then (xq_ok, e) else on_ok (flush_block sink e) finish_blocks
  finish_open st e = (st, e)

  -- `xq_encoder_finish` without threads
  unfoldable pub encoder_finish : Encoder K → Outcome K
  encoder_finish e = finish_open (e.sticky) e
