-- ===== src/Encoder/Jobs.antt =====
-- src/core/xq_encoder.c: a block, from its raw bytes to what is emitted.
pub mod Pieces
pub mod Kept
pub mod Written
use xq.Base.{
  ℕ, zero, suc, ◌+◌, ◌-◌, ◌^◌, ◌%◌, min, List, [], ◌∷◌, ◌++◌, Option, none, some, Bool, true, false,
  ltb, leb, ◌==◌, ◌!=◌, ◌&&◌, if◌then◌else◌, length, take, drop, bit_or,
}
use xq.Status.{Status, Result, ok, err, xq_ok, err_dst_too_small, err_param}
use xq.Params.{ℤ, pos, negsuc, Params}
use xq.Common.Bytes.{st32le, st64le}
use xq.Common.Crc32c.{crc32c}
use xq.Common.Xxh64.{xxh64, xxh64_update}
use xq.Format.Consts.{bflag_stored, bflag_uses_dict}
use xq.Format.Block.{BlockHeader, block_store}
use xq.Format.Checksum.{checksum_none, checksum_crc32c}
use xq.Codec.Exec.{Exec, ret, fail, fault, out_of_fuel}
use xq.Codec.Table.{CodecVt}
use xq.Decoder.Records.{codec_stored}
use xq.Encoder.State.{Sink, Encoder, Outcome, on_ok, low_byte, stuck, emit, idx_push}

-- `xq_enc_job`; `cbuf` is the `cbuf_len` bytes in it, and the state of a slot belongs to the threads.
pub record EncJob : Type 0 where
  pub raw : List ℕ
  pub cbuf : List ℕ
  pub stored : Bool
  pub ck : List ℕ
  pub st : Status

-- `p == k` on an enumeration
abbrev pub is_pos : ℤ → ℕ → Bool
is_pos (pos n) k = n == k
is_pos (negsuc n) k = false

-- The bytes of a job that are emitted.
abbrev pub payload_of : EncJob → List ℕ
payload_of j = if j.stored then j.raw else j.cbuf

-- `st = idx_push(...); if (st != XQ_OK) return (e->sticky = st);`
abbrev pub or_stuck : {K : Type 0} → Outcome K → (Encoder K → Outcome K) → Outcome K
or_stuck (xq_ok, e) next = next e
or_stuck (st, e) next = stuck st e

-- A failure ends the loop of `xq_encoder_write`.
abbrev pub while_ok : {K : Type 0} → Outcome K → (Encoder K → Exec (Outcome K)) → Exec (Outcome K)
while_ok (xq_ok, e) next = next e
while_ok (st, e) next = ret (st, e)

module _ {K : Type 0} (sink : Sink K) where
  -- `job_checksum`
  unfoldable pub job_checksum : Encoder K → EncJob → EncJob
  job_checksum e j =
      if e.checksum_len == 0
      then j
      else (if is_pos ((e.p).checksum) checksum_crc32c
          then record j { ck = st32le (crc32c (payload_of j)) }
          else record j { ck = st64le (xxh64 (payload_of j) 0) })

  -- `compress_job` with what the codec returns
  unfoldable pub job_result : Encoder K → EncJob → Result (List ℕ) → EncJob
  job_result e j (ok out) =
      if leb (length (j.raw)) (length out)
      then job_checksum e (record j { stored = true; cbuf = []; st = xq_ok })
      else job_checksum e (record j { stored = false; cbuf = out; st = xq_ok })
  job_result e j (err err_dst_too_small) =
      job_checksum e (record j { stored = true; cbuf = []; st = xq_ok })
  job_result e j (err st) = record j { st = st }

  -- `compress_job`
  unfoldable pub compress_job : Encoder K → EncJob → EncJob
  compress_job e j =
      job_result e j ((e.codec).compress (e.cbuf_cap) (j.raw) ((e.p).level) (e.cdict))

  -- The header of a job's block.
  unfoldable pub job_header : Encoder K → EncJob → BlockHeader
  job_header e j = record {
    bflags =
        if j.stored then bflag_stored else elim (e.cdict) [ none ↦ 0 | some d ↦ bflag_uses_dict ];
    codec_id = if j.stored then codec_stored else low_byte ((e.p).codec);
    stored_size = length (payload_of j) % 2 ^ 32;
    raw_size = length (j.raw) % 2 ^ 32;
    raw_offset = e.raw_offset;
  }

  -- `if (e->checksum_len)` of `emit_job`
  abbrev emit_checksum : Encoder K → List ℕ → Outcome K
  emit_checksum e ck =
      if e.checksum_len == 0 then (xq_ok, e) else emit sink e (take (e.checksum_len) ck)

  -- The end of `emit_job`.
  unfoldable pub count_job : EncJob → Encoder K → Outcome K
  count_job j e =
      let ck' =
        if is_pos ((e.p).checksum) checksum_none
        then e.stream_ck
        else xxh64_update (e.stream_ck) (j.raw) in
      (xq_ok, record e { stream_ck = ck'; raw_offset = (e.raw_offset + length (j.raw)) % 2 ^ 64 })

  -- What `emit_job` emits behind the index entry.
  unfoldable pub emit_block : EncJob → Encoder K → Outcome K
  emit_block j e = on_ok (emit sink e (block_store (job_header e j))) (λ e1.
      on_ok (emit sink e1 (payload_of j))
        (λ e2. on_ok (emit_checksum e2 (j.ck)) (λ e3. count_job j e3)))

  -- `emit_job` behind its two tests
  unfoldable pub emit_open_job : Status → Status → Encoder K → EncJob → Outcome K
  emit_open_job xq_ok xq_ok e j =
      or_stuck (idx_push sink e (e.file_offset) (e.raw_offset)) (emit_block j)
  emit_open_job xq_ok st e j = stuck st e
  emit_open_job sticky st e j = (sticky, e)

  -- `emit_job`
  unfoldable pub emit_job : Encoder K → EncJob → Outcome K
  emit_job e j = emit_open_job (e.sticky) (j.st) e j

  -- `e->raw_len = 0; return st;`
  abbrev emptied : Outcome K → Outcome K
  emptied (st, e) = (st, record e { raw = [] })

  -- `flush_block` behind its test of `raw_len`
  unfoldable pub flush_open : Status → Encoder K → Outcome K
  flush_open xq_ok e =
      let j : EncJob = record { raw = e.raw; cbuf = []; stored = false; ck = []; st = xq_ok } in
      emptied (emit_job e (compress_job e j))
  flush_open st e = (st, e)

  -- `flush_block` without threads
  unfoldable pub flush_block : Encoder K → Outcome K
  flush_block e = if length (e.raw) == 0 then (xq_ok, e) else flush_open (e.sticky) e

  -- `if (e->raw_len == e->block_size)` of `xq_encoder_write`
  unfoldable pub flush_full : Encoder K → Outcome K
  flush_full e = if length (e.raw) == e.block_size then flush_block e else (xq_ok, e)

  -- The copy to `e->raw + e->raw_len`.
  unfoldable pub append_raw : Encoder K → List ℕ → Encoder K
  append_raw e bytes = record e { raw = e.raw ++ bytes }

  -- The `while (len)` of `xq_encoder_write`. A block that is longer than its size would be overrun.
  unfoldable pub write_loop : ℕ → Encoder K → List ℕ → Exec (Outcome K)
  write_loop fuel e [] = ret (xq_ok, e)
  write_loop zero e (b ∷ p) = out_of_fuel
  write_loop (suc fuel) e (b ∷ p) =
      let taken = min (length (b ∷ p)) (e.block_size - length (e.raw)) in
      while_ok (flush_full (append_raw e (take taken (b ∷ p))))
        (λ e'. write_loop fuel e' (drop taken (b ∷ p)))

  -- `xq_encoder_write` behind its test of `sticky`
  unfoldable pub write_open : Status → Encoder K → List ℕ → Exec (Outcome K)
  write_open xq_ok e buf = if e.finished then ret (err_param, e) else write_loop (length buf) e buf
  write_open st e buf = ret (st, e)

  -- `xq_encoder_write`, of a pointer that is not null
  unfoldable pub encoder_write : Encoder K → List ℕ → Exec (Outcome K)
  encoder_write e buf = write_open (e.sticky) e buf
