-- ===== src/Tests/Blocks.antt =====
-- A block of src/core/xq_encoder.c given to src/core/xq_decoder.c.
use xq.Base.{
  ◌*◌, leb, length, if◌then◌else◌, ℕ, ◌≡◌, ◌++◌, refl, sym, ap, List, [], ◌∷◌, take, false, arith,
}
use xq.Common.Checked.{range_ok_sz}
use xq.Common.Bytes.{st8, st16le, st32le, st64le}
use xq.Format.Block.{block_store, block_front, block_fields}
use xq.Status.{err_dst_too_small, ok, xq_ok}
use xq.Params.{pos, params_default}
use xq.Codec.Exec.{ret, fail}
use xq.Codec.Table.{CodecVt, codec_get}
use xq.Format.Checksum.{checksum_size}
use xq.Decoder.Input.Stream.{IsReady, ahead}
use xq.Decoder.State.{Decoder}
use xq.Decoder.Blocks.{read_block}
use xq.Decoder.RoundTrip.Encoded.{Paired}
use xq.Decoder.RoundTrip.Emitted.{read_block-emit_job}
use xq.Encoder.State.{Encoder, emitted, emit_open, emit, idx_store, idx_push}
use xq.Encoder.Jobs.{
  EncJob, compress_job, job_result, job_checksum, emit_job, emit_open_job, emit_block, count_job,
  job_header,
}
use xq.Api.Memory.{
  MemSink, MemSrc, mem_sink_write, mem_src_read, mem_src_read-Delivers, mem_sink_write-Appends,
}
use xq.Tests.Core.{left_in, copying, opened, writing, plain_header}

-- A codec for bytes that stand twice.
abbrev halving : CodecVt
halving = record copying {
  id = 2;
  compress = λ dst_cap src level d. ok (take 2 src);
  decompress = λ made_by room src expected d.
      if leb (2 * length src) room then ret (src ++ src) else fail err_dst_too_small;
}

abbrev twice : List ℕ
twice = 3 ∷ 4 ∷ 3 ∷ 4 ∷ []

abbrev encoder : Encoder MemSink
encoder = record writing {
  p = record params_default { checksum = pos 1; codec = pos 2 };
  codec = halving;
  checksum_len = 4;
  raw_offset = 8;
}

abbrev job : EncJob
job = record { raw = twice; cbuf = []; stored = false; ck = []; st = xq_ok }

-- The encoder after the block, and what it returned.
abbrev after : MemSink
after = ((emit_job mem_sink_write encoder (compress_job mem_sink_write encoder job)).1).sink_ctx

abbrev decoder : Decoder MemSrc
decoder = record opened {
  hdr = record plain_header { codec_id = 2; checksum_id = 1 };
  codec = halving;
  checksum_len = 4;
  input = record {
    src_ctx = record { src = after.dst ++ (5 ∷ []); pos = 0 };
    rbuf = [];
    rpos = 0;
    src_eof = false;
  };
}

paired :
    Paired mem_src_read left_in mem_src_read-Delivers
      (halving ∷ [])
      mem_sink_write
      encoder
      decoder
      twice
      1
      2
unfolding codec_get checksum_size
paired = record {
  same_checksum = refl;
  hdr_checksum = refl;
  ck_len = refl;
  dec_ck_len = refl;
  same_codec = refl;
  codec_fits = omega arith;
  found = refl;
  honest = λ e. cc;
  dec_codec = refl;
  inverse = λ out e.
      ap (λ l. if leb (2 * length l) 4096 then ret (l ++ l) else fail err_dst_too_small)
        (sym (same_out out e));
  has_dict = λ some_dict. absurd (some_dict refl);
  same_offset = refl;
  least = omega arith;
  most = omega arith;
  ends = omega arith;
  raw_fits = omega arith;
  stored_fits = omega arith;
}
  where
    same_out : (out : List ℕ) → ok (3 ∷ 4 ∷ []) ≡ ok out → 3 ∷ 4 ∷ [] ≡ out
    same_out out e = cc

emitted_well : (emit_job mem_sink_write encoder (compress_job mem_sink_write encoder job)).0 ≡ xq_ok
unfolding emit_job emit_open_job compress_job job_result job_checksum idx_push idx_store emit_block
    emit emit_open emitted mem_sink_write range_ok_sz block_store block_front block_fields st8
    st16le st32le st64le count_job job_header
emitted_well = refl

read_block-emit_job_example :
    (d : Decoder MemSrc) × (read_block mem_src_read (halving ∷ []) decoder ≡ ret d)
    × (d.raw ≡ twice)
    × (d.raw_pos ≡ 0)
    × (d.raw_offset
        ≡ ((emit_job mem_sink_write encoder (compress_job mem_sink_write encoder job)).1
          ).raw_offset)
    × IsReady mem_src_read left_in mem_src_read-Delivers (d.input)
    × (ahead mem_src_read left_in mem_src_read-Delivers (d.input) ≡ 5 ∷ [])
read_block-emit_job_example =
    read_block-emit_job mem_src_read left_in mem_src_read-Delivers (halving ∷ []) mem_sink_write
      (λ m. m.dst) mem_sink_write-Appends encoder decoder job 1 2 (5 ∷ []) paired emitted_well
      (record { inside = omega arith; fits = omega arith; ended = λ e. cc }) refl
