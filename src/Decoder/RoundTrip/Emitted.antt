-- ===== src/Decoder/RoundTrip/Emitted.antt =====
-- The block that src/core/xq_encoder.c emits is read back by src/core/xq_decoder.c.
use xq.Base.{
  ℕ, ◌+◌, ◌%◌, ◌^◌, ◌≡◌, refl, sym, ap, ◌∙◌, List, ◌++◌, length, take, drop, drop-append,
  append_assoc,
}
use xq.Status.{xq_ok}
use xq.Codec.Exec.{ret}
use xq.Codec.Table.{CodecVt}
use xq.Format.Block.{block_store}
use xq.Decoder.Input.{Source}
use xq.Decoder.Input.Stream.{Delivers, IsReady, ahead}
use xq.Decoder.State.{Decoder}
use xq.Decoder.Blocks.{read_block}
use xq.Decoder.RoundTrip.{read_block_front}
use xq.Decoder.RoundTrip.Encoded.{Paired, compress_job-Stored}
use xq.Encoder.State.{Sink, Encoder}
use xq.Encoder.Jobs.{EncJob, payload_of, job_header, compress_job, emit_job}
use xq.Encoder.Jobs.Written.{Appends, written, emit_job-Wrote}

behind : (l xs ys : List ℕ) → l ++ xs ≡ l ++ ys → xs ≡ ys
behind l xs ys e =
    sym (drop-append (length l) l xs refl)
    ∙ ap (drop (length l)) e
    ∙ drop-append (length l) l ys refl

module _ {S K : Type 0} (src : Source S) (rest : S → List ℕ) (h : Delivers src rest)
    (codecs : List CodecVt) (sink : Sink K) (held : K → List ℕ) (appends : Appends sink held)
    (e : Encoder K) (d : Decoder S) where
  -- Over a source and a sink that keep their promises: where a decoder stands at the end of what an
  -- encoder has emitted, and the encoder succeeds in emitting the block that it makes of a job's
  -- bytes, the decoder reads the block, has those bytes to give from the first on, is at the offset
  -- of the encoder, and stands before what is emitted next. Encoder and decoder are paired: the same
  -- checksum, of the format's length, the same offset, a codec that the block's number, a byte, finds,
  -- which is the decoder's too, whose failure is not `xq_ok`, and that undoes, with the context that it
  -- made, what it did to the bytes, with a dictionary where the encoder had one. There are 1 to 2 ^ 28 bytes, which fit the decoder's buffers and end within 64
  -- bits.
  pub read_block-emit_job :
      (j : EncJob) (k c : ℕ) (tail : List ℕ)
      → Paired src rest h codecs sink e d (j.raw) k c
      → (emit_job sink e (compress_job sink e j)).0 ≡ xq_ok
      → IsReady src rest h (d.input)
      → held (e.sink_ctx) ++ ahead src rest h (d.input)
        ≡ held (((emit_job sink e (compress_job sink e j)).1).sink_ctx) ++ tail
      → (d' : Decoder S) × (read_block src codecs d ≡ ret d')
        × (d'.raw ≡ j.raw)
        × (d'.raw_pos ≡ 0)
        × (d'.raw_offset ≡ ((emit_job sink e (compress_job sink e j)).1).raw_offset)
        × IsReady src rest h (d'.input)
        × (ahead src rest h (d'.input) ≡ tail)
  read_block-emit_job j k c tail p done ready facing =
      let j' = compress_job sink e j in
      let (well, w) = emit_job-Wrote sink held appends e j' done in
      let (raw_same, s) = compress_job-Stored src rest h codecs sink e d j k c p well in
      let next = behind (held (e.sink_ctx)) _ (written sink held appends e j' ++ tail) (
        facing
        ∙ ap (λ l. l ++ tail) (w.holds)
        ∙ append_assoc (held (e.sink_ctx)) (written sink held appends e j') tail) in
      let (d', read, raw, pos, offset, next_facing) =
        read_block_front src rest h codecs d (job_header sink e j') (payload_of j')
          (take (e.checksum_len) (j'.ck)) (j.raw) tail s
          (
            ready,
            next
                ∙ append_assoc (block_store (job_header sink e j'))
                    (payload_of j' ++ take (e.checksum_len) (j'.ck)) tail
                ∙ ap (λ l. block_store (job_header sink e j') ++ l)
                    (append_assoc (payload_of j') (take (e.checksum_len) (j'.ck)) tail),
          ) in
      (
        d',
        read,
        raw,
        pos,
        offset
            ∙ sym (
                w.offset
                ∙ ap (λ l. (e.raw_offset + length l) % 2 ^ 64) raw_same
                ∙ ap (λ n. (n + length (j.raw)) % 2 ^ 64) (p.same_offset)),
        next_facing.0,
        next_facing.1,
      )
