-- ===== src/Decoder/RoundTrip/Encoded.antt =====
-- The block that src/core/xq_encoder.c makes of its bytes is one that src/core/xq_decoder.c reads back.
use xq.Base.{
  ℕ, zero, suc, ◌+◌, ◌^◌, ◌%◌, ◌≤◌, ◌<◌, ◌≡◌, ◌≢◌, refl, sym, ap, ◌∙◌, inl, inr, List, [], true,
  false, length, take, some, none, Option, arith,
}
use mathlib.Core.Path.{subst}
use xq.Params.{pos}
use xq.Status.{err_unsupported_codec, ok, err, xq_ok}
use xq.Format.Checksum.{checksum_size, checksum_size-lt}
use xq.Codec.Table.{CodecVt, codec_get}
use xq.Codec.Exec.{ret, step_ret, pass_fail_if, append_bytes_ok}
use xq.Decoder.Input.{Source}
use xq.Decoder.Input.Stream.{Delivers}
use xq.Common.Bytes.{IsByte}
use xq.Common.Checked.{IsU64}
use xq.Format.Consts.{bflag_uses_dict}
use xq.Decoder.RoundTrip.{not_ne, Stored}
use xq.Decoder.State.{Decoder, codec_or}
use xq.Decoder.Blocks.{checksum_differs, block_bytes, is_null}
use xq.Encoder.State.{Sink, Encoder, low_byte}
use xq.Encoder.Jobs.{EncJob, payload_of, job_header, compress_job}
use xq.Decoder.RoundTrip.Checks.{job_checksum_cases, job_result_shape}

-- The dictionary object that the decoder hands to the codec for a block of this encoder.
abbrev pub dict_for : Option (List ℕ) → Option (List ℕ) → Option (List ℕ)
dict_for none ddict = none
dict_for (some d) ddict = ddict

abbrev dict_flag : Option (List ℕ) → ℕ
dict_flag cdict = elim cdict [ none ↦ 0 | some d ↦ bflag_uses_dict ]

dict_flag_even : (cdict : Option (List ℕ)) → IsByte (dict_flag cdict) × (dict_flag cdict % 2 ≡ 0)
dict_flag_even none = (omega arith, refl)
dict_flag_even (some d) = (omega arith, refl)

decompressed :
    (codecs : List CodecVt) (codec : CodecVt) (cdict ddict : Option (List ℕ))
    (room c size n off : ℕ) (out raw : List ℕ)
    → codec_get codecs c ≡ some codec
    → (cdict ≢ none → is_null ddict ≡ false)
    → codec.decompress (codec.id) room out n (dict_for cdict ddict) ≡ ret raw
    → block_bytes codecs
        (codec.id)
        ddict
        room
        (record {
          bflags = dict_flag cdict;
          codec_id = c;
          stored_size = size;
          raw_size = n;
          raw_offset = off;
        })
        out
      ≡ ret raw
unfolding block_bytes
decompressed codecs codec none ddict room c size n off out raw found has back =
    step_ret _ (ap (codec_or err_unsupported_codec) found) back
decompressed codecs codec (some x) none room c size n off out raw found has back =
    let bad = has (λ q. cc) in cc
decompressed codecs codec (some x) (some y) room c size n off out raw found has back =
    step_ret _ (ap (codec_or err_unsupported_codec) found) back

-- A checksum as long as the bytes behind each block.
taken_whole :
    (n : ℕ) (ck : List ℕ) {same : Type 0}
    → (n ≢ 0 → (length (take n ck) ≡ n) × same)
    → length (take n ck) ≡ n
taken_whole zero ck checked = refl
taken_whole (suc n) ck checked = (checked (λ z. absurd (omega (arith, z)))).0

module _ {S K : Type 0} (src : Source S) (rest : S → List ℕ) (h : Delivers src rest)
    (codecs : List CodecVt) (sink : Sink K) (e : Encoder K) (d : Decoder S) where
  -- The decoder reads what the encoder writes, and stands before the block of the bytes `raw`, which
  -- fit its buffers. The codec, found by the number in the block header, is that of the file header,
  -- and undoes what it did with the context that it made.
  pub record Paired (raw : List ℕ) (k c : ℕ) : Type 0 where
    pub same_checksum : (e.p).checksum ≡ pos k
    pub hdr_checksum : (d.hdr).checksum_id ≡ k
    pub ck_len : e.checksum_len ≡ checksum_size k
    pub dec_ck_len : d.checksum_len ≡ e.checksum_len
    pub same_codec : (e.p).codec ≡ pos c
    pub codec_fits : IsByte c
    pub dec_codec : d.codec ≡ e.codec
    pub found : codec_get codecs c ≡ some (e.codec)
    pub honest : (e.codec).compress (e.cbuf_cap) raw ((e.p).level) (e.cdict) ≢ err xq_ok
    pub inverse :
        (out : List ℕ)
        → (e.codec).compress (e.cbuf_cap) raw ((e.p).level) (e.cdict) ≡ ok out
        → (e.codec).decompress
            ((e.codec).id)
            (d.raw_cap)
            out
            (length raw)
            (dict_for (e.cdict) (d.ddict))
          ≡ ret raw
    pub has_dict : e.cdict ≢ none → is_null (d.ddict) ≡ false
    pub same_offset : e.raw_offset ≡ d.raw_offset
    pub least : 1 ≤ length raw
    pub most : length raw ≤ 268_435_456
    pub ends : IsU64 (e.raw_offset + length raw)
    pub raw_fits : length raw ≤ d.raw_cap
    pub stored_fits : length raw ≤ d.cbuf_cap

  -- A block that is stored as it is.
  as_it_is :
      (raw ck : List ℕ) (k c : ℕ)
      → Paired raw k c
      → (e.checksum_len ≢ 0
          → (length (take (e.checksum_len) ck) ≡ e.checksum_len)
            × (checksum_differs k (take (e.checksum_len) ck) raw ≡ false))
      → Stored src rest h codecs d
          (job_header sink e (record { raw = raw; cbuf = []; stored = true; ck = ck; st = xq_ok }))
          raw
          (take (e.checksum_len) ck)
          raw
  unfolding job_header block_bytes
  as_it_is raw ck k c p checked = record {
    valid = record {
      bflags = omega arith;
      codec_id = omega arith;
      raw_least = omega (arith, p.least, p.most);
      raw_most = omega (arith, p.most);
      stored_most = omega (arith, p.most);
      stored_raw = λ odd. refl;
      raw_offset = omega (arith, p.ends);
      raw_end = omega (arith, p.ends, p.most);
    };
    stored_sized = omega (arith, p.most);
    ck_sized = taken_whole (e.checksum_len) ck checked ∙ sym (p.dec_ck_len);
    ck_fits = omega (arith, p.dec_ck_len, p.ck_len, checksum_size-lt k);
    ck_same = λ some_len. rw (p.hdr_checksum) (checked (λ z. some_len (p.dec_ck_len ∙ z))).1;
    in_turn = p.same_offset;
    raw_fits = omega (arith, p.most, p.raw_fits);
    stored_fits = omega (arith, p.most, p.stored_fits);
    decoded =
        pass_fail_if _ _ (not_ne (length raw % 2 ^ 32) (length raw % 2 ^ 32) refl)
          (append_bytes_ok (d.raw_cap) [] raw (omega (arith, p.raw_fits)));
    out_sized = omega (arith, p.most);
  }

  -- A block that the codec made smaller.
  made_smaller :
      (raw out ck : List ℕ) (k c : ℕ)
      → Paired raw k c
      → (e.codec).compress (e.cbuf_cap) raw ((e.p).level) (e.cdict) ≡ ok out
      → length out < length raw
      → (e.checksum_len ≢ 0
          → (length (take (e.checksum_len) ck) ≡ e.checksum_len)
            × (checksum_differs k (take (e.checksum_len) ck) out ≡ false))
      → Stored src rest h codecs d
          (job_header sink e
            (record { raw = raw; cbuf = out; stored = false; ck = ck; st = xq_ok }))
          out
          (take (e.checksum_len) ck)
          raw
  unfolding job_header
  made_smaller raw out ck k c p made smaller checked = record {
    valid = record {
      bflags = (dict_flag_even (e.cdict)).0;
      codec_id = rw (p.same_codec) (omega (arith, p.codec_fits));
      raw_least = omega (arith, p.least, p.most);
      raw_most = omega (arith, p.most);
      stored_most = omega (arith, p.most, smaller);
      stored_raw = λ odd. absurd (omega (arith, odd, (dict_flag_even (e.cdict)).1));
      raw_offset = omega (arith, p.ends);
      raw_end = omega (arith, p.ends, p.most);
    };
    stored_sized = omega (arith, p.most, smaller);
    ck_sized = taken_whole (e.checksum_len) ck checked ∙ sym (p.dec_ck_len);
    ck_fits = omega (arith, p.dec_ck_len, p.ck_len, checksum_size-lt k);
    ck_same = λ some_len. rw (p.hdr_checksum) (checked (λ z. some_len (p.dec_ck_len ∙ z))).1;
    in_turn = p.same_offset;
    raw_fits = omega (arith, p.most, p.raw_fits);
    stored_fits = omega (arith, p.most, p.stored_fits, smaller);
    decoded =
        ap
          (λ c.
            block_bytes codecs (c.id) (d.ddict) (d.raw_cap)
              (job_header sink e
                (record { raw = raw; cbuf = out; stored = false; ck = ck; st = xq_ok }))
              out)
          (p.dec_codec)
        ∙ decompressed codecs (e.codec) (e.cdict) (d.ddict) (d.raw_cap) (low_byte ((e.p).codec))
            (length out % 2 ^ 32) (length raw % 2 ^ 32) (e.raw_offset) out raw
            (ap (codec_get codecs) (ap low_byte (p.same_codec) ∙ whole_byte) ∙ p.found) (p.has_dict)
            (ap
                (λ n.
                  (e.codec).decompress ((e.codec).id) (d.raw_cap) out n
                    (dict_for (e.cdict) (d.ddict)))
                whole_raw
              ∙ p.inverse out made);
    out_sized = omega (arith, p.most);
  }
    where
      whole_byte : c % 256 ≡ c
      whole_byte = omega (arith, p.codec_fits)

      whole_raw : length raw % 2 ^ 32 ≡ length raw
      whole_raw = omega (arith, p.most)

  -- The job of a block and its stored bytes, as the decoder wants them.
  pub compress_job-Stored :
      (j : EncJob) (k c : ℕ)
      → Paired (j.raw) k c
      → (compress_job sink e j).st ≡ xq_ok
      → ((compress_job sink e j).raw ≡ j.raw)
        × Stored src rest h codecs d
            (job_header sink e (compress_job sink e j))
            (payload_of (compress_job sink e j))
            (take (e.checksum_len) ((compress_job sink e j).ck))
            (j.raw)
  unfolding compress_job
  compress_job-Stored j k c p done = elim (job_result_shape sink e _ j (p.honest) done) [
    | inl same ↦
        let (ck, (e', checked)) =
          job_checksum_cases sink e k (record j { stored = true; cbuf = []; st = xq_ok })
            (p.same_checksum) (p.ck_len) in
        subst Wanted (sym (same ∙ e')) (refl, as_it_is (j.raw) ck k c p checked)
    | inr (out, made, smaller, same) ↦
        let (ck, (e', checked)) =
          job_checksum_cases sink e k (record j { stored = false; cbuf = out; st = xq_ok })
            (p.same_checksum) (p.ck_len) in
        subst Wanted (sym (same ∙ e'))
          (refl, made_smaller (j.raw) out ck k c p made smaller checked)
  ]
    where
      Wanted : EncJob → Type 0
      Wanted j' =
          (j'.raw ≡ j.raw)
          × Stored src rest h codecs d (job_header sink e j') (payload_of j')
              (take (e.checksum_len) (j'.ck)) (j.raw)
