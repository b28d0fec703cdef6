-- ===== src/Decoder/RoundTrip.antt =====
-- A stored block is read back by src/core/xq_decoder.c.
pub mod Checks
pub mod Encoded
pub mod Emitted
use xq.Base.{
  ℕ, suc, ◌+◌, ◌^◌, ◌%◌, ◌≤◌, ◌≡◌, ◌≢◌, refl, sym, ap, ◌∙◌, inl, inr, List, [], ◌∷◌, ◌++◌, true,
  false, not_ltb, ◌!=◌, length, length-append, take, drop, take-append, drop-append,
  take-append-drop, arith,
}
use xq.Codec.Exec.{ret, step_ret, pass_fail_if, takes_ok}
use xq.Codec.Table.{CodecVt}
use xq.Format.Block.{BlockHeader, block_store, block_front, block_fields}
use xq.Common.Bytes.{st8, st16le, st32le, st64le}
use xq.Format.Block.Check.{IsValidBlock}
use xq.Format.Block.RoundTrip.{block_parse-block_store}
use xq.Decoder.Input.{rbuf_size, run, Source, Input, need, consume, read_exact}
use xq.Decoder.Input.Stream.{Delivers, ahead, IsReady, need-ahead, read_exact-ahead}
use xq.Decoder.Input.Safety.{consume-ahead}
use xq.Decoder.State.{Decoder}
use xq.Decoder.Blocks.{checksum_differs, block_bytes, check_block, read_block, stream_update}

pub not_ne : (a b : ℕ) → a ≡ b → (a != b) ≡ false
not_ne a b e = ground arith

module _ {S : Type 0} (src : Source S) (rest : S → List ℕ) (h : Delivers src rest)
    (codecs : List CodecVt) where
  -- An input that is ready, with the bytes `l` ahead.
  abbrev pub Facing : List ℕ → Input S → Type 0
  Facing l d = IsReady src rest h d × (ahead src rest h d ≡ l)

  read_exact_front :
      (d : Input S) (xs ys : List ℕ)
      → Facing (xs ++ ys) d
      → (d' : Input S) × (read_exact src d (length xs) ≡ ret (xs, d')) × Facing ys d'
  read_exact_front d xs ys (k, facing) = elim (read_exact-ahead src rest h d (length xs) k) [
    | inl (d', e, k', after, long) ↦ (
      d',
      e ∙ ap (λ l. ret (l, d')) (ap (take (length xs)) facing ∙ take-append (length xs) xs ys refl),
      (k', after ∙ ap (drop (length xs)) facing ∙ drop-append (length xs) xs ys refl),
    )
    | inr (e, short) ↦ absurd (omega (arith, short, ap length facing, length-append xs ys))
  ]

  -- The bytes that `need` shows start with those of the stream, which can be consumed.
  need_front :
      (d : Input S) (xs ys : List ℕ)
      → length xs ≤ rbuf_size
      → Facing (xs ++ ys) d
      → (p : List ℕ) × (d' : Input S) × (need src d (length xs) ≡ ret (xs ++ p, d'))
        × Facing ys (consume src d' (length xs))
  need_front d xs ys small (k, facing) = elim (need-ahead src rest h d (length xs) k small) [
    | inl (p, d', e, k', same, front, there) ↦
        let (k'', passed) = consume-ahead src rest h d' (length xs) k' there in
        (
          drop (length xs) p,
          d',
          e
              ∙ ap (λ l. ret (l, d'))
                  (sym (take-append-drop (length xs) p)
                    ∙ ap (λ l. l ++ drop (length xs) p)
                        (front
                          ∙ ap (take (length xs)) facing
                          ∙ take-append (length xs) xs ys refl)),
          (
            k'',
            passed ∙ ap (drop (length xs)) (same ∙ facing) ∙ drop-append (length xs) xs ys refl,
          ),
        )
    | inr (e, short) ↦ absurd (omega (arith, short, ap length facing, length-append xs ys))
  ]

  -- The checksum of a block is read where there is one, and accepted where it does not differ.
  check_block_front :
      (d : Decoder S) (input : Input S) (stored ck tail : List ℕ)
      → d.checksum_len ≤ 8
      → length ck ≡ d.checksum_len
      → (d.checksum_len ≢ 0 → checksum_differs ((d.hdr).checksum_id) ck stored ≡ false)
      → Facing (ck ++ tail) input
      → (input' : Input S) × (check_block src codecs d input stored ≡ ret input')
        × Facing tail input'
  unfolding check_block
  check_block_front d input stored [] tail eight sized same facing =
      (input, rw (check_block, none_read) refl, facing)
    where
      none_read : (d.checksum_len != 0) ≡ false
      none_read = none_of (d.checksum_len) sized
        where
          none_of : (n : ℕ) → 0 ≡ n → (n != 0) ≡ false
          none_of n e = ground arith
  check_block_front d input stored (c ∷ ck) tail eight sized same facing =
      let (input', e, facing') = read_exact_front input (c ∷ ck) tail facing in
      (
        input',
        rw (check_block, some_of (d.checksum_len) sized)
            (step_ret _ (takes_ok 8 (d.checksum_len) eight) (
              step_ret _ (ap (read_exact src input) (sym sized) ∙ e)
                (pass_fail_if _ _ (same (λ e. absurd (omega (arith, sized, e)))) refl))),
        facing',
      )
    where
      some_of : (n : ℕ) → suc (length ck) ≡ n → (n != 0) ≡ true
      some_of n e = ground arith

  -- A stored block.
  pub record Stored (d : Decoder S) (b : BlockHeader) (stored ck out : List ℕ) : Type 0 where
    pub valid : IsValidBlock b
    pub stored_sized : length stored ≡ b.stored_size
    pub ck_sized : length ck ≡ d.checksum_len
    pub ck_fits : d.checksum_len ≤ 8
    pub ck_same : d.checksum_len ≢ 0 → checksum_differs ((d.hdr).checksum_id) ck stored ≡ false
    pub in_turn : b.raw_offset ≡ d.raw_offset
    pub raw_fits : b.raw_size ≤ d.raw_cap
    pub stored_fits : b.stored_size ≤ d.cbuf_cap
    pub decoded : block_bytes codecs ((d.codec).id) (d.ddict) (d.raw_cap) b stored ≡ ret out
    pub out_sized : length out ≡ b.raw_size

  -- Over a source that keeps its promise, a block that stands next in the stream is read, where its
  -- header is valid, in turn and within the decoder's buffers, the checksum behind the stored bytes, if
  -- the file has any, is theirs, and the codec makes as many bytes of them as the header says. Those
  -- bytes are then the decoder's, to be read from the first on, and what follows the block is next.
  pub read_block_front :
      (d : Decoder S) (b : BlockHeader) (stored ck out tail : List ℕ)
      → Stored d b stored ck out
      → Facing (block_store b ++ (stored ++ (ck ++ tail))) (d.input)
      → (d' : Decoder S) × (read_block src codecs d ≡ ret d')
        × (d'.raw ≡ out)
        × (d'.raw_pos ≡ 0)
        × (d'.raw_offset ≡ (d.raw_offset + length out) % 2 ^ 64)
        × Facing tail (d'.input)
  unfolding read_block block_store block_front block_fields st8 st16le st32le st64le
  read_block_front d b stored ck out tail s facing =
      let (p, i1, e1, f1) =
        need_front (d.input) (block_store b) (stored ++ (ck ++ tail)) (omega arith) facing in
      let (i3, e3, f3) = read_exact_front (consume src i1 24) stored (ck ++ tail) f1 in
      let (i4, e4, f4) =
        check_block_front d i3 stored ck tail (s.ck_fits) (s.ck_sized) (s.ck_same) f3 in
      (
        record d {
          input = i4;
          stream_ck = stream_update ((d.hdr).checksum_id) (d.stream_ck) out;
          raw = out;
          raw_pos = 0;
          raw_offset = (d.raw_offset + length out) % 2 ^ 64;
        },
        step_ret _ e1 (
            step_ret _ (ap run (block_parse-block_store b p 24 (s.valid) (omega arith))) (
              pass_fail_if _ _ (not_ne (b.raw_offset) (d.raw_offset) (s.in_turn)) (
                pass_fail_if _ _ (not_ltb (d.raw_cap) (b.raw_size) (s.raw_fits)) (
                  pass_fail_if _ _ (not_ltb (d.cbuf_cap) (b.stored_size) (s.stored_fits)) (
                    step_ret _ (takes_ok (d.cbuf_cap) (b.stored_size) (s.stored_fits)) (
                      step_ret _
                        (ap (read_exact src (consume src i1 24)) (sym (s.stored_sized)) ∙ e3)
                        (step_ret _ e4 (
                          step_ret _ (s.decoded) (
                            pass_fail_if _ _ (not_ne (length out) (b.raw_size) (s.out_sized))
                              refl))))))))),
        refl,
        refl,
        refl,
        f4,
      )
