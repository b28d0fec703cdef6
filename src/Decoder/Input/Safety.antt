-- ===== src/Decoder/Input/Safety.antt =====
-- The calls on the input of src/core/xq_decoder.c end and write inside their buffers.
use xq.Base.{
  ℕ, zero, suc, ◌-◌, ◌≤◌, ◌<◌, ◌≡◌, ap, sym, ◌∙◌, inl, inr, min, List, [], ◌∷◌, ◌++◌, false, ◌==◌,
  ◌&&◌, Bool-cases, ==→eq, ==-false→lt, length, length-append, length-drop, length-take, drop,
  drop-drop, drop-append_left, arith,
}
use xq.Codec.Exec.{Ends, returns, fails, Ends-bind, Ends-fail_if}
use xq.Decoder.Input.{
  Source, Input, rbuf_size, consume, refill, skip_loop, need, read_exact, is_empty,
}
use xq.Decoder.Input.Stream.{
  Delivers, ahead, IsReady, filled, rbuf_fill_ok, ahead-filled, filled-IsReady, need-ahead,
  read_exact-ahead,
}

module _ {S : Type 0} (src : Source S) (rest : S → List ℕ) (h : Delivers src rest) where
  -- The input is ready, with at most `n` bytes ahead.
  abbrev pub Within : ℕ → Input S → Type 0
  Within n d = IsReady src rest h d × (length (ahead src rest h d) ≤ n)

  -- Bytes that stand in the buffer are passed over.
  pub consume-ahead :
      (d : Input S) (n : ℕ)
      → IsReady src rest h d
      → n ≤ length (d.rbuf) - d.rpos
      → IsReady src rest h (consume src d n)
        × (ahead src rest h (consume src d n) ≡ drop n (ahead src rest h d))
  unfolding consume
  consume-ahead d n k there = (
    record { inside = omega (arith, k.inside); fits = k.fits; ended = k.ended },
    ap (λ l. l ++ rest (d.src_ctx)) (sym (drop-drop n (d.rpos) (d.rbuf)))
        ∙ sym (
            drop-append_left n (drop (d.rpos) (d.rbuf)) (rest (d.src_ctx))
              (omega (arith, there, length-drop (d.rpos) (d.rbuf)))),
  )

  refill-Ends :
      (d : Input S) (n : ℕ)
      → Within n d
      → Ends (λ d'. Within n d' × (d'.rpos < length (d'.rbuf))) (refill src d)
  unfolding refill
  refill-Ends d n (k, few) = elim (Bool-cases (d.rpos == length (d.rbuf))) [
    | inr more ↦
        rw (refill, more)
          (returns ((k, few), ==-false→lt (d.rpos) (length (d.rbuf)) more (k.inside)))
    | inl used ↦
        rw (refill, used)
          (Ends-fail_if (d.src_eof) _ (λ open_end. rw (rbuf_fill_ok src rest h d open_end) (
            Ends-fail_if _ _ (λ some_got. returns (
              (
                filled-IsReady src rest h d k (
                    omega (
                      arith,
                      ==→eq (d.rpos) (length (d.rbuf)) used,
                      length-drop (d.rpos) (d.rbuf),
                    )),
                omega (arith, few, ap length (ahead-filled src rest h d)),
              ),
              positive ((filled src rest h d).rbuf) (h.got (d.src_ctx) (room d)) some_got (
                  omega
                    (arith, length-append (drop (d.rpos) (d.rbuf)) (h.got (d.src_ctx) (room d)))),
            )))))
  ]
    where
      room : Input S → ℕ
      room d = rbuf_size - length (drop (d.rpos) (d.rbuf))

      positive :
          (buf got : List ℕ)
          → ((0 == length buf) && is_empty got) ≡ false
          → length got ≤ length buf
          → 0 < length buf
      positive buf [] e q = ground arith
      positive buf (b ∷ got) e q = omega arith

  -- A skip over more bytes than are ahead fails, and one over fewer leaves no more bytes ahead.
  pub skip_loop-Ends :
      (fuel : ℕ) (d : Input S) (n m : ℕ)
      → n ≤ fuel
      → Within m d
      → Ends (Within m) (skip_loop src fuel d n)
  unfolding skip_loop
  skip_loop-Ends fuel d zero m enough w = returns w
  skip_loop-Ends zero d (suc n) m enough w = absurd (omega arith)
  skip_loop-Ends (suc fuel) d (suc n) m enough w =
      Ends-bind (refill-Ends d m w) (λ d' ((k, few), more).
        let (k', passed) = consume-ahead d' (taken d') k (omega arith) in
        skip_loop-Ends fuel (consume src d' (taken d')) (suc n - taken d') m
          (omega (arith, enough, more))
          (k', omega (arith, few, ap length passed, length-drop (taken d') (ahead src rest h d'))))
    where
      taken : Input S → ℕ
      taken d' = min (suc n) (length (d'.rbuf) - d'.rpos)

  pub need-Ends :
      (d : Input S) (n m : ℕ)
      → n ≤ rbuf_size
      → Within m d
      → Ends (λ r. Within m (r.1) × (n ≤ length ((r.1).rbuf) - (r.1).rpos)) (need src d n)
  need-Ends d n m small (k, few) = elim (need-ahead src rest h d n k small) [
    | inl (p, d', e, k', same, front, there) ↦
        rw e (returns ((k', omega (arith, few, ap length same)), there))
    | inr (e, short) ↦ rw e fails
  ]

  pub read_exact-Ends :
      (d : Input S) (n m : ℕ)
      → Within m d
      → Ends (λ r. Within m (r.1) × (length (r.0) ≡ n)) (read_exact src d n)
  read_exact-Ends d n m (k, few) = elim (read_exact-ahead src rest h d n k) [
    | inl (d', e, k', after, long) ↦ rw e (
        returns (
          (k', omega (arith, few, ap length after, length-drop n (ahead src rest h d))),
          omega (arith, length-take n (ahead src rest h d), long),
        ))
    | inr (e, short) ↦ rw e fails
  ]

  -- Passing over `n` bytes in the buffer brings the end nearer by as much.
  pub consume-Within :
      (d : Input S) (n m : ℕ)
      → Within m d
      → n ≤ length (d.rbuf) - d.rpos
      → Within (m - n) (consume src d n)
  consume-Within d n m (k, few) there =
      let (k', passed) = consume-ahead d n k there in
      (k', omega (arith, few, ap length passed, length-drop n (ahead src rest h d)))
