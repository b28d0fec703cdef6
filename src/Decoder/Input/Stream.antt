-- ===== src/Decoder/Input/Stream.antt =====
-- The buffered input of src/core/xq_decoder.c against the stream of bytes that is still ahead: `need`
-- and `read_exact` do not depend on the sizes of the pieces that the source delivers.
use xq.Base.{
  ℕ, zero, suc, ◌+◌, ◌-◌, ◌≤◌, ◌<◌, ◌≡◌, refl, ap, ap₂, sym, ◌∙◌, ◌⊎◌, inl, inr, min, List, [], ◌∷◌,
  ◌++◌, append_assoc, Bool, true, false, ltb, Bool-cases, ltb→lt, ltb-false→le, length,
  length-append, length-drop, take, drop, take-append_front, take-append_split, drop-append_split,
  take_all, drop_all, take-min, drop-min, drop-drop, arith,
}
use mathlib.Core.Path.{subst}
use xq.Status.{ok, err_truncated}
use xq.Codec.Exec.{Exec, ret, fail, ◌>>=◌}
use xq.Decoder.Input.{
  Source, Input, rbuf_size, call_src, rbuf_fill, need_loop, need, read_loop, read_exact, is_empty,
}

-- What a source promises: `rest s` are the bytes that it still delivers, in pieces no longer than asked
-- for, and it delivers none only at their end.
pub record Delivers {S : Type 0} (src : Source S) (rest : S → List ℕ) : Type 0 where
  pub got : S → ℕ → List ℕ
  pub next : S → ℕ → S
  pub succeeds : (s : S) (n : ℕ) → src s n ≡ ok (got s n, next s n)
  pub short : (s : S) (n : ℕ) → length (got s n) ≤ n
  pub front : (s : S) (n : ℕ) → rest s ≡ got s n ++ rest (next s n)
  pub last : (s : S) (n : ℕ) → 1 ≤ n → got s n ≡ [] → rest s ≡ []

module _ {S : Type 0} (src : Source S) (rest : S → List ℕ) (h : Delivers src rest) where
  abbrev pub ahead : Input S → List ℕ
  ahead d = drop (d.rpos) (d.rbuf) ++ rest (d.src_ctx)

  -- The read position lies in the buffer, and the end was seen only where nothing is left.
  pub record IsReady (d : Input S) : Type 0 where
    pub inside : d.rpos ≤ length (d.rbuf)
    pub fits : length (d.rbuf) ≤ rbuf_size
    pub ended : d.src_eof ≡ true → rest (d.src_ctx) ≡ []

  call_src_ok : (s : S) (n : ℕ) → call_src src s n ≡ ret (h.got s n, h.next s n)
  unfolding call_src
  call_src_ok s n = ground (arith, h.succeeds s n, h.short s n)

  abbrev pub filled : Input S → Input S
  filled d =
      let kept = drop (d.rpos) (d.rbuf) in
      let n = rbuf_size - length kept in
      record {
        src_ctx = h.next (d.src_ctx) n;
        rbuf = kept ++ h.got (d.src_ctx) n;
        rpos = 0;
        src_eof = is_empty (h.got (d.src_ctx) n);
      }

  pub rbuf_fill_ok : (d : Input S) → d.src_eof ≡ false → rbuf_fill src d ≡ ret (filled d)
  unfolding rbuf_fill
  rbuf_fill_ok d open_end =
      rw
        (rbuf_fill, open_end, call_src_ok (d.src_ctx) (rbuf_size - length (drop (d.rpos) (d.rbuf))))
        refl

  pub is_empty→nil : (xs : List ℕ) → is_empty xs ≡ true → xs ≡ []
  is_empty→nil [] e = refl
  is_empty→nil (x ∷ xs) e = cc

  pub not_empty→longer : (xs : List ℕ) → is_empty xs ≡ false → 1 ≤ length xs
  not_empty→longer [] e = cc
  not_empty→longer (x ∷ xs) e = omega arith

  pub ahead-filled : (d : Input S) → ahead (filled d) ≡ ahead d
  ahead-filled d =
      append_assoc (drop (d.rpos) (d.rbuf)) _ _
      ∙ ap (λ r. drop (d.rpos) (d.rbuf) ++ r) (sym (h.front (d.src_ctx) _))

  pub filled-IsReady :
      (d : Input S) → IsReady d → length (drop (d.rpos) (d.rbuf)) < rbuf_size → IsReady (filled d)
  filled-IsReady d k room = record {
    inside = omega arith;
    fits = omega (
      arith,
      length-append (drop (d.rpos) (d.rbuf)) (h.got (d.src_ctx) n),
      h.short (d.src_ctx) n,
    );
    ended = λ e. ended_of (is_empty→nil _ e);
  }
    where
      n : ℕ
      n = rbuf_size - length (drop (d.rpos) (d.rbuf))

      ended_of : h.got (d.src_ctx) n ≡ [] → rest (h.next (d.src_ctx) n) ≡ []
      ended_of none_got =
          ap (λ g. g ++ rest (h.next (d.src_ctx) n)) (sym none_got)
          ∙ sym (h.front (d.src_ctx) n)
          ∙ h.last (d.src_ctx) n (omega arith) none_got

  -- What waiting for `n` bytes of the stream `l` does: they stand in the buffer, or `l` is too short.
  Needed : List ℕ → ℕ → Exec (Input S) → Type 0
  Needed l n m =
      ((d' : Input S) × (m ≡ ret d')
        × IsReady d'
        × (ahead d' ≡ l)
        × (n ≤ length (d'.rbuf) - d'.rpos))
      ⊎ ((m ≡ fail err_truncated) × (length l < n))

  abbrev rounds : Bool → ℕ
  rounds true = 1
  rounds false = 2

  rounds_positive : (eof : Bool) → 1 ≤ rounds eof
  rounds_positive true = omega arith
  rounds_positive false = omega arith

  pub length-ahead :
      (d : Input S) → length (ahead d) ≡ length (d.rbuf) - d.rpos + length (rest (d.src_ctx))
  length-ahead d = omega (
    arith,
    length-append (drop (d.rpos) (d.rbuf)) (rest (d.src_ctx)),
    length-drop (d.rpos) (d.rbuf),
  )

  need_loop_step :
      (fuel : ℕ) (d : Input S) (n : ℕ)
      → ltb (length (d.rbuf) - d.rpos) n ≡ true
      → d.src_eof ≡ false
      → need_loop src (suc fuel) d n ≡ need_loop src fuel (filled d) n
  unfolding need_loop
  need_loop_step fuel d n less open_end =
      rw (need_loop, less, rbuf_fill_ok d open_end, open_end) refl

  -- A fill brings the loop nearer to its end.
  closer :
      (d : Input S) (n fuel : ℕ)
      → length (d.rbuf) - d.rpos < n
      → n - (length (d.rbuf) - d.rpos) + 2 ≤ suc fuel
      → n - (length ((filled d).rbuf) - 0) + rounds ((filled d).src_eof) ≤ fuel
  closer d n fuel less enough = elim (Bool-cases ((filled d).src_eof)) [
    | inl e ↦ rw e (omega (arith, grown, enough, less))
    | inr e ↦ rw e (omega (arith, grown, not_empty→longer _ e, enough, less))
  ]
    where
      grown :
          length ((filled d).rbuf)
          ≡ length (d.rbuf)
            - d.rpos
            + length (h.got (d.src_ctx) (rbuf_size - length (drop (d.rpos) (d.rbuf))))
      grown = omega (
        arith,
        length-append (drop (d.rpos) (d.rbuf))
            (h.got (d.src_ctx) (rbuf_size - length (drop (d.rpos) (d.rbuf)))),
        length-drop (d.rpos) (d.rbuf),
      )

  need_loop-Needed :
      (fuel : ℕ) (d : Input S) (n : ℕ)
      → IsReady d
      → n ≤ rbuf_size
      → n - (length (d.rbuf) - d.rpos) + rounds (d.src_eof) ≤ fuel
      → Needed (ahead d) n (need_loop src fuel d n)
  unfolding Needed need_loop
  need_loop-Needed zero d n k small enough = absurd (omega (arith, rounds_positive (d.src_eof)))
  need_loop-Needed (suc fuel) d n k small enough =
      elim (Bool-cases (ltb (length (d.rbuf) - d.rpos) n)) [
        | inr there ↦ inl (
          d,
          rw (need_loop, there) refl,
          k,
          refl,
          ltb-false→le (length (d.rbuf) - d.rpos) n there,
        )
        | inl less ↦ elim (Bool-cases (d.src_eof)) [
          | inl eof ↦ inr (
            rw (need_loop, less, eof) refl,
            omega (
              arith,
              length-ahead d,
              ap length (k.ended eof),
              ltb→lt (length (d.rbuf) - d.rpos) n less,
            ),
          )
          | inr open_end ↦
              subst (λ m. Needed (ahead d) n m) (sym (need_loop_step fuel d n less open_end))
                (subst (λ l. Needed l n (need_loop src fuel (filled d) n)) (ahead-filled d)
                  (need_loop-Needed fuel (filled d) n
                    (filled-IsReady d k (
                      omega (
                        arith,
                        length-drop (d.rpos) (d.rbuf),
                        ltb→lt (length (d.rbuf) - d.rpos) n less,
                      )))
                    small
                    (closer d n fuel (ltb→lt (length (d.rbuf) - d.rpos) n less)
                      (omega (arith, enough, ap rounds open_end)))))
        ]
      ]

  -- `need` gives the front of the stream, of `n` bytes at least, and keeps the stream; on a shorter
  -- stream it reports truncation. It never runs out of fuel.
  pub need-ahead :
      (d : Input S) (n : ℕ)
      → IsReady d
      → n ≤ rbuf_size
      → ((p : List ℕ) × (d' : Input S) × (need src d n ≡ ret (p, d'))
          × IsReady d'
          × (ahead d' ≡ ahead d)
          × (take n p ≡ take n (ahead d))
          × (n ≤ length (d'.rbuf) - d'.rpos))
        ⊎ ((need src d n ≡ fail err_truncated) × (length (ahead d) < n))
  unfolding need Needed
  need-ahead d n k small =
      elim (need_loop-Needed (n + 2) d n k small (omega (arith, rounds_le (d.src_eof)))) [
        | inl (d', e, k', same, there) ↦ inl (
          drop (d'.rpos) (d'.rbuf),
          d',
          ground (arith, e),
          k',
          same,
          sym (
                take-append_front n (drop (d'.rpos) (d'.rbuf)) (rest (d'.src_ctx))
                  (omega (arith, there, length-drop (d'.rpos) (d'.rbuf))))
              ∙ ap (take n) same,
          there,
        )
        | inr (e, short) ↦ inr (ground (arith, e), short)
      ]
    where
      rounds_le : (eof : Bool) → rounds eof ≤ 2
      rounds_le true = omega arith
      rounds_le false = omega arith

  -- What reading `n` bytes straight from the source does.
  Read : S → ℕ → Exec (List ℕ × S × Bool) → Type 0
  Read s n m =
      ((s' : S) × (eof : Bool) × (m ≡ ret (take n (rest s), s', eof))
        × (rest s' ≡ drop n (rest s))
        × (n ≤ length (rest s))
        × (eof ≡ true → rest s' ≡ []))
      ⊎ ((m ≡ fail err_truncated) × (length (rest s) < n))

  read_loop_step :
      (fuel : ℕ) (s : S) (n : ℕ)
      → is_empty (h.got s (suc n)) ≡ false
      → read_loop src (suc fuel) s false (suc n) ≡ (
          read_loop src fuel (h.next s (suc n)) false (suc n - length (h.got s (suc n))) >>= λ r.
          ret (h.got s (suc n) ++ r.0, r.1, r.2))
  unfolding read_loop
  read_loop_step fuel s n some_got = rw (read_loop, call_src_ok s (suc n), some_got) refl

  read_loop-Read :
      (fuel : ℕ) (s : S) (eof : Bool) (n : ℕ)
      → (eof ≡ true → rest s ≡ [])
      → n ≤ fuel
      → Read s n (read_loop src fuel s eof n)
  unfolding read_loop Read
  read_loop-Read fuel s eof zero ended enough = inl (s, eof, refl, refl, omega arith, ended)
  read_loop-Read zero s eof (suc n) ended enough = absurd (omega arith)
  read_loop-Read (suc fuel) s true (suc n) ended enough =
      inr (refl, omega (arith, ap length (ended refl)))
  read_loop-Read (suc fuel) s false (suc n) ended enough =
      elim (Bool-cases (is_empty (h.got s (suc n)))) [
        | inl none_got ↦ inr (
          rw (read_loop, call_src_ok s (suc n), none_got) refl,
          omega (arith, ap length (h.last s (suc n) (omega arith) (is_empty→nil _ none_got))),
        )
        | inr some_got ↦
            subst (Read s (suc n)) (sym (read_loop_step fuel s n some_got))
              (elim (read_loop-Read fuel s' false left (λ e. cc)
                (omega (arith, not_empty→longer got some_got))) [
                  | inl (s'', eof, e, after, long, ended') ↦ inl (
                    s'',
                    eof,
                    rw e (ap (λ l. ret (l, s'', eof)) taken_front),
                    after ∙ dropped,
                    omega (arith, whole_length, long, h.short s (suc n)),
                    ended',
                  )
                  | inr (e, short) ↦
                      inr (rw e refl, omega (arith, whole_length, short, h.short s (suc n)))
                ])
      ]
    where
      got : List ℕ
      got = h.got s (suc n)

      s' : S
      s' = h.next s (suc n)

      left : ℕ
      left = suc n - length got

      whole_length : length (rest s) ≡ length got + length (rest s')
      whole_length = ap length (h.front s (suc n)) ∙ length-append got (rest s')

      taken_front : got ++ take left (rest s') ≡ take (suc n) (rest s)
      taken_front =
          ap (λ l. l ++ take left (rest s')) (sym (take_all (suc n) got (h.short s (suc n))))
          ∙ sym (take-append_split (suc n) got (rest s'))
          ∙ ap (take (suc n)) (sym (h.front s (suc n)))

      dropped : drop left (rest s') ≡ drop (suc n) (rest s)
      dropped =
          ap (λ l. l ++ drop left (rest s')) (sym (drop_all (suc n) got (h.short s (suc n))))
          ∙ sym (drop-append_split (suc n) got (rest s'))
          ∙ ap (drop (suc n)) (sym (h.front s (suc n)))

  -- `read_exact` gives the first `n` bytes of the stream and goes on behind them; on a shorter
  -- stream it reports truncation. It never runs out of fuel.
  pub read_exact-ahead :
      (d : Input S) (n : ℕ)
      → IsReady d
      → ((d' : Input S) × (read_exact src d n ≡ ret (take n (ahead d), d'))
          × IsReady d'
          × (ahead d' ≡ drop n (ahead d))
          × (n ≤ length (ahead d)))
        ⊎ ((read_exact src d n ≡ fail err_truncated) × (length (ahead d) < n))
  unfolding Read read_exact
  read_exact-ahead d n k =
      elim (read_loop-Read left (d.src_ctx) (d.src_eof) left (k.ended) (omega arith)) [
        | inl (s', eof, e, after, long, ended') ↦ inl (
          moved s' eof,
          rw (read_exact, e) (ap (λ l. ret (l, moved s' eof)) taken_front),
          record { inside = omega (arith, k.inside); fits = k.fits; ended = ended' },
          ap (λ r. drop (d.rpos + taken) (d.rbuf) ++ r) after ∙ dropped,
          omega (arith, long, length-ahead d),
        )
        | inr (e, short) ↦ inr (rw (read_exact, e) refl, omega (arith, short, length-ahead d))
      ]
    where
      buffered : List ℕ
      buffered = drop (d.rpos) (d.rbuf)

      taken : ℕ
      taken = min n (length (d.rbuf) - d.rpos)

      left : ℕ
      left = n - taken

      moved : S → Bool → Input S
      moved s' eof = record { src_ctx = s'; rbuf = d.rbuf; rpos = d.rpos + taken; src_eof = eof }

      taken_min : taken ≡ min n (length buffered)
      taken_min = omega (arith, length-drop (d.rpos) (d.rbuf))

      left_over : left ≡ n - length buffered
      left_over = omega (arith, length-drop (d.rpos) (d.rbuf))

      taken_front : take taken buffered ++ take left (rest (d.src_ctx)) ≡ take n (ahead d)
      taken_front =
          ap₂ (λ a b. take a buffered ++ take b (rest (d.src_ctx))) taken_min left_over
          ∙ ap (λ l. l ++ take (n - length buffered) (rest (d.src_ctx))) (take-min n buffered)
          ∙ sym (take-append_split n buffered (rest (d.src_ctx)))

      dropped : drop (d.rpos + taken) (d.rbuf) ++ drop left (rest (d.src_ctx)) ≡ drop n (ahead d)
      dropped =
          ap (λ l. l ++ drop left (rest (d.src_ctx))) (sym (drop-drop taken (d.rpos) (d.rbuf)))
          ∙ ap₂ (λ a b. drop a buffered ++ drop b (rest (d.src_ctx))) taken_min left_over
          ∙ ap (λ l. l ++ drop (n - length buffered) (rest (d.src_ctx))) (drop-min n buffered)
          ∙ sym (drop-append_split n buffered (rest (d.src_ctx)))
