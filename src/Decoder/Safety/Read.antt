-- ===== src/Decoder/Safety/Read.antt =====
-- `xq_decoder_read` of src/core/xq_decoder.c ends, writes no more bytes than were asked for, and stays
-- in its state after a failure.
use xq.Base.{
  ℕ, zero, suc, ◌+◌, ◌-◌, ◌≤◌, ◌<◌, ◌≡◌, refl, sym, min, List, Bool, true, ◌==◌, length,
  length-append, length-take, take, drop, arith, ==-false→lt, ne_true→lt,
}
use native.Mathlib.Nat.{le_refl}
use xq.Status.{Status, Result, ok, err, xq_ok}
use xq.Codec.Exec.{Ends, returns, Ends-bind, Ends-branch, Ends-catch}
use xq.Codec.Table.{CodecVt}
use xq.Decoder.Input.{Source}
use xq.Decoder.Input.Stream.{Delivers}
use xq.Decoder.State.{Decoder}
use xq.Decoder.Blocks.{ready_block, copy_loop, prepend, read_open, decoder_read}
use xq.Decoder.Safety.{Left, next_block-Ends}

module _ {S : Type 0} (src : Source S) (rest : S → List ℕ) (h : Delivers src rest)
    (codecs : List CodecVt) where
  abbrev Here : ℕ → Decoder S → Type 0
  Here m d = Left src rest h codecs m d

  -- A block is ready where bytes of it are left.
  Ready : ℕ → Bool × Decoder S → Type 0
  Ready m (more, d) = Here m d × (more ≡ true → d.raw_pos < length (d.raw))

  ready_block-Ends :
      (rounds : ℕ) (d : Decoder S) (m : ℕ)
      → Here m d
      → m < rounds
      → Ends (Ready m) (ready_block src codecs rounds d)
  unfolding ready_block Ready
  ready_block-Ends rounds d m w enough =
      Ends-branch (d.raw_pos == length (d.raw))
        (λ used.
          Ends-branch (d.saw_eob) (λ seen. returns (w, λ e. cc))
            (λ unseen. Ends-bind (next_block-Ends src rest h codecs rounds d m w enough) (λ d' w'.
              returns (w', λ more. ne_true→lt (d'.raw_pos) (length (d'.raw)) more (w'.1.0)))))
        (λ some_left. returns (w, λ e. ==-false→lt (d.raw_pos) (length (d.raw)) some_left (w.1.0)))

  -- What a read gives: at most `n` bytes, and a decoder with no more left to read than before.
  pub Given : ℕ → ℕ → Result (List ℕ) × Decoder S → Type 0
  Given m n (ok bytes, d) = (length bytes ≤ n) × Here m d
  Given m n (err st, d) = Here m d × (d.sticky ≡ st)

  prepended :
      (n k m : ℕ) (front : List ℕ) (later : Result (List ℕ)) (d : Decoder S)
      → length front ≤ k
      → k ≤ n
      → Given m (n - k) (later, d)
      → Given m n (prepend front later, d)
  unfolding Given prepend
  prepended n k m front (ok bytes) d short fits (few, w) =
      (omega (arith, few, length-append front bytes), w)
  prepended n k m front (err st) d short fits w = w

  copy_loop-Ends :
      (fuel rounds : ℕ) (d : Decoder S) (m n : ℕ)
      → Here m d
      → m < rounds
      → n ≤ fuel
      → Ends (Given m n) (copy_loop src codecs fuel rounds d n)
  unfolding copy_loop Given Ready
  copy_loop-Ends fuel rounds d m zero w enough long = returns (omega arith, w)
  copy_loop-Ends zero rounds d m (suc n) w enough long = absurd (omega arith)
  copy_loop-Ends (suc fuel) rounds d m (suc n) w enough long =
      Ends-catch (ready_block-Ends rounds d m w enough) (λ st. returns (w, refl))
        (λ (more, d') (w', room).
          Ends-branch more
            (λ yes_more.
              Ends-bind
                (copy_loop-Ends fuel rounds (record d' { raw_pos = d'.raw_pos + taken d' }) m
                  (suc n - taken d') (w'.0, (omega (arith, w'.1.0), w'.1.1, w'.1.2, w'.1.3)) enough
                  (omega (arith, room yes_more, long)))
                (λ (later, d'') given. returns (
                  prepended (suc n) (taken d') m (take (taken d') (drop (d'.raw_pos) (d'.raw)))
                    later d'' (omega (arith, length-take (taken d') (drop (d'.raw_pos) (d'.raw))))
                    (omega arith) given)))
            (λ no_more. returns (omega arith, w')))
    where
      taken : Decoder S → ℕ
      taken d' = min (suc n) (length (d'.raw) - d'.raw_pos)

  read_open-Ends :
      (rounds : ℕ) (st : Status) (d : Decoder S) (m len : ℕ)
      → st ≡ d.sticky
      → Here m d
      → m < rounds
      → Ends (Given m len) (read_open src codecs rounds st d len)
  unfolding read_open Given
  read_open-Ends rounds xq_ok d m len same w enough =
      copy_loop-Ends len rounds d m len w enough (le_refl len)
  read_open-Ends rounds st d m len same w enough = returns (w, sym same)

  -- From a source that keeps its promise, with one round of `next_block` more than there are bytes
  -- left, with a checksum of 8 bytes at most and a block inside its buffer, and where every codec of the
  -- table, with a context and a dictionary that the codec of the file header made, fails or gives no
  -- more than there is room for, `xq_decoder_read` always returns: at most as many bytes as were asked
  -- for, or a status, which the decoder keeps where the read has just failed. No loop runs on for ever,
  -- nothing is copied or read into a buffer beyond its end, and no more bytes are left to read than
  -- before.
  pub decoder_read-Ends :
      (rounds : ℕ) (d : Decoder S) (m len : ℕ)
      → Here m d
      → m < rounds
      → Ends (Given m len) (decoder_read src codecs rounds d len)
  unfolding decoder_read
  decoder_read-Ends rounds d m len w enough = read_open-Ends rounds (d.sticky) d m len refl w enough
