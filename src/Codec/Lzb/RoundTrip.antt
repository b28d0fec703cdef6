-- ===== src/Codec/Lzb/RoundTrip.antt =====
-- What `xq_lzb_compress` of src/codec/xq_codec_lzb.c writes, `xq_lzb_decompress` turns back into the
-- source.
pub mod Whole
pub mod Returns
use mathlib.Core.Path.{subst}
use xq.Base.{
  ℕ, zero, suc, ◌+◌, ◌-◌, ◌*◌, ◌/◌, ◌%◌, ◌^◌, ◌≤◌, ◌<◌, ◌≡◌, ◌≢◌, refl, ap, sym, ◌∙◌, List, [], ◌∷◌,
  ◌++◌, append_assoc, append-nil, Option, none, some, true, false, Bool, ltb, leb, ◌==◌, ◌!=◌, ◌&&◌,
  ◌||◌, if◌then◌else◌, length, length-append, length-take, length-drop, drop, take, drop-append,
  take-append, take_add, take_all, take-append_add, bit_or, bit_and, arith, Bool-cases,
  Option-cases, inl, inr, All,
}
use xq.Common.Checked.{IsU64}
use xq.Common.Bytes.{IsByte, byte_at}
use xq.Status.{err_dst_too_small}
use xq.Codec.Exec.{Exec, ret, fail, ◌>>=◌, ◌>>◌}
use xq.Codec.Lzb.Decode.{
  lzb_min_match, decode_copy, decode_match, decode_literals, decode_loop, lzb_decompress,
}
use xq.Codec.Lzb.Decode.Window.{Extends, extend, extend-take, decode_copy-Extends}
use xq.Codec.Lzb.Match.{Tables, Cdict, Best, insert, insert_from, find_match}
use xq.Codec.Lzb.Match.Search.{Repeats, IsDict, dict_bytes, find_match_sound}
use xq.Codec.Lzb.Encode.{
  match_code, emit_seq, Pick, Run, choose, look_ahead, span, emit_last, encode_loop,
}
use xq.Codec.Lzb.Sequence.{
  lit_code, token_of, varint_if, match_part, sequence, emit_seq-some, token_of_codes,
}
use xq.Codec.Lzb.Sequence.Round.{decode_literals-token, decode_match-part}

-- The copy of a match that repeats the window gives the longer front of the source.
copy-Repeats :
    (room : ℕ) (dict src : List ℕ) (pos m dist : ℕ)
    → pos + m ≤ length src
    → length src ≤ room
    → Repeats dict src pos m dist
    → decode_copy room dict dist m (take pos src) ≡ ret (take (pos + m) src)
copy-Repeats room dict src pos m dist fits big v = copy.runs ∙ ap ret result
  where
    size : length (take pos src) ≡ pos
    size = omega (arith, length-take pos src)

    copy : Extends room dict m dist (take pos src) (decode_copy room dict dist m (take pos src))
    copy =
        decode_copy-Extends room dict m dist (take pos src) v.forward
          (omega (arith, v.inside, size)) (omega (arith, size))

    window : dict ++ copy.result ≡ dict ++ take (pos + m) src
    window =
        copy.window
        ∙ ap (extend m dist) (sym (take-append_add dict src pos))
        ∙ extend-take m (length dict + pos) dist (dict ++ src) v.forward (omega (arith, v.inside))
            (omega (arith, length-append dict src)) v.same
        ∙ ap (λ k. take k (dict ++ src)) (omega arith)
        ∙ take-append_add dict src (pos + m)

    result : copy.result ≡ take (pos + m) src
    result =
        sym (drop-append (length dict) dict copy.result refl)
        ∙ ap (drop (length dict)) window
        ∙ drop-append (length dict) dict (take (pos + m) src) refl

-- The bytes of a sequence with more behind them.
sequence-append :
    (lits : List ℕ) (dist mlen : ℕ) (rest : List ℕ)
    → sequence lits dist mlen ++ rest
      ≡ token_of (length lits) mlen
        ∷ (varint_if (lit_code (length lits) == 15) (length lits - 15)
            ++ (lits ++ (match_part dist mlen ++ rest)))
sequence-append lits dist mlen rest =
    ap (λ r. token_of (length lits) mlen ∷ r)
      (append_assoc counted (lits ++ match_part dist mlen) rest
        ∙ ap (λ r. counted ++ r) (append_assoc lits (match_part dist mlen) rest))
  where
    counted : List ℕ
    counted = varint_if (lit_code (length lits) == 15) (length lits - 15)

module _ (room : ℕ) (dict : List ℕ) where
  -- A round on a sequence with a match.
  decode_round :
      (f : ℕ) (lits : List ℕ) (dist mlen : ℕ) (rest out result : List ℕ)
      → 4 ≤ mlen
      → 1 ≤ dist
      → dist ≤ length (out ++ lits) + length dict
      → length (out ++ lits) + length dict + mlen < 2 ^ 63
      → length (out ++ lits) + mlen ≤ room
      → decode_copy room dict dist mlen (out ++ lits) ≡ ret result
      → decode_loop (suc f) room dict (sequence lits dist mlen ++ rest) out
        ≡ decode_loop f room dict rest result
  decode_round f lits dist mlen rest out result long forward inside word fits copied =
      ap (λ b. decode_loop (suc f) room dict b out) (sequence-append lits dist mlen rest)
      ∙ unfold decode_loop in
        rw
          (
            decode_literals-token room lits mlen (match_part dist mlen ++ rest) out
                (omega (arith, length-append out lits)) (omega (arith, length-append out lits)),
            (token_of_codes (length lits) mlen).1,
            some_match,
            decode_match-part room dict dist mlen rest (out ++ lits) result long (omega arith)
                forward inside (omega arith) fits copied,
          )
          refl
    where
      some_match : (match_code mlen == 0) ≡ false
      some_match = unfold match_code in ground arith

  -- The round on the last sequence, which has no match.
  decode_last :
      (f : ℕ) (lits out : List ℕ)
      → IsU64 (length lits)
      → length (out ++ lits) ≤ room
      → decode_loop (suc f) room dict (sequence lits 0 0) out ≡ ret (out ++ lits)
  unfolding decode_loop match_code
  decode_last f lits out word fits =
      rw
        (
          decode_literals-token room lits 0 [] out word (omega (arith, length-append out lits)),
          (token_of_codes (length lits) 0).1,
        )
        refl

module _ (room : ℕ) (d : Option Cdict) (src : List ℕ) (bytes : All IsByte src) (ok_dict : IsDict d)
    (word : length src + length (dict_bytes d) < 2 ^ 62) (big : length src ≤ room) where
  dict : List ℕ
  dict = dict_bytes d

  -- `written` makes the source of its first `anchor` bytes.
  unfoldable pub Completes : ℕ → List ℕ → Type 0
  Completes anchor written =
      (f : ℕ)
      → length written ≤ f
      → decode_loop f room (dict_bytes d) written (take anchor src) ≡ ret src

  span-take : (from end : ℕ) → from ≤ end → take from src ++ span src from end ≡ take end src
  span-take from end h = take_add from (end - from) src ∙ ap (λ k. take k src) (omega arith)

  emit_last-Completes :
      (dst_cap anchor : ℕ) (t : Tables) (out out' : List ℕ)
      → anchor ≤ length src
      → (emit_last dst_cap src t out anchor).outcome ≡ ret out'
      → (written : List ℕ) × (out' ≡ out ++ written) × Completes anchor written
  unfolding emit_last Completes
  emit_last-Completes dst_cap anchor t out out' h e =
      elim (Option-cases (emit_seq dst_cap out (span src anchor (length src)) 0 0)) [
        | inl failed ↦ absurd (ground arith)
        | inr (end, emitted) ↦
            let same : end ≡ out' = ground arith in
            (
              sequence (span src anchor (length src)) 0 0,
              sym same ∙ emit_seq-some dst_cap out (span src anchor (length src)) 0 0 end emitted,
              λ f long. last_round f long,
            )
      ]
    where
      whole : take anchor src ++ span src anchor (length src) ≡ src
      whole = span-take anchor (length src) h ∙ take_all (length src) src (omega arith)

      size : length (span src anchor (length src)) ≤ length src
      size =
          omega
            (arith, ap length whole, length-append (take anchor src) (span src anchor (length src)))

      last_round :
          (f : ℕ)
          → length (sequence (span src anchor (length src)) 0 0) ≤ f
          → decode_loop f room
              (dict_bytes d)
              (sequence (span src anchor (length src)) 0 0)
              (take anchor src)
            ≡ ret src
      last_round zero long = absurd (omega arith)
      last_round (suc f) long =
          decode_last room (dict_bytes d) f (span src anchor (length src)) (take anchor src)
            (omega (arith, size)) (omega (arith, ap length whole))
          ∙ ap ret whole

  -- A match that may be taken at `start`.
  record IsGood (start : ℕ) (best : Best) : Type 0 where
    long : 4 ≤ best.mlen
    fits : start + best.mlen ≤ length src
    repeats : Repeats (dict_bytes d) src start best.mlen best.dist

  found-IsGood :
      (t : Tables) (depth pos : ℕ) (best : Best)
      → pos ≤ length src
      → find_match t d depth src pos ≡ some best
      → IsGood pos best
  found-IsGood t depth pos best h e =
      let (long, fits, repeats) =
        find_match_sound t d depth src pos best bytes ok_dict (omega arith) h e in
      record { long = long; fits = fits; repeats = repeats }

  -- A round of the encoder and the round of the decoder on what it wrote.
  round-Completes :
      (dst_cap anchor start : ℕ) (best : Best) (out out1 out' : List ℕ)
      → anchor ≤ start
      → IsGood start best
      → emit_seq dst_cap out (span src anchor start) best.dist best.mlen ≡ some out1
      → (later : List ℕ) → out' ≡ out1 ++ later
      → Completes (start + best.mlen) later
      → (written : List ℕ) × (out' ≡ out ++ written) × Completes anchor written
  unfolding Completes
  round-Completes dst_cap anchor start best out out1 out' h good emitted later e rest = (
    sequence (span src anchor start) best.dist best.mlen ++ later,
    e
        ∙ ap (λ o. o ++ later)
            (emit_seq-some dst_cap out (span src anchor start) best.dist best.mlen out1 emitted)
        ∙ append_assoc out (sequence (span src anchor start) best.dist best.mlen) later,
    λ f long. one_round f long,
  )
    where
      front : take anchor src ++ span src anchor start ≡ take start src
      front = span-take anchor start h

      size : length (take anchor src ++ span src anchor start) ≡ start
      size = ap length front ∙ omega (arith, length-take start src, good.fits)

      one_round :
          (f : ℕ)
          → length (sequence (span src anchor start) best.dist best.mlen ++ later) ≤ f
          → decode_loop f room
              (dict_bytes d)
              (sequence (span src anchor start) best.dist best.mlen ++ later)
              (take anchor src)
            ≡ ret src
      one_round zero long = absurd (omega arith)
      one_round (suc f) long =
          decode_round room (dict_bytes d) f (span src anchor start) best.dist best.mlen later
            (take anchor src) (take (start + best.mlen) src) good.long good.repeats.forward
            (omega (arith, size, good.repeats.inside)) (omega (arith, size, good.fits))
            (omega (arith, size, good.fits))
            (ap (decode_copy room (dict_bytes d) best.dist best.mlen) front
              ∙ copy-Repeats room (dict_bytes d) src start best.mlen best.dist good.fits big
                  good.repeats)
          ∙ rest f (
              omega
                (arith, length-append (sequence (span src anchor start) best.dist best.mlen) later))

  -- The pick starts at the match or one byte on, with a match that may be taken there.
  choose-IsGood :
      (pos : ℕ) (found : Best) (t : Tables) (next : Option Best)
      → IsGood pos found
      → ((best : Best) → next ≡ some best → IsGood (pos + 1) best)
      → (pos ≤ (choose pos found t next).start)
        × IsGood (choose pos found t next).start (choose pos found t next).best
  unfolding choose
  choose-IsGood pos found t none good ahead = (omega arith, good)
  choose-IsGood pos found t (some next) good ahead =
      elim (Bool-cases (ltb (found.mlen + 1) next.mlen)) [
        | inl better ↦ rw better (omega arith, ahead next refl)
        | inr not_better ↦ rw not_better (omega arith, good)
      ]

  look_ahead-IsGood :
      (t : Tables) (depth pos : ℕ) (found : Best)
      → IsGood pos found
      → (pos ≤ (look_ahead t d depth src pos found).start)
        × IsGood
            (look_ahead t d depth src pos found).start
            (look_ahead t d depth src pos found).best
  unfolding look_ahead
  look_ahead-IsGood t depth pos found good =
      elim (Bool-cases (leb (pos + 1 + lzb_min_match) (length src))) [
        | inl room_ahead ↦ rw room_ahead (
            choose-IsGood pos found (insert src t pos)
              (find_match (insert src t pos) d depth src (pos + 1)) good
              (λ best e. found-IsGood (insert src t pos) depth (pos + 1) best (ground arith) e))
        | inr at_end ↦ rw at_end (omega arith, good)
      ]

  -- The rounds of the loop, as equations of its outcome.
  module _ (fuel dst_cap depth : ℕ) (t : Tables) (out : List ℕ) (anchor pos : ℕ) where
    abbrev run : Run
    run = encode_loop (suc fuel) dst_cap d depth src t out anchor pos

    last_round_eq :
        leb (pos + lzb_min_match) (length src) ≡ false → run ≡ emit_last dst_cap src t out anchor
    unfolding encode_loop
    last_round_eq e = rw e refl

    skip_round_eq :
        leb (pos + lzb_min_match) (length src) ≡ true
        → find_match t d depth src pos ≡ none
        → run ≡ encode_loop fuel dst_cap d depth src (insert src t pos) out anchor (pos + 1)
    unfolding encode_loop
    skip_round_eq e missing = rw (encode_loop, e, missing) refl

    full_round_eq :
        (found : Best)
        → leb (pos + lzb_min_match) (length src) ≡ true
        → find_match t d depth src pos ≡ some found
        → (let pick = look_ahead t d depth src pos found in
            emit_seq dst_cap out (span src anchor pick.start) pick.best.dist pick.best.mlen ≡ none)
        → run.outcome ≡ fail err_dst_too_small
    unfolding encode_loop
    full_round_eq found e hit failed = ap (λ r. r.outcome) full
      where
        full : run ≡ (record {
          outcome = fail err_dst_too_small;
          tables = (look_ahead t d depth src pos found).tables;
        })
        full = rw (encode_loop, e, hit, failed) refl

    match_round_eq :
        (found : Best) (out1 : List ℕ)
        → leb (pos + lzb_min_match) (length src) ≡ true
        → find_match t d depth src pos ≡ some found
        → (let pick = look_ahead t d depth src pos found in
            emit_seq dst_cap out (span src anchor pick.start) pick.best.dist pick.best.mlen
            ≡ some out1)
        → run ≡ (
            let pick = look_ahead t d depth src pos found in
            encode_loop fuel dst_cap d depth src
              (insert_from pick.best.mlen src pick.start pick.tables)
              out1
              (pick.start + pick.best.mlen)
              (pick.start + pick.best.mlen))
    unfolding encode_loop
    match_round_eq found out1 e hit emitted = rw (encode_loop, e, hit, emitted) refl

  pub encode_loop-Completes :
      (fuel dst_cap depth : ℕ) (t : Tables) (out : List ℕ) (anchor pos : ℕ) (out' : List ℕ)
      → anchor ≤ pos
      → pos ≤ length src
      → (encode_loop fuel dst_cap d depth src t out anchor pos).outcome ≡ ret out'
      → (written : List ℕ) × (out' ≡ out ++ written) × Completes anchor written
  encode_loop-Completes zero dst_cap depth t out anchor pos out' h k e =
      unfold encode_loop in emit_last-Completes dst_cap anchor t out out' (omega arith) e
  encode_loop-Completes (suc fuel) dst_cap depth t out anchor pos out' h k e =
      elim (Bool-cases (leb (pos + lzb_min_match) (length src))) [
        | inr at_end ↦ emit_last-Completes dst_cap anchor t out out' (omega arith) (
            sym (ap (λ r. r.outcome) (last_round_eq fuel dst_cap depth t out anchor pos at_end))
            ∙ e)
        | inl more ↦ elim (Option-cases (find_match t d depth src pos)) [
          | inl missing ↦
              encode_loop-Completes fuel dst_cap depth (insert src t pos) out anchor (pos + 1) out'
                (omega arith) (ground arith)
                (sym (
                    ap (λ r. r.outcome)
                      (skip_round_eq fuel dst_cap depth t out anchor pos more missing))
                  ∙ e)
          | inr (found, hit) ↦
              let pick = look_ahead t d depth src pos found in
              let m = pick.best.mlen in
              let (after, good) =
                look_ahead-IsGood t depth pos found (found-IsGood t depth pos found k hit) in
              elim (Option-cases
                (emit_seq dst_cap out (span src anchor pick.start) pick.best.dist m)) [
                  | inl failed ↦
                      let full =
                        full_round_eq fuel dst_cap depth t out anchor pos found more hit failed in
                      cc
                  | inr (out1, emitted) ↦
                      let (later, same, completes) =
                        encode_loop-Completes fuel dst_cap depth
                          (insert_from m src pick.start pick.tables) out1 (pick.start + m)
                          (pick.start + m) out' (omega arith) good.fits
                          (sym (
                              ap (λ r. r.outcome)
                                (match_round_eq fuel dst_cap depth t out anchor pos found out1 more
                                  hit emitted))
                            ∙ e) in
                      round-Completes dst_cap anchor pick.start pick.best out out1 out'
                        (omega (arith, after)) good emitted later same completes
                ]
        ]
      ]
