-- ===== src/Codec/Lzb/RoundTrip/Returns.antt =====
-- `xq_lzb_compress` of src/codec/xq_codec_lzb.c returns where the destination is large enough.
use xq.Base.{
  ℕ, zero, suc, ◌+◌, ◌-◌, ◌*◌, ◌^◌, ◌%◌, ◌≤◌, ◌<◌, ◌≡◌, refl, ap, sym, ◌∙◌, List, [], ◌∷◌, ◌++◌,
  Option, none, some, true, false, Bool, ltb, leb, ◌==◌, ◌!=◌, ◌&&◌, if◌then◌else◌, length,
  length-append, length-take, drop, arith, Bool-cases, Option-cases, inl, inr, All, bit_or,
}
use xq.Common.Bytes.{IsByte}
use xq.Codec.Exec.{ret}
use xq.Codec.Varint.{put_byte}
use xq.Codec.Varint.RoundTrip.{varint, length-varint, put_varint_exact}
use xq.Codec.Lzb.Decode.{lzb_min_match, lzb_decompress}
use xq.Codec.Lzb.Match.{Tables, Cdict, insert, insert_from, find_match, depth_for}
use xq.Codec.Lzb.Match.Search.{IsDict, dict_bytes}
use xq.Codec.Lzb.Encode.{
  put_varint_if, put_literals, match_code, emit_seq, look_ahead, span, emit_last, encode_loop,
}
use xq.Codec.Lzb.Context.{
  Cctx, prepare_chain, clear_head, and_chain, cctx_prepare, compress_with, compress_prepared,
  lzb_compress,
}
use xq.Codec.Lzb.Context.Stale.{Headed, prepare_head-Headed}
use xq.Codec.Lzb.RoundTrip.Whole.{lzb_decompress-lzb_compress}
use xq.Codec.Lzb.RoundTrip.{
  found-IsGood, look_ahead-IsGood, last_round_eq, skip_round_eq, match_round_eq,
}

-- The step writes at most `k` bytes, and succeeds.
abbrev Fits : ℕ → List ℕ → Option (List ℕ) → Type 0
Fits k out step = (out' : List ℕ) × (step ≡ some out') × (length out' ≤ length out + k)

module _ (dst_cap : ℕ) where
  put_byte-Fits :
      (out : List ℕ) (b : ℕ) → length out + 1 ≤ dst_cap → Fits 1 out (put_byte dst_cap out b)
  unfolding put_byte
  put_byte-Fits out b h = (out ++ (b ∷ []), ground arith, omega (arith, length-append out (b ∷ [])))

  put_varint_if-Fits :
      (b : Bool) (out : List ℕ) (v : ℕ)
      → length out + 10 ≤ dst_cap
      → Fits 10 out (put_varint_if b dst_cap out v)
  unfolding put_varint_if
  put_varint_if-Fits true out v h =
      let short = (length-varint v).1 in
      (
        out ++ varint v,
        (put_varint_exact dst_cap out v).0 (omega (arith, short)),
        omega (arith, short, length-append out (varint v)),
      )
  put_varint_if-Fits false out v h = (out, refl, omega arith)

  put_literals-Fits :
      (out lits : List ℕ)
      → length out + length lits ≤ dst_cap
      → Fits (length lits) out (put_literals dst_cap out lits)
  unfolding put_literals
  put_literals-Fits out [] h = (out, refl, omega arith)
  put_literals-Fits out (l ∷ lits) h =
      (out ++ (l ∷ lits), ground arith, omega (arith, length-append out (l ∷ lits)))

  -- A sequence takes its literals and 31 bytes at most.
  emit_seq-Fits :
      (out lits : List ℕ) (dist mlen : ℕ)
      → length out + (length lits + 31) ≤ dst_cap
      → Fits (length lits + 31) out (emit_seq dst_cap out lits dist mlen)
  unfolding emit_seq
  emit_seq-Fits out lits dist mlen h =
      let litlen = length lits in
      let litcode = if ltb litlen 15 then litlen else 15 in
      let mcode = match_code mlen in
      let (token, e1, s1) =
        put_byte-Fits out (bit_or (litcode * 2 ^ 4) mcode % 2 ^ 8) (omega arith) in
      let (counted, e2, s2) =
        put_varint_if-Fits (litcode == 15) token (litlen - 15) (omega (arith, s1)) in
      let (copied, e3, s3) = put_literals-Fits counted lits (omega (arith, s1, s2)) in
      let (far, e4, s4) = put_varint_if-Fits (mlen != 0) copied dist (omega (arith, s1, s2, s3)) in
      let (end, e5, s5) =
        put_varint_if-Fits ((mlen != 0) && (mcode == 15)) far (mlen - lzb_min_match - 14)
          (omega (arith, s1, s2, s3, s4)) in
      (end, rw (e1, e2, e3, e4) e5, omega (arith, s1, s2, s3, s4, s5))

module _ (room : ℕ) (d : Option Cdict) (src : List ℕ) (bytes : All IsByte src) (ok_dict : IsDict d)
    (word : length src + length (dict_bytes d) < 2 ^ 62) (big : length src ≤ room)
    (dst_cap : ℕ) where
  length-span : (from end : ℕ) → length (span src from end) ≤ end - from
  length-span from end = omega (arith, length-take (end - from) (drop from src))

  emit_last_returns :
      (t : Tables) (out : List ℕ) (anchor : ℕ)
      → length out + (length src - anchor) + 31 ≤ dst_cap
      → (out' : List ℕ) × ((emit_last dst_cap src t out anchor).outcome ≡ ret out')
  unfolding emit_last
  emit_last_returns t out anchor h =
      let (out', e, s) =
        emit_seq-Fits dst_cap out (span src anchor (length src)) 0 0
          (omega (arith, length-span anchor (length src))) in
      (out', ground arith)

  encode_loop_returns :
      (fuel depth : ℕ) (t : Tables) (out : List ℕ) (anchor pos : ℕ)
      → anchor ≤ pos
      → pos ≤ length src
      → length out + 9 * (length src - anchor) + 31 ≤ dst_cap
      → (out' : List ℕ) × ((encode_loop fuel dst_cap d depth src t out anchor pos).outcome
          ≡ ret out')
  encode_loop_returns zero depth t out anchor pos h k fits =
      unfold encode_loop in emit_last_returns t out anchor (omega arith)
  encode_loop_returns (suc fuel) depth t out anchor pos h k fits =
      elim (Bool-cases (leb (pos + lzb_min_match) (length src))) [
        | inr at_end ↦
            let (out', e) = emit_last_returns t out anchor (omega arith) in
            (
              out',
              ap (λ r. r.outcome)
                    (last_round_eq room d src bytes ok_dict word big fuel dst_cap depth t out anchor
                      pos at_end)
                  ∙ e,
            )
        | inl more ↦ elim (Option-cases (find_match t d depth src pos)) [
          | inl missing ↦
              let (out', e) =
                encode_loop_returns fuel depth (insert src t pos) out anchor (pos + 1) (omega arith)
                  (ground arith) fits in
              (
                out',
                ap (λ r. r.outcome)
                      (skip_round_eq room d src bytes ok_dict word big fuel dst_cap depth t out
                        anchor pos more missing)
                    ∙ e,
              )
          | inr (found, hit) ↦
              let pick = look_ahead t d depth src pos found in
              let m = pick.best.mlen in
              let (after, good) =
                look_ahead-IsGood room d src bytes ok_dict word big t depth pos found
                  (found-IsGood room d src bytes ok_dict word big t depth pos found k hit) in
              let (out1, emitted, size) =
                emit_seq-Fits dst_cap out (span src anchor pick.start) pick.best.dist m
                  (omega (arith, length-span anchor pick.start, after, good.fits, good.long)) in
              let (out', e) =
                encode_loop_returns fuel depth (insert_from m src pick.start pick.tables) out1
                  (pick.start + m) (pick.start + m) (omega arith) good.fits
                  (omega
                    (arith, size, length-span anchor pick.start, after, good.fits, good.long)) in
              (
                out',
                ap (λ r. r.outcome)
                      (match_round_eq room d src bytes ok_dict word big fuel dst_cap depth t out
                        anchor pos found out1 more hit emitted)
                    ∙ e,
              )
        ]
      ]

-- A context that holds no chain holds no capacity for one, as a new one does.
abbrev pub IsReady : Cctx → Type 0
IsReady c = c.chain ≡ none → c.chain_cap ≡ 0

-- What `cctx_prepare` leaves where memory is given: both tables.
record Prepared (prepared : Bool × Cctx) : Type 0 where
  there : prepared.0 ≡ true
  head : (h : ℕ → ℕ) × (prepared.1.head ≡ some h)
  chain : (m : ℕ → ℕ) × (prepared.1.chain ≡ some m)

clear_head-Prepared :
    (p : Bool × Cctx) → p.0 ≡ true → (m : ℕ → ℕ) → p.1.chain ≡ some m → Prepared (clear_head p)
clear_head-Prepared (false, c) e m f = cc
clear_head-Prepared (true, c) e m f = record {
  there = refl;
  head = ((λ h. 0), refl);
  chain = (m, f);
}

and_chain-Prepared :
    (m : ℕ → ℕ) (c : Cctx) (n : ℕ) (p : Bool × Cctx)
    → IsReady c
    → 1 ≤ n
    → Headed c p
    → Prepared (and_chain (some m) n p)
unfolding prepare_chain
and_chain-Prepared m c n (false, p) ready some_bytes v = cc v.there
and_chain-Prepared m c n (true, p) ready some_bytes v = elim (Bool-cases (ltb p.chain_cap n)) [
  | inl longer ↦
      rw longer (clear_head-Prepared (true, record p { chain = some m; chain_cap = n }) refl m refl)
  | inr enough ↦ elim (Option-cases p.chain) [
    | inl gone ↦ absurd (ground (arith, v.chain_cap, ready (sym v.chain ∙ gone)))
    | inr (m', e) ↦ rw enough (clear_head-Prepared (true, p) refl m' e)
  ]
]

compress_prepared_returns :
    (room dst_cap : ℕ) (d : Option Cdict) (level : ℕ) (src : List ℕ) (p : Bool × Cctx)
    → All IsByte src
    → IsDict d
    → length src + length (dict_bytes d) < 2 ^ 62
    → length src ≤ room
    → 9 * length src + 31 ≤ dst_cap
    → Prepared p
    → (written : List ℕ) × ((compress_prepared dst_cap d level src p).0 ≡ ret written)
unfolding compress_prepared compress_with
compress_prepared_returns room dst_cap d level src (false, c) bytes ok_dict word big fits v =
    cc v.there
compress_prepared_returns room dst_cap d level src (true, c) bytes ok_dict word big fits v =
    let (h, has_head) = v.head in
    let (m, has_chain) = v.chain in
    let t : Tables = record { head = h; chain = m; hlog = c.hlog } in
    let (written, e) =
      encode_loop_returns room d src bytes ok_dict word big dst_cap (length src) (depth_for level) t
        [] 0 0 (omega arith) (omega arith) (omega arith) in
    (written, rw (has_head, has_chain) e)

-- Where memory is given and the destination has 9 times the source and 31 bytes, the encoder returns
-- bytes, and the decoder with the same dictionary and with room for the source turns them back into
-- it: for a context that holds no chain capacity without a chain, at every level, with any
-- dictionary whose tables point into it. Source and dictionary have less than 2 ^ 62 bytes.
pub lzb_round_trip :
    (h m : ℕ → ℕ) (c : Cctx) (dst_cap : ℕ) (d : Option Cdict) (level : ℕ) (src : List ℕ) (room : ℕ)
    → All IsByte src
    → IsDict d
    → length src + length (dict_bytes d) < 2 ^ 62
    → length src ≤ room
    → IsReady c
    → 9 * length src + 31 ≤ dst_cap
    → (written : List ℕ) × ((lzb_compress (some h) (some m) c dst_cap d level src).0 ≡ ret written)
      × (lzb_decompress room (dict_bytes d) written ≡ ret src)
lzb_round_trip h m c dst_cap d level src room bytes ok_dict word big ready fits =
    let (written, e) = returned src bytes word big fits in
    (
      written,
      e,
      lzb_decompress-lzb_compress (some h) (some m) c dst_cap d level src written room bytes ok_dict
          word big e,
    )
  where
    returned :
        (s : List ℕ)
        → All IsByte s
        → length s + length (dict_bytes d) < 2 ^ 62
        → length s ≤ room
        → 9 * length s + 31 ≤ dst_cap
        → (written : List ℕ) × ((lzb_compress (some h) (some m) c dst_cap d level s).0
            ≡ ret written)
    returned [] bytes word big fits = ([], unfold lzb_compress in refl)
    returned (b ∷ bs) bytes word big fits =
        unfold lzb_compress cctx_prepare in
        compress_prepared_returns room dst_cap d level (b ∷ bs) _ bytes ok_dict word big fits (
          and_chain-Prepared m c (length (b ∷ bs)) _ ready (omega arith)
            (prepare_head-Headed h c (length (b ∷ bs))))
