-- ===== src/Codec/Lzb/Sequence/Round.antt =====
-- One round of `xq_lzb_decompress` on a sequence that `emit_seq` of src/codec/xq_codec_lzb.c wrote.
use xq.Base.{
  ℕ, ◌+◌, ◌-◌, ◌/◌, ◌%◌, ◌^◌, ◌≤◌, ◌<◌, ◌≡◌, refl, ap, sym, ◌∙◌, List, [], ◌∷◌, ◌++◌, append_assoc,
  append-nil, true, false, ltb, ◌==◌, ◌!=◌, ◌&&◌, length, length-append, take, drop-append,
  take-append, arith, Bool-cases, inl, inr,
}
use xq.Common.Checked.{IsU64}
use xq.Codec.Exec.{ret, read_bytes_ok, append_bytes_ok}
use xq.Codec.Varint.RoundTrip.{varint, get_varint-varint}
use xq.Codec.Lzb.Decode.{
  lzb_min_match, decode_litlen, copy_literals, decode_mlen, decode_copy, decode_match,
  decode_literals,
}
use xq.Codec.Lzb.Encode.{match_code}
use xq.Codec.Lzb.Sequence.{lit_code, token_of, varint_if, match_part, token_of_codes}

decode_litlen-token :
    (n mlen : ℕ) (rest : List ℕ)
    → IsU64 n
    → decode_litlen (token_of n mlen) (varint_if (lit_code n == 15) (n - 15) ++ rest)
      ≡ ret (n, rest)
unfolding decode_litlen
decode_litlen-token n mlen rest word = elim (Bool-cases (ltb n 15)) [
  | inl short ↦
      let code : token_of n mlen / 2 ^ 4 ≡ n = (token_of_codes n mlen).0 ∙ ground arith in
      let lower : (n == 15) ≡ false = ground arith in rw (code, short, lower)
  | inr long ↦
      let code : token_of n mlen / 2 ^ 4 ≡ 15 = (token_of_codes n mlen).0 ∙ ground arith in
      let fits : ltb (0xffff_ffff_ffff_ffff - 15) (n - 15) ≡ false = ground arith in
      rw (code, long, get_varint-varint (n - 15) rest (omega arith), fits)
        (ap (λ (k : ℕ). ret (k, rest)) (ground arith))
]

copy_literals-append :
    (dst_cap : ℕ) (lits rest out : List ℕ)
    → length out + length lits ≤ dst_cap
    → copy_literals dst_cap (length lits) (lits ++ rest) out ≡ ret (rest, out ++ lits)
unfolding copy_literals
copy_literals-append dst_cap [] rest out room = ap (λ o. ret (rest, o)) (sym (append-nil out))
copy_literals-append dst_cap (l ∷ lits) rest out room =
    rw
      (
        some_lits,
        in_src,
        in_dst,
        read_bytes_ok whole 0 n (omega (arith, length-append (l ∷ lits) rest)),
        append_bytes_ok dst_cap out (take n whole) (omega (arith, ap length front)),
        front,
      )
      (ap (λ r. ret (r, out ++ (l ∷ lits))) (drop-append n (l ∷ lits) rest refl))
  where
    n : ℕ
    n = length (l ∷ lits)

    whole : List ℕ
    whole = (l ∷ lits) ++ rest

    front : take n whole ≡ l ∷ lits
    front = take-append n (l ∷ lits) rest refl

    some_lits : (n == 0) ≡ false
    some_lits = ground arith

    in_src : ltb (length whole) n ≡ false
    in_src = ground (arith, length-append (l ∷ lits) rest)

    in_dst : ltb (dst_cap - length out) n ≡ false
    in_dst = ground arith

-- The literals of a sequence are appended.
pub decode_literals-token :
    (dst_cap : ℕ) (lits : List ℕ) (mlen : ℕ) (rest out : List ℕ)
    → IsU64 (length lits)
    → length out + length lits ≤ dst_cap
    → decode_literals dst_cap
        (token_of (length lits) mlen)
        (varint_if (lit_code (length lits) == 15) (length lits - 15) ++ (lits ++ rest))
        out
      ≡ ret (rest, out ++ lits)
unfolding decode_literals
decode_literals-token dst_cap lits mlen rest out word room =
    rw (decode_litlen-token (length lits) mlen (lits ++ rest) word)
      (copy_literals-append dst_cap lits rest out room)

decode_mlen-long :
    (ext : ℕ) (rest : List ℕ)
    → IsU64 (18 + ext)
    → decode_mlen 15 (varint ext ++ rest) ≡ ret (18 + ext, rest)
unfolding decode_mlen
decode_mlen-long ext rest word =
    let fits : ltb (0xffff_ffff_ffff_ffff - 18) ext ≡ false = ground arith in
    rw (get_varint-varint ext rest (omega arith), fits)

decode_mlen-short :
    (mcode : ℕ) (rest : List ℕ) → mcode < 15 → decode_mlen mcode rest ≡ ret (mcode - 1 + 4, rest)
unfolding decode_mlen
decode_mlen-short mcode rest h = ground arith

decode_mlen-code :
    (mlen : ℕ) (rest : List ℕ)
    → 4 ≤ mlen
    → IsU64 mlen
    → decode_mlen
        (match_code mlen)
        (varint_if ((mlen != 0) && (match_code mlen == 15)) (mlen - lzb_min_match - 14) ++ rest)
      ≡ ret (mlen, rest)
decode_mlen-code mlen rest long word = elim (Bool-cases (ltb (mlen - 4) 14)) [
  | inl short ↦
      let code : match_code mlen ≡ mlen - 3 = unfold match_code in ground arith in
      let one_byte : (mlen - 3 == 15) ≡ false = ground arith in
      rw (nonzero, code, one_byte)
        (decode_mlen-short (mlen - 3) rest (ground arith)
          ∙ ap (λ (k : ℕ). ret (k, rest)) (ground arith))
  | inr far ↦
      let code : match_code mlen ≡ 15 = unfold match_code in ground arith in
      rw (nonzero, code)
        (decode_mlen-long (mlen - 4 - 14) rest (ground arith)
          ∙ ap (λ (k : ℕ). ret (k, rest)) (ground arith))
]
  where
    nonzero : (mlen != 0) ≡ true
    nonzero = ground arith

-- The match of a sequence is copied.
pub decode_match-part :
    (dst_cap : ℕ) (dict : List ℕ) (dist mlen : ℕ) (rest out result : List ℕ)
    → 4 ≤ mlen
    → IsU64 mlen
    → 1 ≤ dist
    → dist ≤ length out + length dict
    → IsU64 (length out + length dict)
    → length out + mlen ≤ dst_cap
    → decode_copy dst_cap dict dist mlen out ≡ ret result
    → decode_match dst_cap dict (match_code mlen) (match_part dist mlen ++ rest) out
      ≡ ret (rest, result)
unfolding decode_match
decode_match-part dst_cap dict dist mlen rest out result long word forward inside fits room copied =
    rw (
      bytes,
      decode_match,
      get_varint-varint dist (ext ++ rest) (omega arith),
      some_dist,
      decode_mlen-code mlen rest long word,
      near,
      short,
      copied,
    )
  where
    ext : List ℕ
    ext = varint_if ((mlen != 0) && (match_code mlen == 15)) (mlen - lzb_min_match - 14)

    nonzero : (mlen != 0) ≡ true
    nonzero = ground arith

    bytes : match_part dist mlen ++ rest ≡ varint dist ++ (ext ++ rest)
    bytes =
        ap (λ b. (varint_if b dist ++ ext) ++ rest) nonzero ∙ append_assoc (varint dist) ext rest

    some_dist : (dist == 0) ≡ false
    some_dist = ground arith

    near : ltb ((length out + length dict) % 2 ^ 64) dist ≡ false
    near = ground arith

    short : ltb (dst_cap - length out) mlen ≡ false
    short = ground arith
