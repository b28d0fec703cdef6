-- ===== src/Codec/Lzb/Decode/Total.antt =====
-- `xq_lzb_decompress` on any input at all: no read or write outside a buffer, and an end.
use xq.Status.{err_corrupt_block, err_dst_too_small}
use xq.Codec.Lzb.Decode.Window.{decode_copy-Extends}
use xq.Base.{
  ltb-false→le, ℕ, zero, suc, ◌+◌, ◌-◌, ◌%◌, ◌^◌, ◌≤◌, ◌≡◌, List, [], ◌∷◌, false, ltb, ◌==◌, length,
  length-append, length-drop, length-take, take, arith, Bool-cases, Option-cases, inl, inr, bit_and,
}
use xq.Codec.Exec.{
  Exec, ret, fail, fault, out_of_fuel, ◌>>=◌, ◌>>◌, fail_if, Safe, Safe-cases, read_bytes_ok,
  append_bytes_ok,
}
use xq.Codec.Varint.{get_varint}
use xq.Codec.Varint.RoundTrip.{get_varint_takes}
use xq.Codec.Lzb.Decode.{
  decode_litlen, copy_literals, decode_mlen, decode_copy, decode_match, decode_literals,
  decode_loop, lzb_decompress,
}

abbrev Shorter : List ℕ → ℕ × List ℕ → Type 0
Shorter rest p = length p.1 ≤ length rest

-- What a part of the loop leaves: no more source than before, and no more output than fits.
abbrev Within : ℕ → List ℕ → List ℕ × List ℕ → Type 0
Within dst_cap rest p = (length p.0 ≤ length rest) × (length p.1 ≤ dst_cap)

decode_litlen_safe : (token : ℕ) (rest : List ℕ) → Safe (decode_litlen token rest) (Shorter rest)
unfolding decode_litlen
decode_litlen_safe token rest = elim (Option-cases (get_varint rest)) [
  | inl e ↦ rw e (ground arith)
  | inr ((ext, rest'), e) ↦ rw e (ground (arith, get_varint_takes rest ext rest' e))
]

decode_mlen_safe : (mcode : ℕ) (rest : List ℕ) → Safe (decode_mlen mcode rest) (Shorter rest)
unfolding decode_mlen
decode_mlen_safe mcode rest = elim (Option-cases (get_varint rest)) [
  | inl e ↦ rw e (ground arith)
  | inr ((ext, rest'), e) ↦ rw e (ground (arith, get_varint_takes rest ext rest' e))
]

copy_literals_safe :
    (dst_cap litlen : ℕ) (rest out : List ℕ)
    → length out ≤ dst_cap
    → Safe (copy_literals dst_cap litlen rest out) (Within dst_cap rest)
unfolding copy_literals
copy_literals_safe dst_cap litlen rest out h = ground (
  arith,
  read_bytes_ok rest 0 litlen,
  append_bytes_ok dst_cap out (take litlen rest),
  length-take litlen rest,
  length-drop litlen rest,
  length-append out (take litlen rest),
)

Within-mono :
    (dst_cap : ℕ) (rest rest0 : List ℕ)
    → length rest ≤ length rest0
    → (m : Exec (List ℕ × List ℕ)) → Safe m (Within dst_cap rest)
    → Safe m (Within dst_cap rest0)
Within-mono dst_cap rest rest0 h (ret p) (a, b) = (omega arith, b)
Within-mono dst_cap rest rest0 h (fail st) s = s
Within-mono dst_cap rest rest0 h fault s = s
Within-mono dst_cap rest rest0 h out_of_fuel s = s

decode_literals_safe :
    (dst_cap token : ℕ) (rest out : List ℕ)
    → length out ≤ dst_cap
    → Safe (decode_literals dst_cap token rest out) (Within dst_cap rest)
unfolding decode_literals
decode_literals_safe dst_cap token rest out h =
    elim (Safe-cases (Shorter rest) (decode_litlen token rest) (decode_litlen_safe token rest)) [
      | inr (st, e) ↦ rw e tt
      | inl ((litlen, rest'), e, shorter) ↦ rw e (
          Within-mono dst_cap rest' rest shorter (copy_literals dst_cap litlen rest' out)
            (copy_literals_safe dst_cap litlen rest' out h))
    ]

-- The copy runs where the checks before it leave it, so the rest of the round is safe.
decode_copy_safe :
    (dst_cap : ℕ) (dict : List ℕ) (mlen dist : ℕ) (rest0 rest out : List ℕ)
    → 1 ≤ dist
    → length rest ≤ length rest0
    → length out ≤ dst_cap
    → Safe
        (do
          fail_if (ltb ((length out + length dict) % 2 ^ 64) dist) err_corrupt_block
          fail_if (ltb (dst_cap - length out) mlen) err_dst_too_small
          out' ← decode_copy dst_cap dict dist mlen out
          ret (rest, out'))
        (Within dst_cap rest0)
decode_copy_safe dst_cap dict mlen dist rest0 rest out p shorter h =
    elim (Bool-cases (ltb ((length out + length dict) % 2 ^ 64) dist)) [
      | inl e ↦ rw e tt
      | inr e ↦ elim (Bool-cases (ltb (dst_cap - length out) mlen)) [
        | inl e' ↦ rw (e, e') tt
        | inr e' ↦
            let copy = decode_copy-Extends dst_cap dict mlen dist out p (inside e) (fits e') in
            rw (e, e', copy.runs) (shorter, omega (arith, copy.size, fits e'))
      ]
    ]
  where
    fits : ltb (dst_cap - length out) mlen ≡ false → length out + mlen ≤ dst_cap
    fits e' = omega (arith, ltb-false→le (dst_cap - length out) mlen e')

    inside :
        ltb ((length out + length dict) % 2 ^ 64) dist ≡ false → dist ≤ length out + length dict
    inside e = omega (arith, ltb-false→le ((length out + length dict) % 2 ^ 64) dist e)

decode_match_safe :
    (dst_cap : ℕ) (dict : List ℕ) (mcode : ℕ) (rest out : List ℕ)
    → length out ≤ dst_cap
    → Safe (decode_match dst_cap dict mcode rest out) (Within dst_cap rest)
unfolding decode_match
decode_match_safe dst_cap dict mcode rest out h = elim (Option-cases (get_varint rest)) [
  | inl e ↦ rw (decode_match, e) tt
  | inr ((dist, rest'), e) ↦ elim (Bool-cases (dist == 0)) [
    | inl z ↦ rw (decode_match, e, z) tt
    | inr z ↦
        elim (Safe-cases (Shorter rest') (decode_mlen mcode rest') (decode_mlen_safe mcode rest')) [
          | inr (st, e') ↦ rw (decode_match, e, z, e') tt
          | inl ((mlen, rest''), e', shorter) ↦
              rw (decode_match, e, z, e')
                (decode_copy_safe dst_cap dict mlen dist rest rest'' out (ground arith)
                  (omega (arith, get_varint_takes rest dist rest' e)) h)
        ]
  ]
]

decode_loop_safe :
    (fuel dst_cap : ℕ) (dict src out : List ℕ)
    → length src ≤ fuel
    → length out ≤ dst_cap
    → Safe (decode_loop fuel dst_cap dict src out) (λ o. length o ≤ dst_cap)
unfolding decode_loop
decode_loop_safe fuel dst_cap dict [] out p h = h
decode_loop_safe zero dst_cap dict (token ∷ rest) out p h = absurd (omega arith)
decode_loop_safe (suc fuel) dst_cap dict (token ∷ rest) out p h =
    elim (Safe-cases (Within dst_cap rest) (decode_literals dst_cap token rest out)
      (decode_literals_safe dst_cap token rest out h)) [
        | inr (st, e) ↦ rw e tt
        | inl ((rest', out'), e, (shorter, fits)) ↦ elim (Bool-cases (bit_and token 0x0f == 0)) [
          | inl z ↦ rw (e, z) fits
          | inr z ↦
              elim (Safe-cases (Within dst_cap rest')
                (decode_match dst_cap dict (bit_and token 0x0f) rest' out')
                (decode_match_safe dst_cap dict (bit_and token 0x0f) rest' out' fits)) [
                  | inr (st, e') ↦ rw (e, z, e') tt
                  | inl ((rest'', out''), e', (shorter', fits')) ↦
                      rw (e, z, e')
                        (decode_loop_safe fuel dst_cap dict rest'' out'' (omega arith) fits')
                ]
        ]
      ]

-- On any source, dictionary and capacity at all, the decoder ends within a round for each source
-- byte, reads and writes only inside its buffers, and what it returns fits the destination: it
-- fails with a status or returns at most `dst_cap` bytes.
pub lzb_decompress-Safe :
    (dst_cap : ℕ) (dict src : List ℕ)
    → Safe (lzb_decompress dst_cap dict src) (λ o. length o ≤ dst_cap)
unfolding lzb_decompress
lzb_decompress-Safe dst_cap dict src = elim (Bool-cases (length src == 0)) [
  | inl z ↦ rw z (omega arith)
  | inr z ↦ rw z (decode_loop_safe (length src) dst_cap dict src [] (omega arith) (omega arith))
]
