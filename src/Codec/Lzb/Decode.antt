-- ===== src/Codec/Lzb/Decode.antt =====
-- `xq_lzb_decompress`. `rest` is `src` from `ip` on, `out` the part of `dst` that is written, so
-- `op` is its length, and `dict` holds the bytes of the dictionary, none without one. `op` never
-- passes `dst_cap`, so `dst_cap - op` does not wrap.
pub mod Window
pub mod Total
use xq.Base.{
  ℕ, zero, suc, ◌+◌, ◌-◌, ◌/◌, ◌%◌, ◌^◌, List, [], ◌∷◌, ◌++◌, none, some, true, false, ltb, ◌==◌,
  ◌||◌, if◌then◌else◌, length, drop, bit_and,
}
use xq.Common.Bytes.{byte_at}
use xq.Status.{Status, err_corrupt_block, err_dst_too_small}
use xq.Codec.Exec.{
  Exec, ret, fail, fault, out_of_fuel, ◌>>=◌, ◌>>◌, fail_if, read_bytes, append_bytes,
}
use xq.Codec.Varint.{get_varint}

abbrev pub lzb_min_match : ℕ
lzb_min_match = 4

abbrev pub size_max : ℕ
size_max = 0xffff_ffff_ffff_ffff

-- The literal length of a token.
unfoldable pub decode_litlen : ℕ → List ℕ → Exec (ℕ × List ℕ)
decode_litlen token rest =
    let litlen = token / 2 ^ 4 in
    if litlen == 15
    then (elim (get_varint rest) [
      | none ↦ fail err_corrupt_block
      | some (ext, rest') ↦
          if ltb (size_max - 15) ext then fail err_corrupt_block else ret (litlen + ext, rest')
    ])
    else ret (litlen, rest)

-- `if (litlen) { … memcpy(dst + op, src + ip, litlen); … }`
unfoldable pub copy_literals : ℕ → ℕ → List ℕ → List ℕ → Exec (List ℕ × List ℕ)
copy_literals dst_cap litlen rest out =
    let copied = do
      fail_if (ltb (length rest) litlen) err_corrupt_block
      fail_if (ltb (dst_cap - length out) litlen) err_dst_too_small
      bytes ← read_bytes rest 0 litlen
      out' ← append_bytes dst_cap out bytes
      ret (drop litlen rest, out')
    in if litlen == 0 then ret (rest, out) else copied

-- The match length of a token with `mcode` other than 0.
unfoldable pub decode_mlen : ℕ → List ℕ → Exec (ℕ × List ℕ)
decode_mlen mcode rest =
    let mlen = mcode - 1 + lzb_min_match in
    if mcode == 15
    then (elim (get_varint rest) [
      | none ↦ fail err_corrupt_block
      | some (ext, rest') ↦
          if ltb (size_max - mlen) ext
          then fail err_corrupt_block
          else ret (lzb_min_match + 14 + ext, rest')
    ])
    else ret (mlen, rest)

-- `for (i = 0; i < mlen; i++) dst[op + i] = m[i];` with `m = dst + op - dist`: every byte is read
-- `dist` behind the one that is written, inside what is written, or the run faults.
unfoldable pub copy_match : ℕ → ℕ → ℕ → List ℕ → Exec (List ℕ)
copy_match dst_cap dist zero out = ret out
copy_match dst_cap dist (suc n) out =
    let more = do
      out' ← append_bytes dst_cap out (byte_at out (length out - dist) ∷ [])
      copy_match dst_cap dist n out'
    in if (dist == 0) || ltb (length out) dist then fault else more

-- The copy of a match, the part before the output from the end of the dictionary.
unfoldable pub decode_copy : ℕ → List ℕ → ℕ → ℕ → List ℕ → Exec (List ℕ)
decode_copy dst_cap dict dist mlen out =
    let back = dist - length out in
    let from_dict = if ltb back mlen then back else mlen in
    let across = do
      fail_if (ltb (length dict) back) err_corrupt_block
      bytes ← read_bytes dict (length dict - back) from_dict
      out' ← append_bytes dst_cap out bytes
      copy_match dst_cap (length out') (mlen - from_dict) out'
    in if ltb (length out) dist then across else copy_match dst_cap dist mlen out

-- Distance, length and copy of a match.
unfoldable pub decode_match : ℕ → List ℕ → ℕ → List ℕ → List ℕ → Exec (List ℕ × List ℕ)
decode_match dst_cap dict mcode rest out = elim (get_varint rest) [
  | none ↦ fail err_corrupt_block
  | some (dist, rest') ↦ do
    fail_if (dist == 0) err_corrupt_block
    (mlen, rest'') ← decode_mlen mcode rest'
    fail_if (ltb ((length out + length dict) % 2 ^ 64) dist) err_corrupt_block
    fail_if (ltb (dst_cap - length out) mlen) err_dst_too_small
    out' ← decode_copy dst_cap dict dist mlen out
    ret (rest'', out')
]

-- The literals of a token.
unfoldable pub decode_literals : ℕ → ℕ → List ℕ → List ℕ → Exec (List ℕ × List ℕ)
decode_literals dst_cap token rest out = do
  (litlen, rest') ← decode_litlen token rest
  copy_literals dst_cap litlen rest' out

-- The `while`: every round takes a byte at least, so a round for each byte is enough.
unfoldable pub decode_loop : ℕ → ℕ → List ℕ → List ℕ → List ℕ → Exec (List ℕ)
decode_loop fuel dst_cap dict [] out = ret out
decode_loop zero dst_cap dict (token ∷ rest) out = out_of_fuel
decode_loop (suc fuel) dst_cap dict (token ∷ rest) out =
    let mcode = bit_and token 0x0f in
    decode_literals dst_cap token rest out >>= λ (rest', out').
    let more = decode_match dst_cap dict mcode rest' out' >>= λ (rest'', out'').
    decode_loop fuel dst_cap dict rest'' out'' in
    if mcode == 0 then ret out' else more

-- `xq_lzb_decompress`: the bytes that it writes. An empty source gives none, as the loop does.
unfoldable pub lzb_decompress : ℕ → List ℕ → List ℕ → Exec (List ℕ)
lzb_decompress dst_cap dict src =
    if length src == 0 then ret [] else decode_loop (length src) dst_cap dict src []
