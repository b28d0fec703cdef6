-- ===== src/Codec/Varint.antt =====
-- src/codec/xq_codec_lzb.c and xq_codec_lze.c: numbers in groups of seven bits. `out` is the part of
-- the destination that is written, so `*pos` is its length; `src` is what is left from `*pos` on.
pub mod RoundTrip
use xq.Base.{
  ℕ, zero, suc, ◌+◌, ◌*◌, ◌/◌, ◌%◌, ◌^◌, List, [], ◌∷◌, ◌++◌, Option, none, some, Bool, true, false,
  ltb, leb, ◌==◌, if◌then◌else◌, ◌>=>◌, length, bit_and, bit_or,
}
use xq.Common.Bytes.{shl}

-- `if (*pos >= dst_cap) return 0; dst[(*pos)++] = b;`
unfoldable pub put_byte : ℕ → List ℕ → ℕ → Option (List ℕ)
put_byte dst_cap out b = if leb dst_cap (length out) then none else some (out ++ (b ∷ []))

-- The `while` of `put_varint`, on fuel: with none left, the loop has ended for a 64-bit `v`.
unfoldable pub put_loop : ℕ → ℕ → List ℕ → ℕ → Option (List ℕ)
put_loop zero dst_cap out v = put_byte dst_cap out (v % 2 ^ 8)
put_loop (suc f) dst_cap out v =
    let more = put_byte dst_cap out (bit_or v 0x80 % 2 ^ 8) >=> λ out'.
    put_loop f dst_cap out' (v / 2 ^ 7) in
    if ltb v 0x80 then put_byte dst_cap out (v % 2 ^ 8) else more

-- `put_varint`: nine rounds of the loop leave less than seven bits of a 64-bit number.
unfoldable pub put_varint : ℕ → List ℕ → ℕ → Option (List ℕ)
put_varint dst_cap out v = put_loop 9 dst_cap out v

-- The `for` of `get_varint` in xq_codec_lzb.c
unfoldable pub get_loop : List ℕ → ℕ → ℕ → Option (ℕ × List ℕ)
get_loop [] v shift = none
get_loop (b ∷ rest) v shift =
    let v' = bit_or v (shl 64 (bit_and b 0x7f) shift) in
    let more = get_loop rest v' (shift + 7) in
    if ltb 63 shift
    then none
    else (if bit_and b 0x80 == 0
        then some (v', rest)
        else (if leb 64 (shift + 7) then none else more))

-- `get_varint`
unfoldable pub get_varint : List ℕ → Option (ℕ × List ℕ)
get_varint src = get_loop src 0 0
