-- ===== src/Codec/Varint/RoundTrip.antt =====
-- What `put_varint` writes, `get_varint` reads back; and what each of them does on any input.
use xq.Base.{
  ℕ, zero, suc, ◌+◌, ◌*◌, ◌/◌, ◌%◌, ◌^◌, ◌≤◌, ◌<◌, ◌≡◌, ap, ◌∙◌, List, [], ◌∷◌, ◌++◌, append_assoc,
  none, some, ltb, if◌then◌else◌, length, length-append, bit_and, bit_or, arith, Bool-cases, inl,
  inr, All,
}
use native.Mathlib.Nat.{mod-eq_of_lt, div-add-mod}
use native.Mathlib.Decide.{dec_lt}
use native.Mathlib.Numerals.{towards_suc}
use xq.Base.Bits.{bit_or_80, bit_and_80, bit_and_mask, bit_or_fields, bit_or-lt}
use xq.Common.Checked.{IsU64}
use xq.Common.Bytes.{IsByte, shl}
use xq.Codec.Varint.{put_byte, put_loop, put_varint, get_loop, get_varint}

-- The groups of seven bits of `v`, lowest first, for `v` below `128 ^ (f + 1)`.
unfoldable pub encoding : ℕ → ℕ → List ℕ
encoding zero v = v % 2 ^ 8 ∷ []
encoding (suc f) v =
    let more = (v % 128 + 128) ∷ encoding f (v / 128) in if ltb v 128 then v ∷ [] else more

length-encoding : (f v : ℕ) → (1 ≤ length (encoding f v)) × (length (encoding f v) ≤ f + 1)
unfolding encoding
length-encoding zero v = omega arith
length-encoding (suc f) v = ground (arith, length-encoding f (v / 128))

encoding-IsByte : (f v : ℕ) → All IsByte (encoding f v)
unfolding encoding
encoding-IsByte zero v = omega arith
encoding-IsByte (suc f) v = ground (arith, encoding-IsByte f (v / 128))

module _ (dst_cap : ℕ) where
  put_byte_room :
      (out : List ℕ) (b : ℕ)
      → length out < dst_cap
      → put_byte dst_cap out b ≡ some (out ++ (b ∷ []))
  unfolding put_byte
  put_byte_room out b h = ground arith

  put_byte_full : (out : List ℕ) (b : ℕ) → dst_cap ≤ length out → put_byte dst_cap out b ≡ none
  unfolding put_byte
  put_byte_full out b h = ground arith

  put_loop-encoding :
      (f : ℕ) (out : List ℕ) (v : ℕ)
      → length out + length (encoding f v) ≤ dst_cap
      → put_loop f dst_cap out v ≡ some (out ++ encoding f v)
  unfolding put_loop encoding
  put_loop-encoding zero out v h = put_byte_room out (v % 2 ^ 8) (omega arith)
  put_loop-encoding (suc f) out v h = elim (Bool-cases (ltb v 0x80)) [
    | inl small ↦
        let e : v % 256 ≡ v = ground arith in rw (small, e) (put_byte_room out v (ground arith))
    | inr large ↦
        rw (large, bit_or_80 v, put_byte_room out (v % 128 + 128) (ground arith))
          (put_loop-encoding f (out ++ ((v % 128 + 128) ∷ [])) (v / 128)
              (ground (arith, length-append out ((v % 128 + 128) ∷ [])))
            ∙ ap some (append_assoc out ((v % 128 + 128) ∷ []) (encoding f (v / 128))))
  ]

  put_loop_full :
      (f : ℕ) (out : List ℕ) (v : ℕ)
      → dst_cap < length out + length (encoding f v)
      → put_loop f dst_cap out v ≡ none
  unfolding put_loop encoding
  put_loop_full zero out v h = put_byte_full out (v % 2 ^ 8) (omega arith)
  put_loop_full (suc f) out v h = elim (Bool-cases (ltb v 0x80)) [
    | inl small ↦ rw small (put_byte_full out (v % 256) (ground arith))
    | inr large ↦ elim (dec_lt (length out) dst_cap) [
      | yes room ↦
          rw (large, bit_or_80 v, put_byte_room out (v % 128 + 128) room)
            (put_loop_full f (out ++ ((v % 128 + 128) ∷ [])) (v / 128)
              (ground (arith, length-append out ((v % 128 + 128) ∷ []))))
      | no full ↦ rw (large, put_byte_full out (bit_or v 0x80 % 256) (omega arith))
    ]
  ]

-- The bytes of a 64-bit number: one to ten.
abbrev pub varint : ℕ → List ℕ
varint v = encoding 9 v

pub length-varint : (v : ℕ) → (1 ≤ length (varint v)) × (length (varint v) ≤ 10)
length-varint v = length-encoding 9 v

pub varint-IsByte : (v : ℕ) → All IsByte (varint v)
varint-IsByte v = encoding-IsByte 9 v

-- `put_varint` appends the bytes of the number where they fit the capacity, and fails where they do
-- not.
pub put_varint_exact :
    (dst_cap : ℕ) (out : List ℕ) (v : ℕ)
    → (length out + length (varint v) ≤ dst_cap → put_varint dst_cap out v ≡ some (out ++ varint v))
      × (dst_cap < length out + length (varint v) → put_varint dst_cap out v ≡ none)
unfolding put_varint
put_varint_exact dst_cap out v = (put_loop-encoding dst_cap 9 out v, put_loop_full dst_cap 9 out v)

-- One round of `get_loop` on a last byte and on a byte with the top bit set.
last_byte :
    (w v shift : ℕ) (rest : List ℕ)
    → w < 128
    → shift ≤ 63
    → v < 2 ^ shift
    → IsU64 (v + w * 2 ^ shift)
    → get_loop (w ∷ rest) v shift ≡ some (v + w * 2 ^ shift, rest)
unfolding get_loop
last_byte w v shift rest hw hs hv fits = ground (
  arith,
  bit_and_80 w,
  bit_and_mask 7 w,
  bit_or_fields shift v w hv,
  mod-eq_of_lt {n = w * 2 ^ shift} {m = 2 ^ 64} (omega arith),
)

inner_byte :
    (g v shift : ℕ) (rest : List ℕ)
    → g < 128
    → shift < 57
    → v < 2 ^ shift
    → IsU64 (v + g * 2 ^ shift)
    → get_loop ((g + 128) ∷ rest) v shift ≡ get_loop rest (v + g * 2 ^ shift) (shift + 7)
unfolding get_loop
inner_byte g v shift rest hg hs hv fits = ground (
  arith,
  bit_and_80 (g + 128),
  bit_and_mask 7 (g + 128),
  bit_or_fields shift v g hv,
  mod-eq_of_lt {n = g * 2 ^ shift} {m = 2 ^ 64} (omega arith),
)

next_weight : (shift : ℕ) → 128 * 2 ^ shift ≡ 2 ^ (shift + 7)
next_weight shift = simp towards_suc (omega arith)

-- A number at bit `k` is its lowest group there and the other groups seven bits above.
groups_at : (k v : ℕ) → v % 128 * 2 ^ k + v / 128 * 2 ^ (k + 7) ≡ v * 2 ^ k
groups_at k v =
    let high = ap (λ (weight : ℕ). v / 128 * weight) (next_weight k) in
    let whole = ap (λ (u : ℕ). u * 2 ^ k) (div-add-mod v 128) in omega (arith, high, whole)

group_fits : (v g p : ℕ) → v < p → g < 128 → v + g * p < 128 * p
group_fits v g p h k = grind arith

-- `w` is what is still to be read, and it counts from bit `shift` on.
get_loop-encoding :
    (f w v shift : ℕ) (rest : List ℕ)
    → w < 128 ^ suc f
    → shift + 7 * f ≤ 63
    → v < 2 ^ shift
    → IsU64 (v + w * 2 ^ shift)
    → get_loop (encoding f w ++ rest) v shift ≡ some (v + w * 2 ^ shift, rest)
unfolding encoding
get_loop-encoding zero w v shift rest hw hs hv fits =
    let e : w % 256 ≡ w = omega arith in
    rw e (last_byte w v shift rest (omega arith) (omega arith) hv fits)
get_loop-encoding (suc f) w v shift rest hw hs hv fits = elim (Bool-cases (ltb w 128)) [
  | inl small ↦ rw small (last_byte w v shift rest (ground arith) (omega arith) hv fits)
  | inr large ↦
      rw
        (
          large,
          inner_byte (w % 128) v shift (encoding f (w / 128) ++ rest) (omega arith) (omega arith) hv
              (omega (arith, groups_at shift w)),
          get_loop-encoding f (w / 128) (v + w % 128 * 2 ^ shift) (shift + 7) rest (omega arith)
              (omega arith)
              (omega
                (arith, next_weight shift, group_fits v (w % 128) (2 ^ shift) hv (omega arith)))
              (omega (arith, groups_at shift w)),
        )
        (ap (λ (t : ℕ). some (t, rest)) (omega (arith, groups_at shift w)))
]

-- `get_varint` reads back every 64-bit number that `put_varint` wrote, and leaves what follows.
pub get_varint-varint :
    (v : ℕ) (rest : List ℕ) → IsU64 v → get_varint (varint v ++ rest) ≡ some (v, rest)
unfolding get_varint
get_varint-varint v rest h =
    get_loop-encoding 9 v 0 0 rest (omega arith) (omega arith) (omega arith) (omega arith)
    ∙ ap (λ (t : ℕ). some (t, rest)) (omega arith)

get_loop_takes :
    (src : List ℕ) (v shift j w : ℕ) (rest : List ℕ)
    → IsU64 v
    → shift ≡ 7 * j
    → get_loop src v shift ≡ some (w, rest)
    → IsU64 w × (length rest < length src) × (length src + j ≤ length rest + 10)
unfolding get_loop
get_loop_takes [] v shift j w rest hv hs e = cc
get_loop_takes (b ∷ bs) v shift j w rest hv hs e = ground (
  arith,
  bit_or-lt 64 v (shl 64 (bit_and b 0x7f) shift) hv (omega arith),
  get_loop_takes bs (bit_or v (shl 64 (bit_and b 0x7f) shift)) (shift + 7) (j + 1) w rest,
)

-- On any input, what `get_varint` returns is a 64-bit number, and it took one to ten bytes.
pub get_varint_takes :
    (src : List ℕ) (v : ℕ) (rest : List ℕ)
    → get_varint src ≡ some (v, rest)
    → IsU64 v × (length rest < length src) × (length src ≤ length rest + 10)
unfolding get_varint
get_varint_takes src v rest e = ground (arith, get_loop_takes src 0 0 0 v rest)
