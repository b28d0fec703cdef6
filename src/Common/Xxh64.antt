-- ===== src/Common/Xxh64.antt =====
-- src/common/xq_xxh64.c: the 64-bit hash, of a whole buffer and in pieces. A pair of a pointer and a
-- length is the list of the bytes that it spans; a loop over the bytes has their number as its fuel.
-- The four accumulators `v1` to `v4` are one record, in the function and in the state alike.
pub mod Blocks
pub mod Bounds
pub mod Stream
use xq.Base.{
  ℕ, zero, suc, ◌+◌, ◌-◌, ◌*◌, ◌/◌, ◌%◌, ◌^◌, min, List, [], ◌∷◌, ◌++◌, Bool, true, false, bit_or,
  bit_xor, ltb, leb, ◌!=◌, if◌then◌else◌, length, take, drop,
}
use xq.Common.Bytes.{ld32le, ld64le, shl}

abbrev p1 : ℕ
p1 = 11400714785074694791

abbrev p2 : ℕ
p2 = 14029467366897019727

abbrev p3 : ℕ
p3 = 1609587929392839161

abbrev p4 : ℕ
p4 = 9650029242287828579

abbrev pub p5 : ℕ
p5 = 2870177450012600261

-- `a + b` and `a * b` on `uint64_t`
abbrev pub add64 : ℕ → ℕ → ℕ
add64 a b = (a + b) % 2 ^ 64

abbrev mul64 : ℕ → ℕ → ℕ
mul64 a b = a * b % 2 ^ 64

unfoldable pub rotl64 : ℕ → ℕ → ℕ
rotl64 x r = bit_or (shl 64 x r) (x / 2 ^ (64 - r))

unfoldable pub round64 : ℕ → ℕ → ℕ
round64 acc input = let added = add64 acc (mul64 input p2) in mul64 (rotl64 added 31) p1

unfoldable pub merge_round : ℕ → ℕ → ℕ
merge_round acc val = add64 (mul64 (bit_xor acc (round64 0 val)) p1) p4

pub record Lanes : Type 0 where
  pub v1 : ℕ
  pub v2 : ℕ
  pub v3 : ℕ
  pub v4 : ℕ

unfoldable pub lanes_init : ℕ → Lanes
lanes_init seed = record {
  v1 = add64 (add64 seed p1) p2;
  v2 = add64 seed p2;
  v3 = add64 seed 0;
  v4 = (seed + 2 ^ 64 - p1) % 2 ^ 64;
}

-- The four rounds on the 32 bytes at `p`.
unfoldable pub round_lanes : Lanes → List ℕ → Lanes
round_lanes v p = record {
  v1 = round64 v.v1 (ld64le p);
  v2 = round64 v.v2 (ld64le (drop 8 p));
  v3 = round64 v.v3 (ld64le (drop 16 p));
  v4 = round64 v.v4 (ld64le (drop 24 p));
}

-- The rounds while 32 bytes are left, and the bytes after them.
unfoldable pub lanes_loop : ℕ → Lanes → List ℕ → Lanes × List ℕ
lanes_loop zero v p = (v, p)
lanes_loop (suc fuel) v p = elim (leb 32 (length p)) [
  | true ↦ lanes_loop fuel (round_lanes v p) (drop 32 p)
  | false ↦ (v, p)
]

unfoldable pub merge_lanes : Lanes → ℕ
merge_lanes v =
    let sum =
      add64 (add64 (add64 (rotl64 v.v1 1) (rotl64 v.v2 7)) (rotl64 v.v3 12)) (rotl64 v.v4 18) in
    merge_round (merge_round (merge_round (merge_round sum v.v1) v.v2) v.v3) v.v4

-- `while (end - p >= 8)`
unfoldable pub words_loop : ℕ → ℕ → List ℕ → ℕ × List ℕ
words_loop zero h p = (h, p)
words_loop (suc fuel) h p = elim (leb 8 (length p)) [
  | true ↦
      let mixed = bit_xor h (round64 0 (ld64le p)) in
      words_loop fuel (add64 (mul64 (rotl64 mixed 27) p1) p4) (drop 8 p)
  | false ↦ (h, p)
]

-- `if (end - p >= 4)`
unfoldable pub half_word : ℕ → List ℕ → ℕ × List ℕ
half_word h p = elim (leb 4 (length p)) [
  | true ↦
      let mixed = bit_xor h (mul64 (ld32le p) p1) in
      (add64 (mul64 (rotl64 mixed 23) p2) p3, drop 4 p)
  | false ↦ (h, p)
]

-- `while (p < end)`
unfoldable pub bytes_loop : ℕ → List ℕ → ℕ
bytes_loop h [] = h
bytes_loop h (b ∷ p) = bytes_loop (mul64 (rotl64 (bit_xor h (mul64 b p5)) 11) p1) p

unfoldable pub avalanche : ℕ → ℕ
avalanche h0 =
    let h1 = mul64 (bit_xor h0 (h0 / 2 ^ 33)) p2 in
    let h2 = mul64 (bit_xor h1 (h1 / 2 ^ 29)) p3 in bit_xor h2 (h2 / 2 ^ 32)

-- From `h += len` on, which the two functions share.
unfoldable pub hash_tail : ℕ → List ℕ → ℕ
hash_tail h p =
    let (h1, p1) = words_loop (length p) h p in
    let (h2, p2) = half_word h1 p1 in avalanche (bytes_loop h2 p2)

unfoldable pub xxh64 : List ℕ → ℕ → ℕ
xxh64 bytes seed = elim (leb 32 (length bytes)) [
  | true ↦
      let (v, rest) = lanes_loop (length bytes) (lanes_init seed) bytes in
      hash_tail (add64 (merge_lanes v) (length bytes)) rest
  | false ↦ hash_tail (add64 (add64 seed p5) (length bytes)) bytes
]

pub record Xxh64State : Type 0 where
  pub lanes : Lanes
  pub total : ℕ
  pub buffered : ℕ
  pub seed : ℕ
  pub buf : List ℕ

-- `buf` holds what the memory holds before the call.
unfoldable pub xxh64_init : List ℕ → ℕ → Xxh64State
xxh64_init memory s = record {
  lanes = lanes_init s;
  total = 0;
  buffered = 0;
  seed = s;
  buf = memory;
}

-- The copy of the bytes of `p` to `s->buf + at`.
unfoldable pub copy_at : List ℕ → ℕ → List ℕ → List ℕ
copy_at buf at p = take at buf ++ (p ++ drop (at + length p) buf)

-- `if (p < end)`: the copy of the bytes that no round took.
unfoldable pub keep_rest : Xxh64State → List ℕ → Xxh64State
keep_rest s [] = s
keep_rest s (b ∷ bs) = record {
  lanes = s.lanes;
  total = s.total;
  buffered = length (b ∷ bs);
  seed = s.seed;
  buf = copy_at (s.buf) 0 (b ∷ bs);
}

-- The rounds on what follows the buffered bytes, and the copy of the rest.
unfoldable pub absorb : Xxh64State → List ℕ → Xxh64State
absorb s p =
    let (v, rest) = lanes_loop (length p) (s.lanes) p in
    keep_rest
      (record { lanes = v; total = s.total; buffered = s.buffered; seed = s.seed; buf = s.buf })
      rest

unfoldable pub xxh64_update : Xxh64State → List ℕ → Xxh64State
xxh64_update s p =
    let total_after = add64 (s.total) (length p) in
    let n = min (length p) (32 - s.buffered) in
    let filled = copy_at (s.buf) (s.buffered) (take n p) in
    elim (s.buffered != 0) [
      | true ↦ elim (ltb (s.buffered + n) 32) [
        | true ↦ record {
          lanes = s.lanes;
          total = total_after;
          buffered = s.buffered + n;
          seed = s.seed;
          buf = filled;
        }
        | false ↦
            absorb
              (record {
                lanes = round_lanes (s.lanes) filled;
                total = total_after;
                buffered = 0;
                seed = s.seed;
                buf = filled;
              })
              (drop n p)
      ]
      | false ↦
          absorb
            (record {
              lanes = s.lanes;
              total = total_after;
              buffered = s.buffered;
              seed = s.seed;
              buf = s.buf;
            })
            p
    ]

unfoldable pub xxh64_final : Xxh64State → ℕ
xxh64_final s = elim (leb 32 (s.total)) [
  | true ↦ hash_tail (add64 (merge_lanes (s.lanes)) (s.total)) (take (s.buffered) (s.buf))
  | false ↦ hash_tail (add64 (add64 (s.seed) p5) (s.total)) (take (s.buffered) (s.buf))
]
