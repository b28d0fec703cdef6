-- ===== src/Common/Bytes/RoundTrip.antt =====
-- The loads read back what the stores wrote, whatever follows, and the stores write back the bytes
-- that the loads read.
use xq.Base.{ℕ, ◌+◌, ◌*◌, ◌/◌, ◌%◌, ◌^◌, ◌≤◌, ◌≡◌, List, [], ◌∷◌, ◌++◌, arith}
use xq.Base.{take_add, All-drop, length-drop, length, take, drop, All}
use xq.Common.Checked.{IsU64}
use xq.Common.Bytes.{
  IsByte, IsU16, IsU32, ld8, ld16le, ld32le, ld64le, st8, st16le, st32le, st64le, ld16le_sum_of,
  ld32le_sum_of, ld64le_sum_of, ld16le_sum, ld32le_sum, ld64le_sum, ld32le-lt,
}

pub ld8-st8 : (v : ℕ) (rest : List ℕ) → IsByte v → ld8 (st8 v ++ rest) ≡ v
unfolding ld8 st8
ld8-st8 v rest h = omega arith

pub ld16le-st16le : (v : ℕ) (rest : List ℕ) → IsU16 v → ld16le (st16le v ++ rest) ≡ v
unfolding st16le
ld16le-st16le v rest h = omega (arith, ld16le_sum_of (st16le v ++ rest) (omega arith) (omega arith))

pub ld32le-st32le : (v : ℕ) (rest : List ℕ) → IsU32 v → ld32le (st32le v ++ rest) ≡ v
unfolding st32le
ld32le-st32le v rest h = omega (
  arith,
  ld32le_sum_of (st32le v ++ rest) (omega arith) (omega arith) (omega arith) (omega arith),
)

pub ld64le-st64le : (v : ℕ) (rest : List ℕ) → IsU64 v → ld64le (st64le v ++ rest) ≡ v
ld64le-st64le v rest h = omega (arith, whole, low, high)
  where
    tail : List ℕ
    tail = st32le (v / 2 ^ 32 % 2 ^ 32) ++ rest

    low : ld32le (st64le v ++ rest) ≡ v % 2 ^ 32
    low = unfold st64le st32le in ld32le-st32le (v % 2 ^ 32) tail (omega arith)

    high : ld32le (drop 4 (st64le v ++ rest)) ≡ v / 2 ^ 32 % 2 ^ 32
    high = unfold st64le st32le in ld32le-st32le (v / 2 ^ 32 % 2 ^ 32) rest (omega arith)

    whole :
        ld64le (st64le v ++ rest)
        ≡ ld32le (st64le v ++ rest) + ld32le (drop 4 (st64le v ++ rest)) * 0x1_0000_0000
    whole = ld64le_sum_of (st64le v ++ rest) (omega (arith, low)) (omega (arith, high))

pub st16le-ld16le : (p : List ℕ) → All IsByte p → 2 ≤ length p → st16le (ld16le p) ≡ take 2 p
unfolding st16le
st16le-ld16le [] h n = absurd (omega arith)
st16le-ld16le (a ∷ []) h n = absurd (omega arith)
st16le-ld16le (a ∷ b ∷ r) h n = ground (arith, ld16le_sum (a ∷ b ∷ r) h)

pub st32le-ld32le : (p : List ℕ) → All IsByte p → 4 ≤ length p → st32le (ld32le p) ≡ take 4 p
unfolding st32le
st32le-ld32le [] h n = absurd (omega arith)
st32le-ld32le (a ∷ []) h n = absurd (omega arith)
st32le-ld32le (a ∷ b ∷ []) h n = absurd (omega arith)
st32le-ld32le (a ∷ b ∷ c ∷ []) h n = absurd (omega arith)
st32le-ld32le (a ∷ b ∷ c ∷ d ∷ r) h n = ground (arith, ld32le_sum (a ∷ b ∷ c ∷ d ∷ r) h)

pub st64le-ld64le : (p : List ℕ) → All IsByte p → 8 ≤ length p → st64le (ld64le p) ≡ take 8 p
unfolding st64le
st64le-ld64le p h n =
    rw (low, high, st32le-ld32le p h (omega arith), st32le-ld32le (drop 4 p) h' n') (take_add 4 4 p)
  where
    h' : All IsByte (drop 4 p)
    h' = All-drop IsByte 4 p h

    n' : 4 ≤ length (drop 4 p)
    n' = omega (arith, length-drop 4 p)

    low : ld64le p % 2 ^ 32 ≡ ld32le p
    low = omega (arith, ld64le_sum p h, ld32le-lt p h, ld32le-lt (drop 4 p) h')

    high : ld64le p / 2 ^ 32 % 2 ^ 32 ≡ ld32le (drop 4 p)
    high = omega (arith, ld64le_sum p h, ld32le-lt p h, ld32le-lt (drop 4 p) h')

pub st8-ld8 : (p : List ℕ) → All IsByte p → 1 ≤ length p → st8 (ld8 p) ≡ take 1 p
unfolding st8 ld8
st8-ld8 [] h n = absurd (omega arith)
st8-ld8 (a ∷ r) h n = ground arith
