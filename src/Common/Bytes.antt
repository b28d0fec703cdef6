-- ===== src/Common/Bytes.antt =====
-- src/common/xq_bits.h: little-endian loads and stores. A pointer is the list of the bytes from
-- it on; a store returns the bytes that it writes. `IsByte` bounds the elements of a buffer.
use xq.Base.{ℕ, ◌+◌, ◌*◌, ◌/◌, ◌%◌, ◌^◌, ◌<◌, ◌≡◌, List, [], ◌∷◌, ◌++◌, bit_or, arith}
use xq.Base.{get_or, drop, All, All-get_or, All-drop}
use xq.Base.Bits.{bit_or_fields}
pub mod RoundTrip
use native.Mathlib.Nat.{mod-eq_of_lt}
use xq.Common.Checked.{IsU64}

abbrev pub IsByte : ℕ → Type 0
IsByte b = b < 256

abbrev pub IsU16 : ℕ → Type 0
IsU16 v = v < 0x1_0000

abbrev pub IsU32 : ℕ → Type 0
IsU32 v = v < 0x1_0000_0000

-- `p[i]`
abbrev pub byte_at : List ℕ → ℕ → ℕ
byte_at p i = get_or p i 0

-- `x << k` at width `w`
abbrev pub shl : ℕ → ℕ → ℕ → ℕ
shl w x k = x * 2 ^ k % 2 ^ w

unfoldable pub ld8 : List ℕ → ℕ
ld8 p = byte_at p 0

unfoldable pub ld16le : List ℕ → ℕ
ld16le p = bit_or (byte_at p 0) (shl 32 (byte_at p 1) 8) % 2 ^ 16

unfoldable pub ld32le : List ℕ → ℕ
ld32le p =
    bit_or (bit_or (bit_or (byte_at p 0) (shl 32 (byte_at p 1) 8)) (shl 32 (byte_at p 2) 16))
      (shl 32 (byte_at p 3) 24)

unfoldable pub ld64le : List ℕ → ℕ
ld64le p = bit_or (ld32le p) (shl 64 (ld32le (drop 4 p)) 32)

unfoldable pub st8 : ℕ → List ℕ
st8 v = v % 2 ^ 8 ∷ []

unfoldable pub st16le : ℕ → List ℕ
st16le v = v % 2 ^ 8 ∷ v / 2 ^ 8 % 2 ^ 8 ∷ []

unfoldable pub st32le : ℕ → List ℕ
st32le v = v % 2 ^ 8 ∷ v / 2 ^ 8 % 2 ^ 8 ∷ v / 2 ^ 16 % 2 ^ 8 ∷ v / 2 ^ 24 % 2 ^ 8 ∷ []

unfoldable pub st64le : ℕ → List ℕ
st64le v = st32le (v % 2 ^ 32) ++ st32le (v / 2 ^ 32 % 2 ^ 32)

-- `r | (x << k)` at width `w`, where nothing overlaps and nothing is shifted out.
or_shl : (w k r x : ℕ) → r < 2 ^ k → x * 2 ^ k < 2 ^ w → bit_or r (shl w x k) ≡ r + x * 2 ^ k
or_shl w k r x hr hx = rw (mod-eq_of_lt hx) (bit_or_fields k r x hr)

-- The loads as sums, wherever the bytes that they read are bytes.
pub ld16le_sum_of :
    (p : List ℕ)
    → byte_at p 0 < 256
    → byte_at p 1 < 256
    → ld16le p ≡ byte_at p 0 + byte_at p 1 * 256
unfolding ld16le
ld16le_sum_of p b0 b1 = rw (or_shl 32 8 (byte_at p 0) (byte_at p 1) b0 (omega arith)) (omega arith)

pub ld32le_sum_of :
    (p : List ℕ)
    → byte_at p 0 < 256
    → byte_at p 1 < 256
    → byte_at p 2 < 256
    → byte_at p 3 < 256
    → ld32le p
      ≡ byte_at p 0 + byte_at p 1 * 0x100 + byte_at p 2 * 0x1_0000 + byte_at p 3 * 0x100_0000
unfolding ld32le
ld32le_sum_of p b0 b1 b2 b3 = rw (first, second) (omega (arith, third))
  where
    first : bit_or (byte_at p 0) (shl 32 (byte_at p 1) 8) ≡ byte_at p 0 + byte_at p 1 * 2 ^ 8
    first = or_shl 32 8 (byte_at p 0) (byte_at p 1) b0 (omega (arith, b1))

    second :
        bit_or (byte_at p 0 + byte_at p 1 * 2 ^ 8) (shl 32 (byte_at p 2) 16)
        ≡ byte_at p 0 + byte_at p 1 * 2 ^ 8 + byte_at p 2 * 2 ^ 16
    second = or_shl 32 16 _ (byte_at p 2) (omega (arith, b0, b1)) (omega (arith, b2))

    third :
        bit_or (byte_at p 0 + byte_at p 1 * 2 ^ 8 + byte_at p 2 * 2 ^ 16) (shl 32 (byte_at p 3) 24)
        ≡ byte_at p 0 + byte_at p 1 * 2 ^ 8 + byte_at p 2 * 2 ^ 16 + byte_at p 3 * 2 ^ 24
    third = or_shl 32 24 _ (byte_at p 3) (omega (arith, b0, b1, b2)) (omega (arith, b3))

pub ld64le_sum_of :
    (p : List ℕ)
    → IsU32 (ld32le p)
    → IsU32 (ld32le (drop 4 p))
    → ld64le p ≡ ld32le p + ld32le (drop 4 p) * 0x1_0000_0000
unfolding ld64le
ld64le_sum_of p low high = or_shl 64 32 (ld32le p) (ld32le (drop 4 p)) low (omega arith)

module _ (p : List ℕ) (h : All IsByte p) where
  byte_at-IsByte : (i : ℕ) → byte_at p i < 256
  byte_at-IsByte i = All-get_or IsByte 0 (omega arith) p i h

  pub ld8-lt : ld8 p < 256
  unfolding ld8
  ld8-lt = byte_at-IsByte 0

  pub ld16le_sum : ld16le p ≡ byte_at p 0 + byte_at p 1 * 256
  ld16le_sum = ld16le_sum_of p (byte_at-IsByte 0) (byte_at-IsByte 1)

  pub ld32le_sum :
      ld32le p
      ≡ byte_at p 0 + byte_at p 1 * 0x100 + byte_at p 2 * 0x1_0000 + byte_at p 3 * 0x100_0000
  ld32le_sum =
      ld32le_sum_of p (byte_at-IsByte 0) (byte_at-IsByte 1) (byte_at-IsByte 2) (byte_at-IsByte 3)

  pub ld16le-lt : ld16le p < 0x1_0000
  ld16le-lt = omega (arith, ld16le_sum, byte_at-IsByte 0, byte_at-IsByte 1)

  pub ld32le-lt : ld32le p < 0x1_0000_0000
  ld32le-lt =
      omega
        (arith, ld32le_sum, byte_at-IsByte 0, byte_at-IsByte 1, byte_at-IsByte 2, byte_at-IsByte 3)

pub ld64le_sum :
    (p : List ℕ) → All IsByte p → ld64le p ≡ ld32le p + ld32le (drop 4 p) * 0x1_0000_0000
ld64le_sum p h = ld64le_sum_of p (ld32le-lt p h) (ld32le-lt (drop 4 p) (All-drop IsByte 4 p h))

pub ld64le-lt : (p : List ℕ) → All IsByte p → IsU64 (ld64le p)
ld64le-lt p h =
    omega (arith, ld64le_sum p h, ld32le-lt p h, ld32le-lt (drop 4 p) (All-drop IsByte 4 p h))
