-- ===== src/Common/Crc32c/Reference.antt =====
-- The table-driven loop against the bit-serial definition of CRC-32C (polynomial 0x82F63B78,
-- reflected).
use xq.Base.{
  ℕ, zero, suc, ◌*◌, ◌/◌, ◌%◌, ◌^◌, ◌<◌, ◌≡◌, refl, ap, sym, ◌∙◌, List, [], ◌∷◌, arith, Bool, true,
  ◌&&◌, ◌==◌, if◌then◌else◌, All, get_or, bit_xor, bit_and,
}
use native.Mathlib.Nat.{pow-suc, one-le-pow}
use xq.Base.Bits.{bit_and_mask}
use xq.Base.Xor.{
  bit_xor_low, bit_xor_half, bit_xor_comm, bit_xor_assoc, bit_xor_self, bit_xor-zero, zero-bit_xor,
  bit_xor_fields, bit_xor_shr,
}
use xq.Common.Bytes.{IsByte}
use xq.Common.Crc32c.Table.{crc32c_tab}
use xq.Common.Crc32c.{complement32, crc32c_byte, crc32c_loop, crc32c_update}

abbrev pub polynomial : ℕ
polynomial = 0x82F6_3B78

-- One bit of the shift register.
pub crc_bit : ℕ → ℕ
crc_bit c = bit_xor (c / 2) (if c % 2 == 1 then polynomial else 0)

pub crc_bits : ℕ → ℕ → ℕ
crc_bits zero c = c
crc_bits (suc n) c = crc_bits n (crc_bit c)

-- The reference: every byte is added to the low bits, then eight bits are shifted out.
pub crc_serial : ℕ → List ℕ → ℕ
crc_serial c [] = c
crc_serial c (b ∷ bs) = crc_serial (crc_bits 8 (bit_xor c b)) bs

pub crc32c_reference : ℕ → List ℕ → ℕ
crc32c_reference crc bytes = complement32 (crc_serial (complement32 crc) bytes)

-- Exchanging the middle pair of an exclusive or of four.
interchange :
    (a b c d : ℕ) → bit_xor (bit_xor a b) (bit_xor c d) ≡ bit_xor (bit_xor a c) (bit_xor b d)
interchange a b c d =
    bit_xor_assoc a b (bit_xor c d)
    ∙ ap (bit_xor a)
        (sym (bit_xor_assoc b c d) ∙ ap (λ t. bit_xor t d) (bit_xor_comm b c) ∙ bit_xor_assoc c b d)
    ∙ sym (bit_xor_assoc a c (bit_xor b d))

abbrev feedback : ℕ → ℕ
feedback c = if c % 2 == 1 then polynomial else 0

feedback-bit_xor : (a b : ℕ) → feedback (bit_xor a b) ≡ bit_xor (feedback a) (feedback b)
feedback-bit_xor a b = ground (
  arith,
  bit_xor_low a b,
  bit_xor_self polynomial,
  bit_xor-zero polynomial,
  zero-bit_xor polynomial,
  bit_xor-zero 0,
)

crc_bit-bit_xor : (a b : ℕ) → crc_bit (bit_xor a b) ≡ bit_xor (crc_bit a) (crc_bit b)
unfolding crc_bit
crc_bit-bit_xor a b =
    rw (bit_xor_half a b, feedback-bit_xor a b)
      (interchange (a / 2) (b / 2) (feedback a) (feedback b))

crc_bits-bit_xor : (n a b : ℕ) → crc_bits n (bit_xor a b) ≡ bit_xor (crc_bits n a) (crc_bits n b)
unfolding crc_bits
crc_bits-bit_xor zero a b = refl
crc_bits-bit_xor (suc n) a b = rw crc_bit-bit_xor (crc_bits-bit_xor n (crc_bit a) (crc_bit b))

crc_bit-even : (q : ℕ) → crc_bit (2 * q) ≡ q
unfolding crc_bit
crc_bit-even q = ground (arith, bit_xor-zero (2 * q / 2))

crc_bits-shift : (n q : ℕ) → crc_bits n (q * 2 ^ n) ≡ q
unfolding crc_bits
crc_bits-shift zero q = omega arith
crc_bits-shift (suc n) q = rw (double, crc_bit-even) (crc_bits-shift n q)
  where
    double : q * 2 ^ suc n ≡ 2 * (q * 2 ^ n)
    double = omega (arith, ap (λ (t : ℕ). q * t) (pow-suc 2 n))

-- The high bits only move down.
crc_bits-split : (n x : ℕ) → crc_bits n x ≡ bit_xor (crc_bits n (x % 2 ^ n)) (x / 2 ^ n)
crc_bits-split n x =
    ap (crc_bits n) (sym fields)
    ∙ crc_bits-bit_xor n (x % 2 ^ n) (x / 2 ^ n * 2 ^ n)
    ∙ ap (bit_xor (crc_bits n (x % 2 ^ n))) (crc_bits-shift n (x / 2 ^ n))
  where
    fields : bit_xor (x % 2 ^ n) (x / 2 ^ n * 2 ^ n) ≡ x
    fields = ground (arith, one-le-pow n 2, bit_xor_fields n (x / 2 ^ n) (x % 2 ^ n))

-- Entries `0 .. n` of the table are what eight serial steps make of their index.
table_agrees : ℕ → Bool
table_agrees zero = true
table_agrees (suc n) = (get_or crc32c_tab n 0 == crc_bits 8 n) && table_agrees n

table_agrees_sound :
    (n i : ℕ) → table_agrees n ≡ true → i < n → get_or crc32c_tab i 0 ≡ crc_bits 8 i
unfolding table_agrees
table_agrees_sound zero i e h = absurd (omega arith)
table_agrees_sound (suc n) i e h = ground (arith, table_agrees_sound n i)

table_checked : table_agrees 256 ≡ true
unfolding table_agrees crc32c_tab crc_bits crc_bit
table_checked = refl

low_byte : (x : ℕ) → bit_and x 0xff ≡ x % 256
low_byte x = bit_and_mask 8 x

high_bits : (c b : ℕ) → IsByte b → bit_xor c b / 256 ≡ c / 256
high_bits c b h = bit_xor_shr 8 c b ∙ rw none_left (bit_xor-zero (c / 256))
  where
    none_left : b / 2 ^ 8 ≡ 0
    none_left = omega arith

crc32c_byte_serial : (c b : ℕ) → IsByte b → crc32c_byte c b ≡ crc_bits 8 (bit_xor c b)
unfolding crc32c_byte
crc32c_byte_serial c b h = ground (
  arith,
  low_byte (bit_xor c b),
  high_bits c b h,
  table_agrees_sound 256 (bit_xor c b % 256) table_checked (omega arith),
  crc_bits-split 8 (bit_xor c b),
)

loop_serial : (c : ℕ) (bytes : List ℕ) → All IsByte bytes → crc32c_loop c bytes ≡ crc_serial c bytes
unfolding crc32c_loop crc_serial
loop_serial c [] h = refl
loop_serial c (b ∷ bs) (hb, hs) =
    rw (crc32c_byte_serial c b hb) (loop_serial (crc_bits 8 (bit_xor c b)) bs hs)

-- On bytes, the table-driven checksum is the bit-serial CRC-32C, from every running value.
pub crc32c_update-eq-reference :
    (crc : ℕ) (bytes : List ℕ)
    → All IsByte bytes
    → crc32c_update crc bytes ≡ crc32c_reference crc bytes
unfolding crc32c_update crc32c_reference
crc32c_update-eq-reference crc bytes h = ap complement32 (loop_serial (complement32 crc) bytes h)
