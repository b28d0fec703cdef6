-- ===== src/Base/Bits.antt =====
-- The native `bit_and`, `bit_or` and `bit_xor` at variables: one equation for the lowest digit,
-- then fields, masks and bounds.
use Prim.Native.Nat.{
  ℕ, zero, suc, ◌+◌, ◌-◌, ◌*◌, ◌/◌, ◌%◌, ◌^◌, ◌≤◌, ◌<◌, min, max, digits, bitwise, differ,
}
use Prim.Native.Nat.{bit_and, bit_or, bit_xor, bit_and-bitwise, bit_or-bitwise, bit_xor-bitwise}
use mathlib.Core.Path.{◌≡◌, refl, ap}
use native.Mathlib.Nat.{le_refl, pow-suc, one-le-pow}
use native.Mathlib.Omega.{arith}

module _ (end : ℕ → ℕ) (on_digits : ℕ → ℕ → ℕ) where
  -- Any fuel from the left operand on gives the same digits.
  fuel_free :
      (x y k l : ℕ) → x ≤ l → x ≤ k → digits end on_digits k x y ≡ digits end on_digits l x y
  fuel_free (suc x) y (suc k) (suc l) below_l below_k =
      rw (fuel_free (suc x / 2) (y / 2) k l (omega arith) (omega arith))
  fuel_free (suc x) y (suc k) zero below_l below_k = absurd (omega arith)
  fuel_free (suc x) y zero l below_l below_k = absurd (omega arith)
  fuel_free zero y zero zero below_l below_k = refl
  fuel_free zero y zero (suc l) below_l below_k = refl
  fuel_free zero y (suc k) zero below_l below_k = refl
  fuel_free zero y (suc k) (suc l) below_l below_k = refl

  lowest_digit :
      (x y : ℕ)
      → bitwise end on_digits (suc x) y
        ≡ bitwise end on_digits (suc x / 2) (y / 2) * 2 + on_digits (suc x % 2) (y % 2)
  lowest_digit x y =
      let same = fuel_free (suc x / 2) (y / 2) x (suc x / 2) (le_refl _) (omega arith) in
      omega (arith, same)

pub bit_and_step : (x y : ℕ) → bit_and x y ≡ bit_and (x / 2) (y / 2) * 2 + min (x % 2) (y % 2)
bit_and_step (suc x) y = simp bit_and-bitwise (lowest_digit (λ _. 0) min x y)
bit_and_step zero y = simp bit_and-bitwise (omega arith)

pub bit_or_step : (x y : ℕ) → bit_or x y ≡ bit_or (x / 2) (y / 2) * 2 + max (x % 2) (y % 2)
bit_or_step (suc x) y = simp bit_or-bitwise (lowest_digit (λ d. d) max x y)
bit_or_step zero y = simp bit_or-bitwise (omega arith)

zero-bit_or : (b : ℕ) → bit_or 0 b ≡ b
zero-bit_or b = simp bit_or-bitwise

zero-bit_and : (b : ℕ) → bit_and 0 b ≡ 0
zero-bit_and b = simp bit_and-bitwise

pow_suc_mul : (q k : ℕ) → q * 2 ^ suc k ≡ 2 * (q * 2 ^ k)
pow_suc_mul q k = omega (arith, ap (λ (t : ℕ). q * t) (pow-suc 2 k))

-- `r | (q << k)` is a sum where `r` fits `k` bits.
pub bit_or_fields : (k r q : ℕ) → r < 2 ^ k → bit_or r (q * 2 ^ k) ≡ r + q * 2 ^ k
bit_or_fields zero r q fits = let e : r ≡ 0 = omega arith in rw (e, zero-bit_or) (omega arith)
bit_or_fields (suc k) r q fits = ground (
  arith,
  bit_or_step r (q * 2 ^ suc k),
  pow_suc_mul q k,
  pow-suc 2 k,
  bit_or_fields k (r / 2) q (omega (arith, pow-suc 2 k)),
)

-- Nothing added, and nothing kept, by zero: induction on a bound of the number.
zero_on_right : (bound x : ℕ) → x ≤ bound → (bit_or x 0 ≡ x) × (bit_and x 0 ≡ 0)
zero_on_right bound zero fits = (refl, refl)
zero_on_right (suc bound) (suc x) fits =
    let (or_rest, and_rest) = zero_on_right bound (suc x / 2) (omega arith) in
    (omega (arith, bit_or_step (suc x) 0, or_rest), omega (arith, bit_and_step (suc x) 0, and_rest))
zero_on_right zero (suc x) fits = absurd (omega arith)

bit_or-zero_lem : (x : ℕ) → bit_or x 0 ≡ x
bit_or-zero_lem x = (zero_on_right x x (le_refl x)).0

bit_and-zero_lem : (x : ℕ) → bit_and x 0 ≡ 0
bit_and-zero_lem x = (zero_on_right x x (le_refl x)).1

bit_and_fields : (k q r : ℕ) → r < 2 ^ k → bit_and (q * 2 ^ k + r) (2 ^ k - 1) ≡ r
bit_and_fields zero q r fits = rw (bit_and-zero_lem (q * 1 + r)) (omega arith)
bit_and_fields (suc k) q r fits = ground (
  arith,
  bit_and_step (q * 2 ^ suc k + r) (2 ^ suc k - 1),
  pow_suc_mul q k,
  pow-suc 2 k,
  bit_and_fields k q (r / 2) (omega (arith, pow-suc 2 k)),
)

-- A mask of `k` low ones is the remainder by `2 ^ k`.
pub bit_and_mask : (k a : ℕ) → bit_and a (2 ^ k - 1) ≡ a % 2 ^ k
bit_and_mask k a = ground (arith, one-le-pow k 2, bit_and_fields k (a / 2 ^ k) (a % 2 ^ k))

-- `(q << k) | r`
pub bit_or_high : (k q r : ℕ) → r < 2 ^ k → bit_or (q * 2 ^ k) r ≡ q * 2 ^ k + r
bit_or_high zero q r fits =
    let e : r ≡ 0 = omega arith in rw e (omega (arith, bit_or-zero_lem (q * 1)))
bit_or_high (suc k) q r fits = ground (
  arith,
  bit_or_step (q * 2 ^ suc k) r,
  pow_suc_mul q k,
  pow-suc 2 k,
  bit_or_high k q (r / 2) (omega (arith, pow-suc 2 k)),
)

differ_lem : (x y : ℕ) → x < 2 → y < 2 → differ x y ≡ (x + y) % 2
differ_lem zero y p q = omega arith
differ_lem (suc zero) zero p q = refl
differ_lem (suc zero) (suc zero) p q = refl
differ_lem (suc zero) (suc (suc y)) p q = absurd (omega arith)
differ_lem (suc (suc x)) y p q = absurd (omega arith)

pub bit_xor_step : (a b : ℕ) → bit_xor a b ≡ bit_xor (a / 2) (b / 2) * 2 + (a % 2 + b % 2) % 2
bit_xor_step zero b = simp bit_xor-bitwise (omega arith)
bit_xor_step (suc a) b =
    simp (bit_xor-bitwise, lowest_digit (λ d. d) differ a b)
      (omega (arith, differ_lem (suc a % 2) (b % 2) (omega arith) (omega arith)))

pub bit_xor-lt : (k a b : ℕ) → a < 2 ^ k → b < 2 ^ k → bit_xor a b < 2 ^ k
bit_xor-lt zero a b p q =
    let e : a ≡ 0 = omega arith in let f : b ≡ 0 = omega arith in rw (e, f) (omega arith)
bit_xor-lt (suc k) a b p q = omega (
  arith,
  bit_xor_step a b,
  pow-suc 2 k,
  bit_xor-lt k (a / 2) (b / 2) (omega (arith, pow-suc 2 k)) (omega (arith, pow-suc 2 k)),
)

pub bit_and-zero : (a : ℕ) → bit_and a 0 ≡ 0
bit_and-zero a = bit_and-zero_lem a

pub bit_and-one : (a : ℕ) → bit_and a 1 ≡ a % 2
bit_and-one a = bit_and_mask 1 a

pub bit_and-two : (a : ℕ) → bit_and a 2 ≡ a / 2 % 2 * 2
bit_and-two a = omega (arith, bit_and_step a 2, bit_and-one (a / 2))

pub bit_and-four : (a : ℕ) → bit_and a 4 ≡ a / 4 % 2 * 4
bit_and-four a = omega (arith, bit_and_step a 4, bit_and-two (a / 2))

-- A mask whose lowest bit is clear.
pub bit_and_even : (a m : ℕ) → bit_and a (2 * m) ≡ bit_and (a / 2) m * 2
bit_and_even a m = omega (arith, bit_and_step a (2 * m), ap (bit_and (a / 2)) half)
  where
    half : 2 * m / 2 ≡ m
    half = omega arith

-- A number below `2 ^ k` is not seen by a mask above it, and a mask of one bit reads that bit.
pub bit_or_even : (a m : ℕ) → bit_or a (2 * m) ≡ bit_or (a / 2) m * 2 + a % 2
bit_or_even a m = omega (arith, bit_or_step a (2 * m), ap (bit_or (a / 2)) half)
  where
    half : 2 * m / 2 ≡ m
    half = omega arith

pub bit_or-zero : (a : ℕ) → bit_or a 0 ≡ a
bit_or-zero a = bit_or-zero_lem a

pub bit_or-one : (a : ℕ) → bit_or a 1 ≡ a / 2 * 2 + 1
bit_or-one a = omega (arith, bit_or_step a 1, bit_or-zero (a / 2))

-- Setting and reading the top bit of a byte.
pub bit_or_80 : (v : ℕ) → bit_or v 0x80 % 256 ≡ v % 128 + 128
bit_or_80 v = omega (arith, s0, s1, s2, s3, s4, s5, s6, bit_or-one (v / 2 / 2 / 2 / 2 / 2 / 2 / 2))
  where
    s0 : bit_or v 0x80 ≡ bit_or (v / 2) 0x40 * 2 + v % 2
    s0 = bit_or_even v 0x40

    s1 : bit_or (v / 2) 0x40 ≡ bit_or (v / 2 / 2) 0x20 * 2 + v / 2 % 2
    s1 = bit_or_even (v / 2) 0x20

    s2 : bit_or (v / 2 / 2) 0x20 ≡ bit_or (v / 2 / 2 / 2) 0x10 * 2 + v / 2 / 2 % 2
    s2 = bit_or_even (v / 2 / 2) 0x10

    s3 : bit_or (v / 2 / 2 / 2) 0x10 ≡ bit_or (v / 2 / 2 / 2 / 2) 8 * 2 + v / 2 / 2 / 2 % 2
    s3 = bit_or_even (v / 2 / 2 / 2) 8

    s4 : bit_or (v / 2 / 2 / 2 / 2) 8 ≡ bit_or (v / 2 / 2 / 2 / 2 / 2) 4 * 2 + v / 2 / 2 / 2 / 2 % 2
    s4 = bit_or_even (v / 2 / 2 / 2 / 2) 4

    s5 :
        bit_or (v / 2 / 2 / 2 / 2 / 2) 4
        ≡ bit_or (v / 2 / 2 / 2 / 2 / 2 / 2) 2 * 2 + v / 2 / 2 / 2 / 2 / 2 % 2
    s5 = bit_or_even (v / 2 / 2 / 2 / 2 / 2) 2

    s6 :
        bit_or (v / 2 / 2 / 2 / 2 / 2 / 2) 2
        ≡ bit_or (v / 2 / 2 / 2 / 2 / 2 / 2 / 2) 1 * 2 + v / 2 / 2 / 2 / 2 / 2 / 2 % 2
    s6 = bit_or_even (v / 2 / 2 / 2 / 2 / 2 / 2) 1

pub bit_and_80 : (v : ℕ) → bit_and v 0x80 ≡ v / 128 % 2 * 128
bit_and_80 v = omega (arith, s0, s1, s2, s3, s4, bit_and-four (v / 2 / 2 / 2 / 2 / 2))
  where
    s0 : bit_and v 0x80 ≡ bit_and (v / 2) 0x40 * 2
    s0 = bit_and_even v 0x40

    s1 : bit_and (v / 2) 0x40 ≡ bit_and (v / 2 / 2) 0x20 * 2
    s1 = bit_and_even (v / 2) 0x20

    s2 : bit_and (v / 2 / 2) 0x20 ≡ bit_and (v / 2 / 2 / 2) 0x10 * 2
    s2 = bit_and_even (v / 2 / 2) 0x10

    s3 : bit_and (v / 2 / 2 / 2) 0x10 ≡ bit_and (v / 2 / 2 / 2 / 2) 8 * 2
    s3 = bit_and_even (v / 2 / 2 / 2) 8

    s4 : bit_and (v / 2 / 2 / 2 / 2) 8 ≡ bit_and (v / 2 / 2 / 2 / 2 / 2) 4 * 2
    s4 = bit_and_even (v / 2 / 2 / 2 / 2) 4

pub bit_or-lt : (k a b : ℕ) → a < 2 ^ k → b < 2 ^ k → bit_or a b < 2 ^ k
bit_or-lt zero a b p q =
    let e : a ≡ 0 = omega arith in let f : b ≡ 0 = omega arith in rw (e, f) (omega arith)
bit_or-lt (suc k) a b p q = omega (
  arith,
  bit_or_step a b,
  pow-suc 2 k,
  bit_or-lt k (a / 2) (b / 2) (omega (arith, pow-suc 2 k)) (omega (arith, pow-suc 2 k)),
)
