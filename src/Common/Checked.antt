-- ===== src/Common/Checked.antt =====
-- src/common/xq_checked.h. A function that reports success and writes `*out` returns an option.
use xq.Base.{ℕ, ◌+◌, ◌-◌, ◌*◌, ◌/◌, ◌≤◌, ◌<◌, ◌≡◌, ◌↔◌, Bool, true, false, ◌&&◌, Option, none, some}
use xq.Base.{arith, ltb, leb, ◌!=◌, if◌then◌else◌}
use native.Mathlib.Nat.{div-mul-le_self}

abbrev pub uint64_max : ℕ
uint64_max = 0xffff_ffff_ffff_ffff

abbrev pub IsU64 : ℕ → Type 0
IsU64 v = v < 0x1_0000_0000_0000_0000

-- `xq_add_u64_ok`
unfoldable pub add_u64_ok : ℕ → ℕ → Option ℕ
add_u64_ok a b = if ltb (uint64_max - b) a then none else some (a + b)

-- `xq_mul_u64_ok`
unfoldable pub mul_u64_ok : ℕ → ℕ → Option ℕ
mul_u64_ok a b = if a != 0 && ltb (uint64_max / a) b then none else some (a * b)

-- `xq_range_ok`
unfoldable pub range_ok : ℕ → ℕ → ℕ → Bool
unfolding add_u64_ok
range_ok off len limit = elim (add_u64_ok off len) [ none ↦ false | some end ↦ leb end limit ]

-- `xq_range_ok_sz`
unfoldable pub range_ok_sz : ℕ → ℕ → ℕ → Bool
range_ok_sz off len limit = if ltb limit off then false else leb len (limit - off)

-- On 64-bit operands the checked sum is the true sum where that fits 64 bits, and a failure
-- otherwise.
pub add_u64_ok_exact :
    (a b : ℕ)
    → IsU64 a
    → IsU64 b
    → (IsU64 (a + b) → add_u64_ok a b ≡ some (a + b)) × (¬ IsU64 (a + b) → add_u64_ok a b ≡ none)
unfolding add_u64_ok
add_u64_ok_exact a b ha hb = ground arith

mul_fits : (a b m : ℕ) → b ≤ m / a → a * b ≤ m
mul_fits a b m h = grind (arith, div-mul-le_self m a)

mul_too_big : (a b m : ℕ) → 0 < a → m / a < b → m < a * b
mul_too_big a b m p h = grind arith

-- On 64-bit operands the checked product is the true product where that fits 64 bits, and a
-- failure otherwise.
pub mul_u64_ok_exact :
    (a b : ℕ)
    → IsU64 a
    → IsU64 b
    → (IsU64 (a * b) → mul_u64_ok a b ≡ some (a * b)) × (¬ IsU64 (a * b) → mul_u64_ok a b ≡ none)
unfolding mul_u64_ok
mul_u64_ok_exact a b ha hb = ground (arith, mul_fits a b uint64_max, mul_too_big a b uint64_max)

-- `xq_range_ok` accepts exactly the ranges that end at or below the limit, although `off + len`
-- may pass 64 bits; `xq_range_ok_sz` decides the same without computing the end.
pub range_ok_iff :
    (off len limit : ℕ)
    → IsU64 off
    → IsU64 len
    → IsU64 limit
    → ((range_ok off len limit ≡ true) ↔ (off + len ≤ limit))
      × (range_ok_sz off len limit ≡ range_ok off len limit)
unfolding range_ok range_ok_sz
range_ok_iff off len limit ho hl hm = ground arith
