-- ===== src/Params/Check.antt =====
-- What `xq_params_check` of src/common/xq_common.c accepts.
use xq.Base.{
  ℕ, zero, suc, ◌+◌, ◌-◌, ◌*◌, ◌/◌, ◌%◌, ◌^◌, ◌≤◌, ◌≡◌, ◌≢◌, ◌↔◌, ◌⊎◌, inl, inr, refl, ap, ◌∙◌,
  Option, none, some, true, false, Bool, ltb, ◌==◌, ◌!=◌, ◌&&◌, ◌||◌, not, bit_and, arith,
  Bool-cases,
}
use mathlib.Core.Path.{subst}
use native.Mathlib.Decide.{dec_lt}
use native.Mathlib.Nat.{pow-suc, one-le-pow, pow-le-pow_right}
use xq.Base.Bits.{bit_and_step, bit_and-zero}
use xq.Status.{Status, xq_ok, err_param, err_memlimit, err_unsupported_codec}
use xq.Params.{
  ℤ, pos, negsuc, below, above, Allocator, Params, codec_available, is_pow2, half_allocator,
  mem_need, bad_block_size, unless, params_check,
}

-- A number and itself.
bit_and_self : (bound v : ℕ) → v ≤ bound → bit_and v v ≡ v
bit_and_self bound zero h = bit_and-zero 0
bit_and_self zero (suc v) h = absurd (omega arith)
bit_and_self (suc bound) (suc v) h =
    omega (arith, bit_and_step (suc v) (suc v), bit_and_self bound (suc v / 2) (omega arith))

-- One step down of `v & (v - 1)`.
even_step : (u : ℕ) → 1 ≤ u → bit_and (2 * u) (2 * u - 1) ≡ bit_and u (u - 1) * 2
even_step u h = omega (arith, bit_and_step (2 * u) (2 * u - 1), halves)
  where
    first : 2 * u / 2 ≡ u
    first = omega arith

    second : (2 * u - 1) / 2 ≡ u - 1
    second = omega arith

    halves : bit_and (2 * u / 2) ((2 * u - 1) / 2) ≡ bit_and u (u - 1)
    halves = rw (first, second) refl

odd_step : (u : ℕ) → bit_and (2 * u + 1) (2 * u) ≡ u * 2
odd_step u = omega (arith, bit_and_step (2 * u + 1) (2 * u), halves, bit_and_self u u (omega arith))
  where
    first : (2 * u + 1) / 2 ≡ u
    first = omega arith

    second : 2 * u / 2 ≡ u
    second = omega arith

    halves : bit_and ((2 * u + 1) / 2) (2 * u / 2) ≡ bit_and u u
    halves = rw (first, second) refl

-- A power of two passes, and what passes is 0 or a power of two.
pow2_passes : (k : ℕ) → bit_and (2 ^ k) (2 ^ k - 1) ≡ 0
pow2_passes zero = bit_and-zero 1
pow2_passes (suc k) =
    let e : 2 ^ suc k ≡ 2 * 2 ^ k = pow-suc 2 k ∙ omega arith in
    rw e (omega (arith, even_step (2 ^ k) (one-le-pow k 2 (omega arith)), pow2_passes k))

pow2_only : (bound v : ℕ) → v ≤ bound → 1 ≤ v → bit_and v (v - 1) ≡ 0 → (k : ℕ) × (v ≡ 2 ^ k)
pow2_only zero v h p e = absurd (omega arith)
pow2_only (suc bound) v h p e = elim (Bool-cases (v % 2 == 0)) [
  | inl even ↦
      let twice : v ≡ 2 * (v / 2) = ground arith in
      let some_half : 1 ≤ v / 2 = omega arith in
      let step : bit_and v (v - 1) ≡ bit_and (v / 2) (v / 2 - 1) * 2 =
        ap (λ w. bit_and w (w - 1)) twice ∙ even_step (v / 2) some_half in
      let (k, half) = pow2_only bound (v / 2) (omega arith) some_half (omega (arith, step)) in
      (suc k, omega (arith, half, pow-suc 2 k))
  | inr odd ↦
      let twice : v ≡ 2 * (v / 2) + 1 = ground arith in
      let under : 2 * (v / 2) + 1 - 1 ≡ 2 * (v / 2) = omega arith in
      let step : bit_and v (v - 1) ≡ v / 2 * 2 =
        ap (λ w. bit_and w (w - 1)) twice
        ∙ ap (bit_and (2 * (v / 2) + 1)) under
        ∙ odd_step (v / 2) in
      (0, omega (arith, step))
]

-- A block size: none, or a power of two from 2 ^ 12 to 2 ^ 28.
abbrev pub IsBlockSize : ℕ → Type 0
IsBlockSize n = (n ≡ 0) ⊎ ((k : ℕ) × (n ≡ 2 ^ k) × (12 ≤ k) × (k ≤ 28))

pow2_mono : (i j : ℕ) → i ≤ j → 2 ^ i ≤ 2 ^ j
pow2_mono i j h = pow-le-pow_right (omega arith) h

log_range : (k : ℕ) → 2 ^ 12 ≤ 2 ^ k → 2 ^ k ≤ 2 ^ 28 → (12 ≤ k) × (k ≤ 28)
log_range k lo hi = (least, most)
  where
    least : 12 ≤ k
    least = elim (dec_lt k 12) [
      | yes small ↦
          let bound : 2 ^ k ≤ 2 ^ 11 = pow2_mono k 11 (omega arith) in absurd (omega (arith, bound))
      | no large ↦ omega arith
    ]

    most : k ≤ 28
    most = elim (dec_lt 28 k) [
      | yes large ↦
          let bound : 2 ^ 29 ≤ 2 ^ k = pow2_mono 29 k (omega arith) in absurd (omega (arith, bound))
      | no small ↦ omega arith
    ]

good-IsBlockSize : (n : ℕ) → bad_block_size n ≡ false → IsBlockSize n
unfolding bad_block_size is_pow2
good-IsBlockSize n e = elim (Bool-cases (n == 0)) [
  | inl z ↦ inl (ground arith)
  | inr nz ↦
      let (k, power) = pow2_only n n (omega arith) (ground arith) (ground arith) in
      let (least, most) = log_range k (ground (arith, power)) (ground (arith, power)) in
      inr (k, power, least, most)
]

bad_block_size-false : (n : ℕ) → IsBlockSize n → bad_block_size n ≡ false
unfolding bad_block_size is_pow2
bad_block_size-false n (inl z) = rw z refl
bad_block_size-false n (inr (k, power, least, most)) =
    rw power (ground (arith, pow2_passes k, lo, hi))
  where
    lo : 2 ^ 12 ≤ 2 ^ k
    lo = pow-le-pow_right (omega arith) least

    hi : 2 ^ k ≤ 2 ^ 28
    hi = pow-le-pow_right (omega arith) most

-- Parameters as xq.h describes them.
pub record IsValidParams (with_zstd : Bool) (p : Params) : Type 0 where
  pub level : (n : ℕ) × (p.level ≡ pos n) × (1 ≤ n) × (n ≤ 12)
  pub block_size : IsBlockSize p.block_size
  pub dict_size : p.dict_size ≤ 268_435_456
  pub codec : (n : ℕ) × (p.codec ≡ pos n) × (n ≤ 3) × (n ≡ 3 → with_zstd ≡ true)
  pub checksum : (n : ℕ) × (p.checksum ≡ pos n) × (n ≤ 2)
  pub threads : (n : ℕ) × (p.threads ≡ pos n)
  pub allocator : (a : Allocator) → p.alloc ≡ some a → (a.has_alloc ≡ true) × (a.has_free ≡ true)
  pub memory : p.mem_limit ≢ 0 → p.block_size ≢ 0 → p.dict_size + 2 * p.block_size ≤ p.mem_limit
  pub memory_default : p.mem_limit ≢ 0 → p.block_size ≡ 0 → p.dict_size + 131_072 ≤ p.mem_limit

unless_ok :
    (failed : Bool) (st next : Status)
    → st ≢ xq_ok
    → unless failed st next ≡ xq_ok
    → (failed ≡ false) × (next ≡ xq_ok)
unless_ok false st next h e = (refl, e)
unless_ok true st next h e = absurd (h e)

in_range :
    (i : ℤ) (lo hi : ℕ)
    → 1 ≤ lo ⊎ (lo ≡ 0)
    → below i lo || above i hi ≡ false
    → (n : ℕ) × (i ≡ pos n) × (lo ≤ n) × (n ≤ hi)
in_range (pos n) lo hi h e = (n, refl, ground arith, ground arith)
in_range (negsuc n) lo hi h e = cc

range_in : (i : ℤ) (lo hi n : ℕ) → i ≡ pos n → lo ≤ n → n ≤ hi → below i lo || above i hi ≡ false
range_in i lo hi n e l u = rw e (ground arith)

codec_known :
    (with_zstd : Bool) (n : ℕ)
    → n ≤ 3
    → not (codec_available with_zstd (pos n)) ≡ false
    → n ≡ 3
    → with_zstd ≡ true
unfolding codec_available
codec_known with_zstd n h e t = ground arith

known_codec :
    (with_zstd : Bool) (i : ℤ) (n : ℕ)
    → i ≡ pos n
    → n ≤ 3
    → (n ≡ 3 → with_zstd ≡ true)
    → not (codec_available with_zstd i) ≡ false
unfolding codec_available
known_codec with_zstd i n e h t = rw e (ground arith)

whole_allocator :
    (alloc : Option Allocator)
    → half_allocator alloc ≡ false
    → (a : Allocator) → alloc ≡ some a
    → (a.has_alloc ≡ true) × (a.has_free ≡ true)
whole_allocator none h a e = cc
whole_allocator (some b) h a e =
    let same : b ≡ a = ground arith in
    subst (λ c. (c.has_alloc ≡ true) × (c.has_free ≡ true)) same (ground arith)

no_half :
    (alloc : Option Allocator)
    → ((a : Allocator) → alloc ≡ some a → (a.has_alloc ≡ true) × (a.has_free ≡ true))
    → half_allocator alloc ≡ false
no_half none h = refl
no_half (some a) h = let (one, two) = h a refl in rw (one, two) refl

not_negative : (i : ℤ) → below i 0 ≡ false → (n : ℕ) × (i ≡ pos n)
not_negative (pos n) e = (n, refl)
not_negative (negsuc n) e = cc

accepts :
    (with_zstd : Bool) (p : Params)
    → IsValidParams with_zstd p
    → params_check with_zstd (some p) ≡ xq_ok
unfolding params_check
accepts with_zstd p v =
    let (l, el, l1, l2) = v.level in
    let (c, ec, c2, zstd) = v.codec in
    let (k, ek, k2) = v.checksum in
    let (t, et) = v.threads in
    let level = range_in p.level 1 12 l el l1 l2 in
    let block = bad_block_size-false p.block_size v.block_size in
    let dict : ltb 268_435_456 p.dict_size ≡ false = ground (arith, v.dict_size) in
    let codec = range_in p.codec 0 3 c ec (omega arith) c2 in
    let available = known_codec with_zstd p.codec c ec c2 zstd in
    let checksum = range_in p.checksum 0 2 k ek (omega arith) k2 in
    let threads : below p.threads 0 ≡ false = rw et (ground arith) in
    let allocator = no_half p.alloc v.allocator in
    let memory : ((p.mem_limit != 0) && ltb p.mem_limit (mem_need p)) ≡ false =
      ground (arith, v.memory, v.memory_default) in
    rw (level, block, dict, codec, available, checksum, threads, allocator, memory) refl

accepted :
    (with_zstd : Bool) (p : Params)
    → params_check with_zstd (some p) ≡ xq_ok
    → IsValidParams with_zstd p
unfolding params_check
accepted with_zstd p e =
    let (level, e1) =
      unless_ok (below p.level 1 || above p.level 12) err_param (then_1) (λ h. cc) e in
    let (block, e2) = unless_ok (bad_block_size p.block_size) err_param (then_2) (λ h. cc) e1 in
    let (dict, e3) = unless_ok (ltb 268_435_456 p.dict_size) err_param (then_3) (λ h. cc) e2 in
    let (codec, e4) =
      unless_ok (below p.codec 0 || above p.codec 3) err_param (then_4) (λ h. cc) e3 in
    let (available, e5) =
      unless_ok (not (codec_available with_zstd p.codec)) err_unsupported_codec (then_5) (λ h. cc)
        e4 in
    let (checksum, e6) =
      unless_ok (below p.checksum 0 || above p.checksum 2) err_param (then_6) (λ h. cc) e5 in
    let (threads, e7) = unless_ok (below p.threads 0) err_param (then_7) (λ h. cc) e6 in
    let (allocator, e8) = unless_ok (half_allocator p.alloc) err_param (then_8) (λ h. cc) e7 in
    let (memory, e9) =
      unless_ok ((p.mem_limit != 0) && ltb p.mem_limit (mem_need p)) err_memlimit (xq_ok) (λ h. cc)
        e8 in
    let (l, el, l1, l2) = in_range p.level 1 12 (inl (omega arith)) level in
    let (c, ec, c1, c2) = in_range p.codec 0 3 (inr refl) codec in
    let (k, ek, k1, k2) = in_range p.checksum 0 2 (inr refl) checksum in
    record {
      level = (l, el, l1, l2);
      block_size = good-IsBlockSize p.block_size block;
      dict_size = ground arith;
      codec = (c, ec, c2, codec_known with_zstd c c2 (rw (← ec) available));
      checksum = (k, ek, k2);
      threads = not_negative p.threads threads;
      allocator = whole_allocator p.alloc allocator;
      memory = λ limited given. ground arith;
      memory_default = λ limited default. ground arith;
    }
  where
    then_8 : Status
    then_8 = unless ((p.mem_limit != 0) && ltb p.mem_limit (mem_need p)) err_memlimit xq_ok

    then_7 : Status
    then_7 = unless (half_allocator p.alloc) err_param then_8

    then_6 : Status
    then_6 = unless (below p.threads 0) err_param then_7

    then_5 : Status
    then_5 = unless (below p.checksum 0 || above p.checksum 2) err_param then_6

    then_4 : Status
    then_4 = unless (not (codec_available with_zstd p.codec)) err_unsupported_codec then_5

    then_3 : Status
    then_3 = unless (below p.codec 0 || above p.codec 3) err_param then_4

    then_2 : Status
    then_2 = unless (ltb 268_435_456 p.dict_size) err_param then_3

    then_1 : Status
    then_1 = unless (bad_block_size p.block_size) err_param then_2

-- `xq_params_check` accepts exactly the valid parameters: a level of 1 to 12, no block size or a power
-- of two from 2 ^ 12 to 2 ^ 28, a dictionary of at most 2 ^ 28 bytes, a codec that the build has, a
-- known checksum, no negative thread count, both functions of an allocator, and no memory limit or
-- one that holds the dictionary and two blocks, of 64 KiB where no size of a block is given.
pub params_check_iff :
    (with_zstd : Bool) (p : Params)
    → (params_check with_zstd (some p) ≡ xq_ok) ↔ IsValidParams with_zstd p
params_check_iff with_zstd p = (accepted with_zstd p, accepts with_zstd p)
