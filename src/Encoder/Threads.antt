-- ===== src/Encoder/Threads.antt =====
-- src/core/xq_encoder.c: the number of threads that `xq_encoder_create` starts.
use xq.Base.{
  ℕ, zero, suc, ◌+◌, ◌*◌, ◌/◌, ◌%◌, ◌^◌, ◌≤◌, ◌<◌, ◌≡◌, Bool, true, ltb, ◌!=◌, ◌&&◌, if◌then◌else◌,
  arith, sym, ap, ◌∙◌,
}
use mathlib.Core.Path.{subst}
use native.Mathlib.Nat.{
  lt-div-mul-add, le-div_iff_mul-le, div-le_self, mul-le-mul_right, mul_comm, mul_assoc,
}
use xq.Params.{ℤ, pos, negsuc, Params}

-- `p.threads`, or the processors up to 8 where it is 0. A negative number starts no thread, as 1.
unfoldable pub wanted_threads : ℤ → ℕ → ℕ
wanted_threads (pos zero) cpu_count = if ltb 8 cpu_count then 8 else cpu_count
wanted_threads (pos (suc n)) cpu_count = suc n
wanted_threads (negsuc n) cpu_count = 1

-- `(int)v` on a `uint64_t`, where it is at least 1, and 1 where it is not.
unfoldable pub int_at_least_one : ℕ → ℕ
int_at_least_one v = let low = v % 2 ^ 32 in if ltb low (2 ^ 31) && (low != 0) then low else 1

-- The threads that the memory limit leaves of `nthreads`, with `per` bytes for each slot.
unfoldable pub limited_threads : ℕ → ℕ → ℕ → ℕ
limited_threads mem_limit nthreads per =
    let need = nthreads * 2 * per % 2 ^ 64 in
    if (mem_limit != 0) && ltb mem_limit need
    then (if per != 0 then int_at_least_one (mem_limit / per) else 1)
    else nthreads

-- The number of threads of `xq_encoder_create`.
unfoldable pub thread_count : Bool → ℕ → Params → ℕ → ℕ → ℕ
thread_count has_cctx_new cpu_count p bs cbuf_cap =
    let nthreads = wanted_threads (p.threads) cpu_count in
    if ltb 1 nthreads && has_cctx_new
    then limited_threads (p.mem_limit) nthreads (bs + cbuf_cap)
    else nthreads

-- The slots that `mt_create` allocates, where `xq_encoder_create` calls it: one thread or none works
-- without slots.
unfoldable pub slot_count : Bool → ℕ → ℕ
slot_count has_cctx_new nthreads = if ltb 1 nthreads && has_cctx_new then nthreads * 2 else 0

-- Where the slots of the threads that are asked for, two for each, take more than a memory limit that
-- holds two slots, but less than 2 ^ 31 bytes, and the codec has compression contexts, the slots that
-- are allocated for the threads that are left take more than the limit too.
pub thread_count-over_limit :
    (p : Params) (cpu_count bs cbuf_cap : ℕ)
    → 1 ≤ bs
    → (bs + cbuf_cap) * 2 ≤ p.mem_limit
    → wanted_threads (p.threads) cpu_count * 2 * (bs + cbuf_cap) < 0x8000_0000
    → p.mem_limit < wanted_threads (p.threads) cpu_count * 2 * (bs + cbuf_cap)
    → p.mem_limit < slot_count true (thread_count true cpu_count p bs cbuf_cap) * (bs + cbuf_cap)
unfolding thread_count slot_count limited_threads int_at_least_one
thread_count-over_limit p cpu_count bs cbuf_cap some_block holds small over =
    subst (λ n. p.mem_limit < n * per) (sym slots) (omega (arith, upper, twice, once))
  where
    per : ℕ
    per = bs + cbuf_cap

    q : ℕ
    q = p.mem_limit / per

    n : ℕ
    n = wanted_threads (p.threads) cpu_count

    some_per : 1 ≤ per
    some_per = omega arith

    upper : p.mem_limit < q * per + per
    upper = lt-div-mul-add some_per

    two_left : 2 ≤ q
    two_left = (le-div_iff_mul-le some_per).1 (omega (arith, holds))

    few : q ≤ p.mem_limit
    few = div-le_self (p.mem_limit) per

    once : 2 * per ≤ q * per
    once = mul-le-mul_right per two_left

    twice : q * 2 * per ≡ q * per + q * per
    twice = ap (λ x. x * per) (mul_comm q 2) ∙ mul_assoc 2 q per ∙ omega arith

    several : ltb 1 n ≡ true
    several = of_count n over
      where
        of_count : (k : ℕ) → p.mem_limit < k * 2 * per → ltb 1 k ≡ true
        of_count zero more = absurd (omega arith)
        of_count (suc zero) more = absurd (omega (arith, holds))
        of_count (suc (suc k)) more = ground arith

    left : limited_threads (p.mem_limit) n per ≡ q
    left = ground (arith, two_left, few)

    counted : thread_count true cpu_count p bs cbuf_cap ≡ q
    counted = rw several left

    slots : slot_count true (thread_count true cpu_count p bs cbuf_cap) ≡ q * 2
    slots = ap (slot_count true) counted ∙ ground (arith, two_left)
