-- ===== src/Api/Bound.antt =====
-- src/core/xq_api.c: the bound on the size of a container in memory.
use xq.Base.{
  ℕ, ◌+◌, ◌-◌, ◌*◌, ◌/◌, ◌%◌, ◌^◌, ◌≤◌, ◌<◌, ◌≡◌, ◌≢◌, List, Option, none, some, Bool, true, false,
  ◌==◌, ◌!=◌, ◌&&◌, if◌then◌else◌, arith, refl, ap, ◌∙◌, sym,
}
use mathlib.Core.Path.{subst}
use native.Mathlib.Nat.{le-div_iff_mul-le, mul-le-mul_right, mul-le-mul_left, mul_comm, div-le_self}
use native.Mathlib.Decide.{dec_lt}
use xq.Common.Checked.{IsU64, add_u64_ok, mul_u64_ok, mul_u64_ok_exact}
use xq.Format.Index.Payload.{index_payload_size_exact}
use xq.Params.{Params, params_default, block_size_default}
use xq.Format.Consts.{file_header_size, block_header_size, record_header_size, footer_size}
use xq.Format.Checksum.{checksum_size, checksum_size-lt}
use xq.Format.Index.{or_zero, index_payload_size}
use xq.Codec.Table.{CodecVt, codec_get, codec_has_dict}
use xq.Dict.{dict_payload_header, dict_size_for}
use xq.Encoder.State.{low_byte}

-- The number of blocks: at least one.
unfoldable pub block_count_for : ℕ → ℕ → ℕ
block_count_for src_size bs =
    let nblocks = (src_size + bs + 2 ^ 64 - 1) % 2 ^ 64 / bs in if nblocks == 0 then 1 else nblocks

-- The record of a dictionary, where the codec takes one.
unfoldable pub add_dict : List CodecVt → Params → ℕ → ℕ → ℕ
add_dict codecs p src_size total =
    let dict_len = dict_size_for src_size (p.dict_size) in
    if (dict_len != 0) && codec_has_dict (codec_get codecs (low_byte (p.codec)))
    then or_zero (add_u64_ok total (record_header_size + dict_payload_header + dict_len)) (λ t. t)
    else total

-- `xq_compress_bound` on the parameters in force
unfoldable pub bound_for : List CodecVt → Params → ℕ → ℕ
bound_for codecs p src_size =
    let bs = if p.block_size != 0 then p.block_size else block_size_default in
    let nblocks = block_count_for src_size bs in
    let per = block_header_size + checksum_size (low_byte (p.checksum)) in
    let idx = index_payload_size nblocks in
    or_zero (mul_u64_ok nblocks per) (λ blocks. or_zero (add_u64_ok file_header_size blocks) (λ t1.
      or_zero (add_u64_ok t1 src_size) (λ t2. or_zero (add_u64_ok t2 record_header_size) (λ t3.
        if idx == 0
        then 0
        else or_zero (add_u64_ok t3 ((idx + record_header_size) % 2 ^ 64))
            (λ t4. or_zero (add_u64_ok t4 footer_size) (add_dict codecs p src_size))))))

-- `xq_compress_bound`. The test of the sum against the largest `size_t` has no effect on 64 bits.
unfoldable pub compress_bound : List CodecVt → ℕ → Option Params → ℕ
compress_bound codecs src_size none = bound_for codecs params_default src_size
compress_bound codecs src_size (some p) = bound_for codecs p src_size

add_u64_ok-sum : (a b n : ℕ) → add_u64_ok a b ≡ some n → n ≡ a + b
unfolding add_u64_ok
add_u64_ok-sum a b n e = ground arith

mul_u64_ok-product : (a b n : ℕ) → mul_u64_ok a b ≡ some n → n ≡ a * b
unfolding mul_u64_ok
mul_u64_ok-product a b n e = ground arith

-- A checked step that is not 0 is as large as what follows it.
or_zero_least :
    (o : Option ℕ) (n m : ℕ) (f : ℕ → ℕ)
    → ((k : ℕ) → o ≡ some k → k ≡ n)
    → (f n ≢ 0 → m ≤ f n)
    → or_zero o f ≢ 0
    → m ≤ or_zero o f
or_zero_least none n m f sum h k = absurd (k refl)
or_zero_least (some i) n m f sum h k =
    subst (λ j. m ≤ f j) (sym (sum i refl)) (h (λ z. k (ap f (sum i refl) ∙ z)))

add_least :
    (a b m : ℕ) (f : ℕ → ℕ)
    → (f (a + b) ≢ 0 → m ≤ f (a + b))
    → or_zero (add_u64_ok a b) f ≢ 0
    → m ≤ or_zero (add_u64_ok a b) f
add_least a b m f h k = or_zero_least (add_u64_ok a b) (a + b) m f (add_u64_ok-sum a b) h k

add_dict_least :
    (codecs : List CodecVt) (p : Params) (src_size total : ℕ)
    → add_dict codecs p src_size total ≢ 0
    → total ≤ add_dict codecs p src_size total
unfolding add_dict
add_dict_least codecs p src_size total = added _
  where
    record_len : ℕ
    record_len = record_header_size + dict_payload_header + dict_size_for src_size (p.dict_size)

    grown : ℕ
    grown = or_zero (add_u64_ok total record_len) (λ t. t)

    added : (b : Bool) → (if b then grown else total) ≢ 0 → total ≤ (if b then grown else total)
    added true k = add_least total record_len total (λ t. t) (λ h. omega arith) k
    added false k = omega arith

-- As many blocks of `bs` bytes as are not more than the source needs are not more than are counted.
count-least :
    (src_size bs blocks : ℕ)
    → 1 ≤ bs
    → src_size + bs ≤ 2 ^ 64
    → blocks * bs < src_size + bs
    → blocks ≤ block_count_for src_size bs
unfolding block_count_for
count-least src_size bs blocks some_block no_wrap needed = at_least_one (quotient == 0) refl
  where
    quotient : ℕ
    quotient = (src_size + bs + 2 ^ 64 - 1) % 2 ^ 64 / bs

    unwrapped : (src_size + bs + 2 ^ 64 - 1) % 2 ^ 64 ≡ src_size + bs - 1
    unwrapped = omega arith

    few : blocks ≤ quotient
    few = (le-div_iff_mul-le some_block).1 (omega (arith, needed, unwrapped))

    at_least_one : (b : Bool) → (quotient == 0) ≡ b → blocks ≤ (if b then 1 else quotient)
    at_least_one true none_left = ground (arith, few)
    at_least_one false some_left = few

product_fits :
    (a b : ℕ) (f : ℕ → ℕ) → IsU64 a → IsU64 b → or_zero (mul_u64_ok a b) f ≢ 0 → IsU64 (a * b)
product_fits a b f wa wb k = elim (dec_lt (a * b) 0x1_0000_0000_0000_0000) [
  | yes small ↦ small
  | no large ↦ absurd (k (ap (λ o. or_zero o f) ((mul_u64_ok_exact a b wa wb).1 large)))
]

block_count_for-IsU64 : (src_size bs : ℕ) → IsU64 (block_count_for src_size bs)
unfolding block_count_for
block_count_for-IsU64 src_size bs =
    ground (arith, div-le_self ((src_size + bs + 2 ^ 64 - 1) % 2 ^ 64) bs)

-- The payload of the index, where its size is not 0.
index_payload_size-sum :
    (n : ℕ)
    → IsU64 (24 * n)
    → index_payload_size n ≢ 0
    → (index_payload_size n + 14) % 2 ^ 64 ≡ 14 + 24 + 16 * (n + 1)
index_payload_size-sum n fits some_size =
    ap (λ s. (s + 14) % 2 ^ 64) ((index_payload_size_exact n (omega arith)).0 whole) ∙ omega arith
  where
    whole : IsU64 (24 + 16 * (n + 1))
    whole = omega arith

-- Where the source and a block together have 2 ^ 64 bytes at most, a bound that is not 0 holds the
-- file header, a header and a checksum for each of the blocks that the source needs, none of them
-- superfluous, the source, the end-of-blocks record, the index record with its header, its preamble
-- and an entry more than blocks, and the footer.
pub bound_for-covers :
    (codecs : List CodecVt) (p : Params) (src_size bs blocks : ℕ)
    → bs ≡ (if p.block_size != 0 then p.block_size else block_size_default)
    → src_size + bs ≤ 2 ^ 64
    → blocks * bs < src_size + bs
    → bound_for codecs p src_size ≢ 0
    → 32
        + blocks * (24 + checksum_size (low_byte (p.checksum)))
        + src_size
        + 14
        + (14 + 24 + 16 * (blocks + 1))
        + 32
      ≤ bound_for codecs p src_size
unfolding bound_for
bound_for-covers codecs p src_size bs blocks same no_wrap needed some_bound =
    omega (arith, all_counted, few, mul-le-mul_right per few)
  where
    bs' : ℕ
    bs' = if p.block_size != 0 then p.block_size else block_size_default

    per : ℕ
    per = 24 + checksum_size (low_byte (p.checksum))

    n : ℕ
    n = block_count_for src_size bs'

    some_block : 1 ≤ bs'
    some_block = ground arith

    few : blocks ≤ n
    few =
        count-least src_size bs' blocks some_block (subst (λ b. src_size + b ≤ 2 ^ 64) same no_wrap)
          (subst (λ b. blocks * b < src_size + b) same needed)

    fits : IsU64 (24 * n)
    fits = omega (
      arith,
      product_fits n per _ (block_count_for-IsU64 src_size bs')
          (omega (arith, checksum_size-lt (low_byte (p.checksum)))) some_bound,
      mul_comm n per,
      mul_comm n 24,
      nat_mul_mono,
    )
      where
        nat_mul_mono : n * 24 ≤ n * per
        nat_mul_mono = mul-le-mul_left n (omega arith)

    idx : ℕ
    idx = (index_payload_size n + 14) % 2 ^ 64

    t3 : ℕ
    t3 = 32 + n * per + src_size + 14

    rest : ℕ
    rest =
        or_zero (add_u64_ok t3 idx) (λ t4. or_zero (add_u64_ok t4 32) (add_dict codecs p src_size))

    indexed :
        (b : Bool)
        → (index_payload_size n == 0) ≡ b
        → (if b then 0 else rest) ≢ 0
        → t3 + (14 + 24 + 16 * (n + 1)) + 32 ≤ (if b then 0 else rest)
    indexed true e k = absurd (k refl)
    indexed false e k =
        subst (λ i. t3 + i + 32 ≤ rest) (index_payload_size-sum n fits (λ z. ground arith))
          (add_least t3 idx _ _
            (add_least (t3 + idx) 32 _ _ (add_dict_least codecs p src_size (t3 + idx + 32))) k)

    all_counted : t3 + (14 + 24 + 16 * (n + 1)) + 32 ≤ bound_for codecs p src_size
    all_counted =
        or_zero_least (mul_u64_ok n per) (n * per) _ _ (mul_u64_ok-product n per)
          (add_least 32 (n * per) _ _ (
            add_least (32 + n * per) src_size _ _ (
              add_least (32 + n * per + src_size) 14 _ _
                (indexed (index_payload_size n == 0) refl))))
          some_bound
