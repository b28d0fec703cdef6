-- ===== src/Common/Xxh64/Bounds.antt =====
-- The hash of src/common/xq_xxh64.c fits 64 bits.
use xq.Base.{ℕ, List, arith, Bool-cases, inl, inr, leb, length}
use xq.Base.Bits.{bit_xor-lt}
use xq.Common.Checked.{IsU64}
use xq.Common.Xxh64.{xxh64, hash_tail, avalanche}

avalanche-lt : (h : ℕ) → IsU64 (avalanche h)
unfolding avalanche
avalanche-lt h = bit_xor-lt 64 _ _ (omega arith) (omega arith)

pub xxh64-lt : (bytes : List ℕ) (seed : ℕ) → IsU64 (xxh64 bytes seed)
unfolding xxh64 hash_tail
xxh64-lt bytes seed = elim (Bool-cases (leb 32 (length bytes))) [
  | inl long ↦ rw (xxh64, long) (avalanche-lt _)
  | inr short ↦ rw (xxh64, short) (avalanche-lt _)
]
