-- ===== src/Common/Crc32c/Laws.antt =====
-- The CRC-32C of a concatenation, and its range.
use xq.Base.{ℕ, ◌/◌, ◌^◌, ◌≡◌, refl, List, [], ◌∷◌, ◌++◌, arith, All, All-get_or}
use xq.Base.Bits.{bit_xor-lt}
use xq.Common.Bytes.{IsU32}
use xq.Common.Crc32c.Table.{crc32c_tab}
use xq.Common.Crc32c.{complement32, crc32c_byte, crc32c_loop, crc32c_update, crc32c}

tab-IsU32 : All IsU32 crc32c_tab
unfolding crc32c_tab
tab-IsU32 = omega arith

crc32c_byte-lt : (c b : ℕ) → IsU32 c → IsU32 (crc32c_byte c b)
unfolding crc32c_byte
crc32c_byte-lt c b h =
    bit_xor-lt 32 _ (c / 2 ^ 8) (All-get_or IsU32 0 (omega arith) crc32c_tab _ tab-IsU32)
      (omega arith)

crc32c_loop-lt : (c : ℕ) (bytes : List ℕ) → IsU32 c → IsU32 (crc32c_loop c bytes)
unfolding crc32c_loop
crc32c_loop-lt c [] h = h
crc32c_loop-lt c (b ∷ bs) h = crc32c_loop-lt (crc32c_byte c b) bs (crc32c_byte-lt c b h)

crc32c_loop-append :
    (c : ℕ) (xs ys : List ℕ) → crc32c_loop c (xs ++ ys) ≡ crc32c_loop (crc32c_loop c xs) ys
unfolding crc32c_loop
crc32c_loop-append c [] ys = refl
crc32c_loop-append c (x ∷ xs) ys = crc32c_loop-append (crc32c_byte c x) xs ys

pub crc32c_update-lt : (crc : ℕ) (bytes : List ℕ) → IsU32 (crc32c_update crc bytes)
unfolding crc32c_update
crc32c_update-lt crc bytes = omega arith

pub crc32c-lt : (bytes : List ℕ) → IsU32 (crc32c bytes)
unfolding crc32c
crc32c-lt bytes = crc32c_update-lt 0 bytes

-- Feeding two buffers one after the other gives the checksum of their concatenation, from every
-- 32-bit running value.
pub crc32c_update-append :
    (crc : ℕ) (xs ys : List ℕ)
    → IsU32 crc
    → crc32c_update (crc32c_update crc xs) ys ≡ crc32c_update crc (xs ++ ys)
unfolding crc32c_update
crc32c_update-append crc xs ys h = rw (crc32c_loop-append, twice) refl
  where
    inner : ℕ
    inner = crc32c_loop (complement32 crc) xs

    twice : complement32 (complement32 inner) ≡ inner
    twice = omega (arith, crc32c_loop-lt (complement32 crc) xs (omega arith))
