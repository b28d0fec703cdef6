-- ===== src/Common/Crc32c.antt =====
-- src/common/xq_crc32c.c: the portable CRC-32C. A pair of a pointer and a length is the list of the
-- bytes that it spans. The accelerated branches of `xq_crc32c_update` call compiler intrinsics and
-- are not modelled; the portable branch and `xq_crc32c_portable` are one loop.
pub mod Table
pub mod Laws
pub mod Reference
use xq.Base.{ℕ, ◌-◌, ◌/◌, ◌^◌, List, [], ◌∷◌, bit_and, bit_xor, get_or}
use xq.Common.Crc32c.Table.{crc32c_tab}

-- `~c` on a `uint32_t`
abbrev pub complement32 : ℕ → ℕ
complement32 c = 0xffff_ffff - c

-- `c = xq_crc32c_tab[(c ^ *p++) & 0xFFu] ^ (c >> 8)`
unfoldable pub crc32c_byte : ℕ → ℕ → ℕ
crc32c_byte c b = bit_xor (get_or crc32c_tab (bit_and (bit_xor c b) 0xff) 0) (c / 2 ^ 8)

-- The `for` loop over the bytes.
unfoldable pub crc32c_loop : ℕ → List ℕ → ℕ
crc32c_loop c [] = c
crc32c_loop c (b ∷ bs) = crc32c_loop (crc32c_byte c b) bs

-- `xq_crc32c_portable`
unfoldable pub crc32c_portable : ℕ → List ℕ → ℕ
crc32c_portable crc bytes = complement32 (crc32c_loop (complement32 crc) bytes)

-- `xq_crc32c_update`, its portable branch
unfoldable pub crc32c_update : ℕ → List ℕ → ℕ
crc32c_update crc bytes = complement32 (crc32c_loop (complement32 crc) bytes)

-- `xq_crc32c`
unfoldable pub crc32c : List ℕ → ℕ
crc32c bytes = crc32c_update 0 bytes
