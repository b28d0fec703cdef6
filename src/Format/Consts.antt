-- ===== src/Format/Consts.antt =====
-- src/format/xq_format.h and include/xq.h: the constants of the container.
use xq.Base.{ℕ, List, [], ◌∷◌, Bool, true, false, ◌==◌, ◌&&◌, ◌≡◌, refl, arith}

abbrev pub file_header_size : ℕ
file_header_size = 32

abbrev pub record_header_size : ℕ
record_header_size = 14

abbrev pub block_header_size : ℕ
block_header_size = 24

abbrev pub footer_size : ℕ
footer_size = 32

abbrev pub index_entry_size : ℕ
index_entry_size = 16

abbrev pub index_preamble_size : ℕ
index_preamble_size = 24

abbrev pub footer_magic : ℕ
footer_magic = 0x5446_5158

abbrev pub block_magic : ℕ
block_magic = 0xb10c

abbrev pub format_major_version : ℕ
format_major_version = 1

abbrev pub flag_index_expected : ℕ
flag_index_expected = 1

abbrev pub flag_dict_present : ℕ
flag_dict_present = 2

abbrev pub flag_uniform_blocks : ℕ
flag_uniform_blocks = 4

abbrev pub flag_stream_written : ℕ
flag_stream_written = 8

abbrev pub flag_known_mask : ℕ
flag_known_mask = 0xf

abbrev pub bflag_stored : ℕ
bflag_stored = 1

abbrev pub bflag_uses_dict : ℕ
bflag_uses_dict = 2

abbrev pub block_size_min : ℕ
block_size_min = 4096

abbrev pub block_size_max : ℕ
block_size_max = 268_435_456

abbrev pub checksum_max : ℕ
checksum_max = 2

-- `xq_magic`: 0x89 X Q 1 CR LF SUB LF
abbrev pub xq_magic : List ℕ
xq_magic = 0x89 ∷ 0x58 ∷ 0x51 ∷ 0x31 ∷ 0x0d ∷ 0x0a ∷ 0x1a ∷ 0x0a ∷ []

-- `memcmp(a, b, n) == 0` on the `n` bytes of each
unfoldable pub mem_eq : List ℕ → List ℕ → Bool
mem_eq [] [] = true
mem_eq [] (y ∷ ys) = false
mem_eq (x ∷ xs) [] = false
mem_eq (x ∷ xs) (y ∷ ys) = (x == y) && mem_eq xs ys

pub mem_eq→eq : (xs ys : List ℕ) → mem_eq xs ys ≡ true → xs ≡ ys
unfolding mem_eq
mem_eq→eq [] [] e = refl
mem_eq→eq [] (y ∷ ys) e = cc
mem_eq→eq (x ∷ xs) [] e = cc
mem_eq→eq (x ∷ xs) (y ∷ ys) e = ground (arith, mem_eq→eq xs ys)

pub mem_eq_refl : (xs : List ℕ) → mem_eq xs xs ≡ true
unfolding mem_eq
mem_eq_refl [] = refl
mem_eq_refl (x ∷ xs) = ground (arith, mem_eq_refl xs)
