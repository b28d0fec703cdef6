-- ===== src/Format/Header/Check.antt =====
-- Which headers `xq_fmt_header_parse` accepts.
use xq.Base.{ℕ, ◌*◌, ◌/◌, ◌%◌, ◌^◌, ◌≤◌, ◌<◌, ◌≡◌, ◌≢◌, ◌⊎◌, bit_and, arith}
use native.Mathlib.Nat.{mod-eq_of_lt, pow-le-pow_right}
use xq.Base.Bits.{bit_and_even, bit_and_mask, bit_and-four}
use xq.Common.Checked.{IsU64}
use xq.Common.Bytes.{IsByte, IsU16, IsU32, shl}
use xq.Common.Crc32c.{complement32}
use xq.Status.{ok}
use xq.Format.Consts.{flag_known_mask}
use xq.Format.Header.{FileHeader, header_check}

-- What fits the fields of the structure.
pub record HeaderFits (h : FileHeader) : Type 0 where
  pub format_major : IsByte h.format_major
  pub format_minor : IsByte h.format_minor
  pub header_size : IsU16 h.header_size
  pub flags : IsU32 h.flags
  pub codec_id : IsByte h.codec_id
  pub level : IsByte h.level
  pub checksum_id : IsByte h.checksum_id
  pub block_size_log : IsByte h.block_size_log
  pub raw_size : IsU64 h.raw_size

-- A header of version 1: no unknown flag, a block size of 2 ^ 12 to 2 ^ 28 or none, and the flag
-- for uniform blocks only with a block size.
pub record IsValidHeader (h : FileHeader) : Type 0 where
  pub format_major : h.format_major ≡ 1
  pub format_minor : IsByte h.format_minor
  pub size_least : 32 ≤ h.header_size
  pub size_most : h.header_size ≤ 4096
  pub flags : h.flags < 16
  pub codec_id : IsByte h.codec_id
  pub level : IsByte h.level
  pub checksum_id : h.checksum_id ≤ 2
  pub block_size_log : (h.block_size_log ≡ 0) ⊎ (12 ≤ h.block_size_log) × (h.block_size_log ≤ 28)
  pub uniform : h.flags / 4 % 2 ≡ 1 → h.block_size_log ≢ 0
  pub raw_size : IsU64 h.raw_size

block_size_range : (k : ℕ) → 12 ≤ k → k ≤ 28 → (4096 ≤ shl 32 1 k) × (shl 32 1 k ≤ 268_435_456)
block_size_range k lo hi = rw (mod-eq_of_lt fits) (omega (arith, least, most))
  where
    least : 2 ^ 12 ≤ 2 ^ k
    least = pow-le-pow_right (omega arith) lo

    most : 2 ^ k ≤ 2 ^ 28
    most = pow-le-pow_right (omega arith) hi

    fits : 1 * 2 ^ k < 2 ^ 32
    fits = omega (arith, most)

unknown_flags : (f : ℕ) → IsU32 f → bit_and f (complement32 flag_known_mask) ≡ f / 16 * 16
unknown_flags f h = omega (arith, one, two, three, four, bit_and_mask 28 (f / 2 / 2 / 2 / 2))
  where
    one : bit_and f (complement32 flag_known_mask) ≡ bit_and (f / 2) 0x7fff_fff8 * 2
    one = bit_and_even f 0x7fff_fff8

    two : bit_and (f / 2) 0x7fff_fff8 ≡ bit_and (f / 2 / 2) 0x3fff_fffc * 2
    two = bit_and_even (f / 2) 0x3fff_fffc

    three : bit_and (f / 2 / 2) 0x3fff_fffc ≡ bit_and (f / 2 / 2 / 2) 0x1fff_fffe * 2
    three = bit_and_even (f / 2 / 2) 0x1fff_fffe

    four : bit_and (f / 2 / 2 / 2) 0x1fff_fffe ≡ bit_and (f / 2 / 2 / 2 / 2) 0x0fff_ffff * 2
    four = bit_and_even (f / 2 / 2 / 2) 0x0fff_ffff

module _ (h : FileHeader) where
  -- A valid header passes every test.
  pub header_check_accepts : IsValidHeader h → header_check h ≡ ok h
  unfolding header_check
  header_check_accepts v = ground (
    arith,
    block_size_range h.block_size_log,
    unknown_flags h.flags (omega arith),
    bit_and-four h.flags,
  )

  -- Only a valid header does.
  pub header_check_only :
      HeaderFits h → {k : FileHeader} → header_check h ≡ ok k → (k ≡ h) × IsValidHeader h
  unfolding header_check
  header_check_only fits e = ground (
    arith,
    block_size_range h.block_size_log,
    unknown_flags h.flags fits.flags,
    bit_and-four h.flags,
  )
