-- ===== src/Params.antt =====
-- include/xq.h and src/common/xq_common.c: the parameters and their check. A C `int` is a `ℤ`; the
-- codec and the checksum are read through a cast to `int`, so they are too. Of the allocator it
-- counts only which of its two functions are there.
pub mod Check
use xq.Base.{
  ℕ, zero, suc, ◌+◌, ◌-◌, ◌*◌, ◌^◌, ◌≡◌, Option, none, some, true, false, Bool, ltb, ◌==◌, ◌!=◌,
  ◌&&◌, ◌||◌, not, if◌then◌else◌, bit_and,
}
use xq.Status.{Status, xq_ok, err_param, err_unsupported_codec, err_memlimit}
use xq.Format.Consts.{block_size_min, block_size_max, checksum_max}

-- A signed number: `pos n` is `n`, `negsuc n` is `- n - 1`.
pub data ℤ : Type 0 where
  pos : ℕ → ℤ
  negsuc : ℕ → ℤ

-- `i < n` and `i > n` for an `int` and a constant
abbrev pub below : ℤ → ℕ → Bool
below (pos i) n = ltb i n
below (negsuc i) n = true

abbrev pub above : ℤ → ℕ → Bool
above (pos i) n = ltb n i
above (negsuc i) n = false

abbrev pub block_size_default : ℕ
block_size_default = 65536

abbrev pub dict_size_max : ℕ
dict_size_max = 268_435_456

abbrev pub dict_size_default : ℕ
dict_size_default = 8_388_608

abbrev pub codec_max : ℕ
codec_max = 3

-- `xq_allocator`: whether `alloc` and `free` are given
pub record Allocator : Type 0 where
  pub has_alloc : Bool
  pub has_free : Bool

-- `xq_params`
pub record Params : Type 0 where
  pub level : ℤ
  pub block_size : ℕ
  pub dict_size : ℕ
  pub codec : ℤ
  pub checksum : ℤ
  pub threads : ℤ
  pub mem_limit : ℕ
  pub alloc : Option Allocator

-- `xq_params_default`
abbrev pub params_default : Params
params_default = record {
  level = pos 6;
  block_size = block_size_default;
  dict_size = dict_size_default;
  codec = pos 2;
  checksum = pos 1;
  threads = pos 0;
  mem_limit = 0;
  alloc = none;
}

-- `xq_codec_available`: the stored codec, LZB and LZE, and zstd in a build with it
unfoldable pub codec_available : Bool → ℤ → Bool
codec_available with_zstd (negsuc n) = false
codec_available with_zstd (pos n) = (n == 0) || (n == 1) || (n == 2) || ((n == 3) && with_zstd)

-- `is_pow2`; `v - 1` wraps for 0, where the result is true.
unfoldable pub is_pow2 : ℕ → Bool
is_pow2 v = bit_and v (v - 1) == 0

-- `p->alloc && (!p->alloc->alloc || !p->alloc->free)`
abbrev pub half_allocator : Option Allocator → Bool
half_allocator none = false
half_allocator (some a) = not a.has_alloc || not a.has_free

-- `need`, a 64-bit sum that 32-bit terms do not overflow
abbrev pub mem_need : Params → ℕ
mem_need p = p.dict_size + (if p.block_size != 0 then p.block_size else block_size_default) * 2

-- The tests of `xq_params_check` on the block size.
unfoldable pub bad_block_size : ℕ → Bool
bad_block_size n = (n != 0) && (ltb n block_size_min || ltb block_size_max n || not (is_pow2 n))

-- A test that fails with a status, or the tests behind it.
abbrev pub unless : Bool → Status → Status → Status
unless failed st next = if failed then st else next

-- `xq_params_check`, without its message
unfoldable pub params_check : Bool → Option Params → Status
params_check with_zstd none = err_param
params_check with_zstd (some p) = unless (below p.level 1 || above p.level 12) err_param (
    unless (bad_block_size p.block_size) err_param (
      unless (ltb dict_size_max p.dict_size) err_param (
        unless (below p.codec 0 || above p.codec codec_max) err_param (
          unless (not (codec_available with_zstd p.codec)) err_unsupported_codec (
            unless (below p.checksum 0 || above p.checksum checksum_max) err_param (
              unless (below p.threads 0) err_param (
                unless (half_allocator p.alloc) err_param (
                  unless ((p.mem_limit != 0) && ltb p.mem_limit (mem_need p)) err_memlimit
                    xq_ok))))))))
