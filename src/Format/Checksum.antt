-- ===== src/Format/Checksum.antt =====
-- src/format/xq_format.c: the checksum behind a block's payload, as the encoder and the decoder use it.
use xq.Base.{ℕ, ◌<◌, arith, ◌==◌, if◌then◌else◌}

abbrev pub checksum_none : ℕ
checksum_none = 0

abbrev pub checksum_crc32c : ℕ
checksum_crc32c = 1

abbrev pub checksum_xxh64 : ℕ
checksum_xxh64 = 2

-- `xq_fmt_checksum_size`
unfoldable pub checksum_size : ℕ → ℕ
checksum_size checksum_id =
    if checksum_id == checksum_none
    then 0
    else (if checksum_id == checksum_crc32c
        then 4
        else (if checksum_id == checksum_xxh64 then 8 else 0))

pub checksum_size-lt : (k : ℕ) → checksum_size k < 9
unfolding checksum_size
checksum_size-lt k = ground arith
