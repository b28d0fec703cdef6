-- ===== src/Codec/Stored.antt =====
-- src/codec/xq_codec_stored.c: the codec that stores a block as it is, and the table of
-- src/codec/xq_codec.c.
use xq.Base.{ℕ, ◌≤◌, ◌≡◌, ◌≢◌, List, ltb, ◌!=◌, length, arith}
use xq.Status.{Result, ok, err, ◌>>◌, fail_if, err_corrupt_block, err_dst_too_small}

-- `stored_bound`
unfoldable pub stored_bound : ℕ → ℕ
stored_bound src_size = src_size

-- `stored_compress`
unfoldable pub stored_compress : ℕ → List ℕ → Result (List ℕ)
stored_compress dst_cap src = do fail_if (ltb dst_cap (length src)) err_dst_too_small; ok src

-- `stored_decompress`
unfoldable pub stored_decompress : ℕ → List ℕ → ℕ → Result (List ℕ)
stored_decompress dst_cap src expected_len = do
  fail_if (expected_len != length src) err_corrupt_block
  fail_if (ltb dst_cap (length src)) err_dst_too_small
  ok src

-- The stored codec writes within its bound: with that capacity it stores the source, and the
-- decoder returns it where the length is the expected one and the destination holds it; another
-- expected length is a corrupt block.
pub stored_round_trip :
    (src : List ℕ) (dst_cap expected_len : ℕ)
    → (stored_compress (stored_bound (length src)) src ≡ ok src)
      × (expected_len ≡ length src
          → length src ≤ dst_cap
          → stored_decompress dst_cap src expected_len ≡ ok src)
      × (expected_len ≢ length src
          → stored_decompress dst_cap src expected_len ≡ err err_corrupt_block)
unfolding stored_compress stored_decompress stored_bound
stored_round_trip src dst_cap expected_len = ground arith
