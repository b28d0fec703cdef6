-- ===== src/Tests/Params.antt =====
-- The check of the parameters on the default ones, and on a block size that is no power of two.
use xq.Base.{ℕ, ◌≡◌, ◌↔◌, refl, some, false, List, [], ◌∷◌}
use xq.Status.{xq_ok, err_param}
use xq.Params.{params_default, params_check, bad_block_size, is_pow2, codec_available}
use xq.Params.Check.{IsValidParams, params_check_iff}

default_accepted : params_check false (some params_default) ≡ xq_ok
unfolding params_check bad_block_size is_pow2 codec_available
default_accepted = refl

odd_size_refused :
    params_check false (some (record params_default { block_size = 65537 })) ≡ err_param
unfolding params_check bad_block_size is_pow2 codec_available
odd_size_refused = refl

params_check_iff_example :
    (params_check false (some params_default) ≡ xq_ok) ↔ IsValidParams false params_default
params_check_iff_example = params_check_iff false params_default

abbrev two_bytes : List ℕ
two_bytes = 1 ∷ 2 ∷ []
