-- ===== src/Codec/Table.antt =====
-- src/codec/xq_codec.h and src/codec/xq_codec.c: the interface of the codecs and the table of them.
-- A dictionary object is the bytes that it was built from, and null is `none`. The context and the
-- dictionary object of a decompression were made by one codec, whose number is the first argument
-- of `decompress`: it says whether the context is null, and whether the codec that is called can read
-- the two, which is undefined where they are of another codec's types.
use xq.Base.{ℕ, List, [], ◌∷◌, Bool, Option, none, some, ◌&&◌, ◌==◌, true, false}
use xq.Status.{Result}
use xq.Params.{ℤ}
use xq.Codec.Exec.{Exec}

-- `xq_codec_vt`. A flag says whether a pointer to a function is set.
pub record CodecVt : Type 0 where
  pub id : ℕ
  pub bound : ℕ → ℕ
  pub has_cctx_new : Bool
  pub has_cdict_new : Bool
  pub has_ddict_new : Bool
  pub cdict_new : List ℕ → ℤ → ℕ → Option (List ℕ)
  pub ddict_new : List ℕ → Option (List ℕ)
  pub compress : ℕ → List ℕ → ℤ → Option (List ℕ) → Result (List ℕ)
  pub decompress : ℕ → ℕ → List ℕ → ℕ → Option (List ℕ) → Exec (List ℕ)

-- `xq_codec_has_dict`
unfoldable pub codec_has_dict : Option CodecVt → Bool
codec_has_dict none = false
codec_has_dict (some c) = c.has_cdict_new && c.has_ddict_new

-- `xq_codec_get`, on the table `codecs`
unfoldable pub codec_get : List CodecVt → ℕ → Option CodecVt
codec_get [] id = none
codec_get (c ∷ codecs) id =
    let later = codec_get codecs id in elim (c.id == id) [ true ↦ some c | false ↦ later ]
