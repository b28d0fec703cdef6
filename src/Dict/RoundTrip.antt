-- ===== src/Dict/RoundTrip.antt =====
-- The dictionary records of src/core/xq_dict.c: what is stored parses, and the sizes.
use xq.Base.{
  ℕ, ◌+◌, ◌/◌, ◌≤◌, ◌<◌, ◌≡◌, ◌⊎◌, List, ◌++◌, some, min, arith, length, length-take, take,
  take_all, leb, leb→le, leb-false→lt, Bool-cases, inl, inr, sym, ap, ◌∙◌, drop,
}
use xq.Common.Checked.{IsU64}
use xq.Common.Bytes.{IsByte, IsU32, st8, st32le, st64le}
use xq.Common.Bytes.RoundTrip.{ld8-st8, ld32le-st32le, ld64le-st64le}
use xq.Common.Xxh64.{xxh64}
use xq.Common.Xxh64.Bounds.{xxh64-lt}
use xq.Params.{dict_size_max}
use xq.Status.{ok}
use xq.Dict.{
  Dict, DictInfo, kind_prefix, kind_trained, dict_size_for, dict_build_prefix, dict_payload_size,
  dict_payload_store, dict_info_load, dict_info_check, dict_payload_parse,
}

-- A dictionary that a record can carry.
pub record IsValidDict (d : Dict) : Type 0 where
  pub id_positive : 1 ≤ d.id
  pub id_fits : IsU32 (d.id)
  pub kind_known : d.kind ≤ kind_trained
  pub not_empty : 1 ≤ length (d.bytes)
  pub size_bounded : length (d.bytes) ≤ dict_size_max

-- What the parse of a stored record says of the dictionary.
abbrev pub info_of : Dict → ℕ → ℕ → DictInfo
info_of d stored_codec stored_len = record {
  kind = d.kind;
  stored_codec = stored_codec;
  id = d.id;
  raw_size = length (d.bytes);
  stored_size = stored_len;
  xxh64 = xxh64 (d.bytes) 0;
}

dict_info_load-dict_payload_store :
    (d : Dict) (stored_codec stored_len : ℕ) (stored : List ℕ)
    → IsValidDict d
    → IsByte stored_codec
    → IsU64 stored_len
    → dict_info_load (dict_payload_store d stored_codec stored_len ++ stored)
      ≡ info_of d stored_codec stored_len
unfolding dict_info_load dict_payload_store st8 st32le st64le
dict_info_load-dict_payload_store d stored_codec stored_len stored v hc hs = λ i. record {
  kind = ld8-st8 (d.kind) (drop 1 bytes) (omega (arith, v.kind_known)) i;
  stored_codec = ld8-st8 stored_codec (drop 2 bytes) hc i;
  id = ld32le-st32le (d.id) (drop 6 bytes) (v.id_fits) i;
  raw_size = ld64le-st64le (length (d.bytes)) (drop 14 bytes) (omega (arith, v.size_bounded)) i;
  stored_size = ld64le-st64le stored_len (drop 22 bytes) hs i;
  xxh64 = ld64le-st64le (xxh64 (d.bytes) 0) (drop 30 bytes) (xxh64-lt (d.bytes) 0) i;
}
  where
    bytes : List ℕ
    bytes = dict_payload_store d stored_codec stored_len ++ stored

-- The stored payload of a valid dictionary, with its stored bytes behind it, parses to its
-- description.
pub dict_payload_parse-dict_payload_store :
    (d : Dict) (stored_codec stored_len : ℕ) (stored : List ℕ)
    → IsValidDict d
    → IsByte stored_codec
    → 1 ≤ stored_len
    → stored_len + 30 < 0x1_0000_0000_0000_0000
    → dict_payload_parse
        (some (dict_payload_store d stored_codec stored_len ++ stored))
        (dict_payload_size stored_len)
      ≡ ok (info_of d stored_codec stored_len)
unfolding dict_payload_parse dict_payload_size dict_info_check
dict_payload_parse-dict_payload_store d stored_codec stored_len stored v hc hp hs =
    rw (dict_info_load-dict_payload_store d stored_codec stored_len stored v hc (omega arith))
      (ground (arith, v.id_positive, v.kind_known, v.not_empty, v.size_bounded))

-- A dictionary built from a prefix is the start of the source, of the size that was wanted where the
-- source is long enough, and a record can carry it where that is at most the largest size.
pub dict_build_prefix-IsValidDict :
    (src : List ℕ) (want : ℕ)
    → 1 ≤ length src
    → 1 ≤ want
    → want ≤ dict_size_max
    → (d : Dict) × (dict_build_prefix src want ≡ ok d) × (d.bytes ≡ take want src) × IsValidDict d
unfolding dict_build_prefix
dict_build_prefix-IsValidDict src want hs hw hm = (
  record { bytes = take (min (length src) want) src; id = 1; kind = kind_prefix },
  ground (arith, hs, hw),
  whole,
  record {
    id_positive = omega arith;
    id_fits = omega arith;
    kind_known = omega arith;
    not_empty = omega (arith, length-take (min (length src) want) src);
    size_bounded = omega (arith, length-take (min (length src) want) src);
  },
)
  where
    whole : take (min (length src) want) src ≡ take want src
    whole = elim (Bool-cases (leb want (length src))) [
      | inl long ↦ ap (λ n. take n src) (omega (arith, leb→le want (length src) long))
      | inr short ↦
          take_all (min (length src) want) src (omega (arith, leb-false→lt want (length src) short))
          ∙ sym (take_all want src (omega (arith, leb-false→lt want (length src) short)))
    ]

-- The size chosen for a dictionary is 0, or at least 64 KiB and at most what was requested, the
-- largest size and a quarter of the source.
pub dict_size_for-bounds :
    (raw_size requested : ℕ)
    → (dict_size_for raw_size requested ≡ 0)
      ⊎ ((0x1_0000 ≤ dict_size_for raw_size requested)
          × (dict_size_for raw_size requested ≤ requested)
          × (dict_size_for raw_size requested ≤ dict_size_max)
          × (dict_size_for raw_size requested ≤ raw_size / 4))
unfolding dict_size_for
dict_size_for-bounds raw_size requested = ground arith
