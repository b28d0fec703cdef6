-- ===== src/Dict.antt =====
-- src/core/xq_dict.c: the dictionary of a container and its record. Every allocation succeeds; a
-- dictionary owns its bytes, so the flag `borrowed` has no counterpart.
pub mod RoundTrip
use xq.Base.{
  ℕ, zero, suc, ◌+◌, ◌-◌, ◌*◌, ◌/◌, ◌%◌, ◌^◌, min, List, [], ◌∷◌, ◌++◌, Option, none, some, Bool,
  true, false, ltb, ◌==◌, ◌!=◌, ◌||◌, if◌then◌else◌, length, take, drop,
}
use xq.Common.Bytes.{ld8, ld32le, ld64le, st8, st32le, st64le}
use xq.Common.Xxh64.{xxh64}
use xq.Params.{dict_size_max}
use xq.Status.{
  Result, ok, err, ◌>>=◌, ◌>>◌, fail_if, err_param, err_io, err_corrupt_record,
  err_unsupported_feature,
}

abbrev pub dict_payload_header : ℕ
dict_payload_header = 30

abbrev pub kind_prefix : ℕ
kind_prefix = 1

abbrev pub kind_trained : ℕ
kind_trained = 3

-- `xq_dict`
pub record Dict : Type 0 where
  pub bytes : List ℕ
  pub id : ℕ
  pub kind : ℕ

-- `xq_dict_size_for`
unfoldable pub dict_size_for : ℕ → ℕ → ℕ
dict_size_for raw_size requested =
    if requested == 0
    then 0
    else (let bounded = if ltb dict_size_max requested then dict_size_max else requested in
        let quarter = raw_size / 4 in
        let fitted = if ltb quarter bounded then quarter % 2 ^ 32 else bounded in
        if ltb fitted (64 * 1024) then 0 else fitted)

-- `xq_dict_build_prefix`
unfoldable pub dict_build_prefix : List ℕ → ℕ → Result Dict
dict_build_prefix src want = do
  fail_if (want == 0) err_param
  let n = min (length src) want
  fail_if (n == 0) err_param
  ok (record { bytes = take n src; id = 1; kind = kind_prefix })

-- `xq_dict_payload_size`
unfoldable pub dict_payload_size : ℕ → ℕ
dict_payload_size stored_len = dict_payload_header + stored_len

-- `xq_dict_payload_store`: the 30 bytes that it writes
unfoldable pub dict_payload_store : Dict → ℕ → ℕ → List ℕ
dict_payload_store d stored_codec stored_len =
    st8 (d.kind)
    ++ (st8 stored_codec
        ++ (st32le (d.id)
            ++ (st64le (length (d.bytes)) ++ (st64le stored_len ++ st64le (xxh64 (d.bytes) 0)))))

-- `xq_dict_info`
pub record DictInfo : Type 0 where
  pub kind : ℕ
  pub stored_codec : ℕ
  pub id : ℕ
  pub raw_size : ℕ
  pub stored_size : ℕ
  pub xxh64 : ℕ

-- The loads of `xq_dict_payload_parse`.
unfoldable pub dict_info_load : List ℕ → DictInfo
dict_info_load buf = record {
  kind = ld8 buf;
  stored_codec = ld8 (drop 1 buf);
  id = ld32le (drop 2 buf);
  raw_size = ld64le (drop 6 buf);
  stored_size = ld64le (drop 14 buf);
  xxh64 = ld64le (drop 22 buf);
}

-- The tests of `xq_dict_payload_parse` on the loaded fields.
unfoldable pub dict_info_check : DictInfo → ℕ → Result DictInfo
dict_info_check info len = do
  fail_if (info.id == 0) err_corrupt_record
  fail_if ((info.raw_size == 0) || ltb dict_size_max (info.raw_size)) err_corrupt_record
  fail_if (info.stored_size == 0) err_corrupt_record
  fail_if (info.stored_size != len - dict_payload_header) err_corrupt_record
  fail_if (ltb kind_trained (info.kind)) err_unsupported_feature
  ok info

-- `xq_dict_payload_parse`
unfoldable pub dict_payload_parse : Option (List ℕ) → ℕ → Result DictInfo
dict_payload_parse none len = err err_param
dict_payload_parse (some buf) len = do
  fail_if (ltb len dict_payload_header) err_corrupt_record
  dict_info_check (dict_info_load buf) len
