-- ===== src/Codec/Lzb/RoundTrip/Whole.antt =====
-- `xq_lzb_compress` followed by `xq_lzb_decompress` of src/codec/xq_codec_lzb.c.
use xq.Base.{
  ℕ, ◌+◌, ◌^◌, ◌≤◌, ◌<◌, ◌≡◌, refl, ap, ◌∙◌, List, [], ◌∷◌, Option, none, some, true, false, Bool,
  ◌==◌, if◌then◌else◌, length, arith, All,
}
use xq.Common.Bytes.{IsByte}
use xq.Codec.Exec.{Exec, ret, fault}
use xq.Codec.Lzb.Decode.{decode_loop, lzb_decompress}
use xq.Codec.Lzb.Match.{Tables, Cdict, depth_for}
use xq.Codec.Lzb.Match.Search.{IsDict, dict_bytes}
use xq.Codec.Lzb.Encode.{encode_loop}
use xq.Codec.Lzb.Context.{
  Cctx, cctx_prepare, reaches_chain, compress_with, compress_prepared, lzb_compress,
}
use xq.Codec.Lzb.RoundTrip.{Completes, encode_loop-Completes}

decompress-decode_loop :
    (room : ℕ) (dict written src : List ℕ)
    → ((f : ℕ) → length written ≤ f → decode_loop f room dict written [] ≡ ret src)
    → lzb_decompress room dict written ≡ ret src
unfolding lzb_decompress decode_loop
decompress-decode_loop room dict [] src h = h 0 (omega arith)
decompress-decode_loop room dict (b ∷ bs) src h =
    let some_bytes : (length (b ∷ bs) == 0) ≡ false = ground arith in
    rw some_bytes (h (length (b ∷ bs)) (omega arith))

module _ (room : ℕ) (d : Option Cdict) (level : ℕ) (src : List ℕ) (bytes : All IsByte src)
    (ok_dict : IsDict d) (word : length src + length (dict_bytes d) < 2 ^ 62)
    (big : length src ≤ room) where
  encode-decompress :
      (dst_cap : ℕ) (t : Tables) (written : List ℕ)
      → (encode_loop (length src) dst_cap d (depth_for level) src t [] 0 0).outcome ≡ ret written
      → lzb_decompress room (dict_bytes d) written ≡ ret src
  unfolding Completes
  encode-decompress dst_cap t written e =
      let (later, same, completes) =
        encode_loop-Completes room d src bytes ok_dict word big (length src) dst_cap
          (depth_for level) t [] 0 0 written (omega arith) (omega arith) e in
      ap (lzb_decompress room (dict_bytes d)) same
      ∙ decompress-decode_loop room (dict_bytes d) later src completes

  with-decompress :
      (dst_cap : ℕ) (c : Cctx) (head chain : Option (ℕ → ℕ)) (written : List ℕ)
      → (compress_with dst_cap d level src c head chain).0 ≡ ret written
      → lzb_decompress room (dict_bytes d) written ≡ ret src
  unfolding compress_with
  with-decompress dst_cap c none chain written e = cc
  with-decompress dst_cap c (some head) none written e =
      unreached (reaches_chain dst_cap d (depth_for level) src t) e
    where
      t : Tables
      t = record { head = head; chain = λ p. 0; hlog = c.hlog }

      outcome : Exec (List ℕ)
      outcome = (encode_loop (length src) dst_cap d (depth_for level) src t [] 0 0).outcome

      unreached :
          (b : Bool)
          → (if◌then◌else◌ {A = Exec (List ℕ) × Cctx} b (fault, c) (outcome, c)).0 ≡ ret written
          → lzb_decompress room (dict_bytes d) written ≡ ret src
      unreached true e = cc
      unreached false e = encode-decompress dst_cap t written e
  with-decompress dst_cap c (some head) (some chain) written e =
      encode-decompress dst_cap _ written e

  prepared-decompress :
      (dst_cap : ℕ) (prepared : Bool × Cctx) (written : List ℕ)
      → (compress_prepared dst_cap d level src prepared).0 ≡ ret written
      → lzb_decompress room (dict_bytes d) written ≡ ret src
  unfolding compress_prepared
  prepared-decompress dst_cap (false, c) written e = cc
  prepared-decompress dst_cap (true, c) written e =
      with-decompress dst_cap c c.head c.chain written e

-- From any context, at any level, with any dictionary whose tables point into it and any content in
-- what `malloc` gives: what the encoder returns for bytes, the decoder with the same dictionary and
-- with room for the source turns back into the source. Source and dictionary have less than 2 ^ 62
-- bytes.
pub lzb_decompress-lzb_compress :
    (head_mem chain_mem : Option (ℕ → ℕ)) (c : Cctx) (dst_cap : ℕ) (d : Option Cdict) (level : ℕ)
    (src written : List ℕ) (room : ℕ)
    → All IsByte src
    → IsDict d
    → length src + length (dict_bytes d) < 2 ^ 62
    → length src ≤ room
    → (lzb_compress head_mem chain_mem c dst_cap d level src).0 ≡ ret written
    → lzb_decompress room (dict_bytes d) written ≡ ret src
unfolding lzb_compress
lzb_decompress-lzb_compress head_mem chain_mem c dst_cap d level [] written room bytes ok_dict word
      big e =
    ap (lzb_decompress room (dict_bytes d)) same ∙ nothing
  where
    same : written ≡ []
    same = cc

    nothing : lzb_decompress room (dict_bytes d) [] ≡ ret []
    nothing = unfold lzb_decompress in refl
lzb_decompress-lzb_compress head_mem chain_mem c dst_cap d level (b ∷ bs) written room bytes ok_dict
      word big e =
    prepared-decompress room d level (b ∷ bs) bytes ok_dict word big dst_cap
      (cctx_prepare head_mem chain_mem c (length (b ∷ bs))) written e
