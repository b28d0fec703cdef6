-- ===== src/Format/Block/RoundTrip.antt =====
-- The block header that is stored is the one that is parsed, and nothing else is.
use mathlib.Core.Path.{subst}
use xq.Base.{ℕ, ◌≤◌, ◌≡◌, refl, sym, ap, ap₂, ◌∙◌, List, ◌++◌, some, arith, length, take, drop, All}
use xq.Common.Bytes.{
  IsByte, ld16le, ld32le, st8, st16le, st32le, st64le, ld8-lt, ld32le-lt, ld64le-lt,
}
use xq.Common.Bytes.RoundTrip.{ld8-st8, ld16le-st16le, ld32le-st32le, ld64le-st64le}
use xq.Common.Crc32c.{crc32c}
use xq.Common.Crc32c.Laws.{crc32c-lt}
use xq.Status.{ok}
use xq.Format.Consts.{block_magic}
use xq.Format.Chunks.{join_chunks, bytes_from, chunk8, chunk16, chunk32, chunk64}
use xq.Format.Block.{
  BlockHeader, block_fields, block_front, block_store, block_load, block_check, block_parse,
}
use xq.Format.Block.Check.{BlockFits, IsValidBlock, block_check_accepts, block_check_only}

block_load-block_store :
    (b : BlockHeader) (rest : List ℕ) → IsValidBlock b → block_load (block_store b ++ rest) ≡ b
unfolding block_load block_store block_front block_fields st8 st16le st32le st64le
block_load-block_store b rest v = λ i. record {
  bflags = ld8-st8 b.bflags (drop 3 bytes) v.bflags i;
  codec_id = ld8-st8 b.codec_id (drop 4 bytes) v.codec_id i;
  stored_size = ld32le-st32le b.stored_size (drop 8 bytes) (omega arith) i;
  raw_size = ld32le-st32le b.raw_size (drop 12 bytes) (omega arith) i;
  raw_offset = ld64le-st64le b.raw_offset (drop 20 bytes) v.raw_offset i;
}
  where
    bytes : List ℕ
    bytes = block_store b ++ rest

module _ (buf : List ℕ) (len : ℕ) where
  -- What a successful parse has tested.
  record Parsed (b : BlockHeader) : Type 0 where
    long : 24 ≤ len
    magic : ld16le buf ≡ block_magic
    checksum : ld32le (drop 20 buf) ≡ crc32c (take 20 buf)
    checked : block_check (block_load buf) ≡ ok b

  Parsed-block_parse : {b : BlockHeader} → Parsed b → block_parse (some buf) len ≡ ok b
  unfolding block_parse
  Parsed-block_parse p = ground arith

  block_parse-Parsed : {b : BlockHeader} → block_parse (some buf) len ≡ ok b → Parsed b
  unfolding block_parse
  block_parse-Parsed e = ground arith

-- Every valid block header survives: what was stored, with anything after it, parses to it.
pub block_parse-block_store :
    (b : BlockHeader) (rest : List ℕ) (len : ℕ)
    → IsValidBlock b
    → 24 ≤ len
    → block_parse (some (block_store b ++ rest)) len ≡ ok b
block_parse-block_store b rest len v n = Parsed-block_parse bytes len (record {
  long = n;
  magic = magic;
  checksum =
      ap ld32le back ∙ ld32le-st32le _ rest (crc32c-lt (block_front b)) ∙ sym (ap crc32c front);
  checked = ap block_check (block_load-block_store b rest v) ∙ block_check_accepts b v;
})
  where
    bytes : List ℕ
    bytes = block_store b ++ rest

    magic : ld16le bytes ≡ block_magic
    magic =
        unfold block_store block_front block_fields st16le in
        ld16le-st16le block_magic (drop 2 bytes) (omega arith)

    front : take 20 bytes ≡ block_front b
    front = unfold block_store block_front block_fields st8 st16le st32le st64le in refl

    back : drop 20 bytes ≡ st32le (crc32c (block_front b)) ++ rest
    back = unfold block_store block_front block_fields st8 st16le st32le st64le in refl

module _ (buf : List ℕ) (bytes : All IsByte buf) where
  block_load-BlockFits : BlockFits (block_load buf)
  unfolding block_load
  block_load-BlockFits = record {
    bflags = ld8-lt _ (bytes_from buf bytes 2);
    codec_id = ld8-lt _ (bytes_from buf bytes 3);
    stored_size = ld32le-lt _ (bytes_from buf bytes 4);
    raw_size = ld32le-lt _ (bytes_from buf bytes 8);
    raw_offset = ld64le-lt _ (bytes_from buf bytes 12);
  }

  module _ (long : 24 ≤ length buf) where
    block_fields-block_load : block_fields (block_load buf) ≡ take 18 (drop 2 buf)
    unfolding block_fields block_load
    block_fields-block_load =
        rw
          (
            chunk8 buf bytes 2 (omega arith),
            chunk8 buf bytes 3 (omega arith),
            chunk32 buf bytes 4 (omega arith),
            chunk32 buf bytes 8 (omega arith),
            chunk64 buf bytes 12 (omega arith),
            join_chunks buf 8 4 8 12 refl,
            join_chunks buf 4 4 12 8 refl,
            join_chunks buf 3 1 16 4 refl,
          )
          (join_chunks buf 2 1 17 3 refl)

    block_front-block_load : ld16le buf ≡ block_magic → block_front (block_load buf) ≡ take 20 buf
    unfolding block_front
    block_front-block_load magic =
        ap₂ ◌++◌ (ap st16le (sym magic) ∙ chunk16 buf bytes 0 (omega arith)) block_fields-block_load
        ∙ join_chunks buf 0 2 18 2 refl

    -- Whatever parses is a valid block header, and its stored form is the first 24 bytes.
    pub block_store-block_parse :
        (len : ℕ) {b : BlockHeader}
        → block_parse (some buf) len ≡ ok b
        → IsValidBlock b × (block_store b ≡ take 24 buf)
    block_store-block_parse len {b} e = (valid.1, ap block_store valid.0 ∙ stored)
      where
        p : Parsed buf len b
        p = block_parse-Parsed buf len e

        valid : (b ≡ block_load buf) × IsValidBlock b
        valid =
            let (same, v) = block_check_only (block_load buf) block_load-BlockFits p.checked in
            (same, subst IsValidBlock (sym same) v)

        front : block_front (block_load buf) ≡ take 20 buf
        front = block_front-block_load p.magic

        stored : block_store (block_load buf) ≡ take 24 buf
        stored =
            unfold block_store in
            ap₂ ◌++◌ front (
              ap (λ b. st32le (crc32c b)) front
              ∙ ap st32le (sym p.checksum)
              ∙ chunk32 buf bytes 20 (omega arith))
            ∙ join_chunks buf 0 20 4 20 refl
