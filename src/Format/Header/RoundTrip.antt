-- ===== src/Format/Header/RoundTrip.antt =====
-- The file header that is stored is the one that is parsed, and nothing else is.
use mathlib.Core.Path.{subst}
use xq.Base.{ℕ, ◌≤◌, ◌≡◌, refl, sym, ap, ap₂, ◌∙◌, List, ◌++◌, some, arith}
use xq.Base.{length, take, drop, All}
use xq.Common.Bytes.{
  IsByte, ld32le, st8, st16le, st32le, st64le, ld8-lt, ld16le-lt, ld32le-lt, ld64le-lt,
}
use xq.Common.Bytes.RoundTrip.{ld8-st8, ld16le-st16le, ld32le-st32le, ld64le-st64le}
use xq.Common.Crc32c.{crc32c}
use xq.Common.Crc32c.Laws.{crc32c-lt}
use xq.Status.{ok}
use xq.Format.Consts.{xq_magic, mem_eq→eq, mem_eq_refl}
use xq.Format.Chunks.{join_chunks, bytes_from, chunk8, chunk16, chunk32, chunk64}
use xq.Format.Header.{
  FileHeader, header_fields, header_front, header_store, header_load, header_check, header_parse,
}
use xq.Format.Header.Check.{HeaderFits, IsValidHeader, header_check_accepts, header_check_only}

-- What is loaded from a stored header.
header_load-header_store :
    (h : FileHeader) (rest : List ℕ) → IsValidHeader h → header_load (header_store h ++ rest) ≡ h
unfolding header_load header_store header_front header_fields st8 st16le st32le st64le
header_load-header_store h rest v = λ i. record {
  format_major = ld8-st8 h.format_major (drop 9 bytes) (omega arith) i;
  format_minor = ld8-st8 h.format_minor (drop 10 bytes) v.format_minor i;
  header_size = ld16le-st16le h.header_size (drop 12 bytes) (omega arith) i;
  flags = ld32le-st32le h.flags (drop 16 bytes) (omega arith) i;
  codec_id = ld8-st8 h.codec_id (drop 17 bytes) v.codec_id i;
  level = ld8-st8 h.level (drop 18 bytes) v.level i;
  checksum_id = ld8-st8 h.checksum_id (drop 19 bytes) (omega arith) i;
  block_size_log = ld8-st8 h.block_size_log (drop 20 bytes) (ground arith) i;
  raw_size = ld64le-st64le h.raw_size (drop 28 bytes) v.raw_size i;
}
  where
    bytes : List ℕ
    bytes = header_store h ++ rest

length-header_front : (h : FileHeader) → length (header_front h) ≡ 28
unfolding header_front header_fields st8 st16le st32le st64le
length-header_front h = refl

module _ (buf : List ℕ) (len : ℕ) where
  -- What a successful parse has tested.
  record Parsed (h : FileHeader) : Type 0 where
    long : 32 ≤ len
    magic : take 8 buf ≡ xq_magic
    checksum : ld32le (drop 28 buf) ≡ crc32c (take 28 buf)
    checked : header_check (header_load buf) ≡ ok h

  Parsed-header_parse : {h : FileHeader} → Parsed h → header_parse (some buf) len ≡ ok h
  unfolding header_parse
  Parsed-header_parse p = ground (arith, mem_eq_refl xq_magic)

  header_parse-Parsed : {h : FileHeader} → header_parse (some buf) len ≡ ok h → Parsed h
  unfolding header_parse
  header_parse-Parsed e = ground (arith, mem_eq→eq (take 8 buf) xq_magic)

-- Every valid header survives: what was stored, with anything after it, parses to the header.
pub header_parse-header_store :
    (h : FileHeader) (rest : List ℕ) (len : ℕ)
    → IsValidHeader h
    → 32 ≤ len
    → header_parse (some (header_store h ++ rest)) len ≡ ok h
header_parse-header_store h rest len v n = Parsed-header_parse bytes len (record {
  long = n;
  magic = unfold header_store header_front header_fields st8 st16le st32le st64le in refl;
  checksum =
      ap ld32le back ∙ ld32le-st32le _ rest (crc32c-lt (header_front h)) ∙ sym (ap crc32c front);
  checked = ap header_check (header_load-header_store h rest v) ∙ header_check_accepts h v;
})
  where
    bytes : List ℕ
    bytes = header_store h ++ rest

    front : take 28 bytes ≡ header_front h
    front = unfold header_store header_front header_fields st8 st16le st32le st64le in refl

    back : drop 28 bytes ≡ st32le (crc32c (header_front h)) ++ rest
    back = unfold header_store header_front header_fields st8 st16le st32le st64le in refl

module _ (buf : List ℕ) (bytes : All IsByte buf) where
  header_load-HeaderFits : HeaderFits (header_load buf)
  unfolding header_load
  header_load-HeaderFits = record {
    format_major = ld8-lt _ (bytes_from buf bytes 8);
    format_minor = ld8-lt _ (bytes_from buf bytes 9);
    header_size = ld16le-lt _ (bytes_from buf bytes 10);
    flags = ld32le-lt _ (bytes_from buf bytes 12);
    codec_id = ld8-lt _ (bytes_from buf bytes 16);
    level = ld8-lt _ (bytes_from buf bytes 17);
    checksum_id = ld8-lt _ (bytes_from buf bytes 18);
    block_size_log = ld8-lt _ (bytes_from buf bytes 19);
    raw_size = ld64le-lt _ (bytes_from buf bytes 20);
  }

  module _ (long : 32 ≤ length buf) where
    header_fields-header_load : header_fields (header_load buf) ≡ take 20 (drop 8 buf)
    unfolding header_fields header_load
    header_fields-header_load =
        rw
          (
            chunk8 buf bytes 8 (omega arith),
            chunk8 buf bytes 9 (omega arith),
            chunk16 buf bytes 10 (omega arith),
            chunk32 buf bytes 12 (omega arith),
            chunk8 buf bytes 16 (omega arith),
            chunk8 buf bytes 17 (omega arith),
            chunk8 buf bytes 18 (omega arith),
            chunk8 buf bytes 19 (omega arith),
            chunk64 buf bytes 20 (omega arith),
            join_chunks buf 19 1 8 20 refl,
            join_chunks buf 18 1 9 19 refl,
            join_chunks buf 17 1 10 18 refl,
            join_chunks buf 16 1 11 17 refl,
            join_chunks buf 12 4 12 16 refl,
            join_chunks buf 10 2 16 12 refl,
            join_chunks buf 9 1 18 10 refl,
          )
          (join_chunks buf 8 1 19 9 refl)

    -- Storing what was loaded behind the magic writes the first 28 bytes back.
    header_front-header_load : take 8 buf ≡ xq_magic → header_front (header_load buf) ≡ take 28 buf
    unfolding header_front
    header_front-header_load magic =
        ap₂ ◌++◌ (sym magic) header_fields-header_load ∙ join_chunks buf 0 8 20 8 refl

    -- Whatever parses is a valid header, and its stored form is the first 32 bytes: no other
    -- bytes pass for it.
    pub header_store-header_parse :
        (len : ℕ) {h : FileHeader}
        → header_parse (some buf) len ≡ ok h
        → IsValidHeader h × (header_store h ≡ take 32 buf)
    header_store-header_parse len {h} e = (valid.1, ap header_store valid.0 ∙ stored)
      where
        p : Parsed buf len h
        p = header_parse-Parsed buf len e

        valid : (h ≡ header_load buf) × IsValidHeader h
        valid =
            let (same, v) = header_check_only (header_load buf) header_load-HeaderFits p.checked in
            (same, subst IsValidHeader (sym same) v)

        front : header_front (header_load buf) ≡ take 28 buf
        front = header_front-header_load p.magic

        stored : header_store (header_load buf) ≡ take 32 buf
        stored =
            unfold header_store in
            ap₂ ◌++◌ front (
              ap (λ b. st32le (crc32c b)) front
              ∙ ap st32le (sym p.checksum)
              ∙ chunk32 buf bytes 28 (omega arith))
            ∙ join_chunks buf 0 28 4 28 refl
