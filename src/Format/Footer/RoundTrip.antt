-- ===== src/Format/Footer/RoundTrip.antt =====
-- The footer that is stored is the one that is parsed, and nothing else is.
use mathlib.Core.Path.{subst}
use xq.Base.{
  ℕ, ◌≤◌, ◌≡◌, refl, sym, ap, ap₂, ◌∙◌, List, ◌++◌, some, arith, length, take, drop, All,
  append_assoc,
}
use xq.Common.Bytes.{IsByte, ld32le, st32le, st64le, ld64le-lt}
use xq.Common.Bytes.RoundTrip.{ld32le-st32le, ld64le-st64le}
use xq.Common.Crc32c.{crc32c}
use xq.Common.Crc32c.Laws.{crc32c-lt}
use xq.Status.{ok}
use xq.Format.Consts.{footer_magic}
use xq.Format.Chunks.{join_chunks, bytes_from, chunk32, chunk64}
use xq.Format.Footer.{
  Footer, footer_back, footer_store, footer_load, footer_check, footer_parse, IsValidFooter,
}

footer_load-footer_store :
    (f : Footer) (rest : List ℕ) → IsValidFooter f → footer_load (footer_store f ++ rest) ≡ f
unfolding footer_load footer_store footer_back st32le st64le
footer_load-footer_store f rest v = λ i. record {
  index_offset = ld64le-st64le f.index_offset (drop 12 bytes) v.index_offset i;
  index_size = ld64le-st64le f.index_size (drop 20 bytes) v.index_size i;
  stream_checksum = ld64le-st64le f.stream_checksum (drop 28 bytes) v.stream_checksum i;
}
  where
    bytes : List ℕ
    bytes = footer_store f ++ rest

footer_check_accepts : (f : Footer) → IsValidFooter f → footer_check f ≡ ok f
unfolding footer_check
footer_check_accepts f v = ground arith

module _ (buf : List ℕ) (len : ℕ) where
  -- What a successful parse has tested.
  record Parsed (f : Footer) : Type 0 where
    long : 32 ≤ len
    magic : ld32le (drop 28 buf) ≡ footer_magic
    checksum : ld32le buf ≡ crc32c (take 28 (drop 4 buf))
    checked : footer_check (footer_load buf) ≡ ok f

  Parsed-footer_parse : {f : Footer} → Parsed f → footer_parse (some buf) len ≡ ok f
  unfolding footer_parse
  Parsed-footer_parse p = ground arith

  footer_parse-Parsed : {f : Footer} → footer_parse (some buf) len ≡ ok f → Parsed f
  unfolding footer_parse
  footer_parse-Parsed e = ground arith

-- Every valid footer survives: what was stored, with anything after it, parses to it.
pub footer_parse-footer_store :
    (f : Footer) (rest : List ℕ) (len : ℕ)
    → IsValidFooter f
    → 32 ≤ len
    → footer_parse (some (footer_store f ++ rest)) len ≡ ok f
footer_parse-footer_store f rest len v n = Parsed-footer_parse bytes len (record {
  long = n;
  magic = magic;
  checksum = checksum ∙ sym (ap crc32c back);
  checked = ap footer_check (footer_load-footer_store f rest v) ∙ footer_check_accepts f v;
})
  where
    bytes : List ℕ
    bytes = footer_store f ++ rest

    magic : ld32le (drop 28 bytes) ≡ footer_magic
    magic =
        unfold footer_store footer_back st32le st64le in
        ld32le-st32le footer_magic rest (omega arith)

    back : take 28 (drop 4 bytes) ≡ footer_back f
    back = unfold footer_store footer_back st32le st64le in refl

    checksum : ld32le bytes ≡ crc32c (footer_back f)
    checksum =
        unfold footer_store in
        ap ld32le (append_assoc (st32le (crc32c (footer_back f))) (footer_back f) rest)
        ∙ ld32le-st32le _ (footer_back f ++ rest) (crc32c-lt (footer_back f))

module _ (buf : List ℕ) (bytes : All IsByte buf) where
  footer_check_only :
      {k : Footer}
      → footer_check (footer_load buf) ≡ ok k
      → (k ≡ footer_load buf) × IsValidFooter (footer_load buf)
  unfolding footer_check footer_load
  footer_check_only e = ground (
    arith,
    ld64le-lt _ (bytes_from buf bytes 4),
    ld64le-lt _ (bytes_from buf bytes 12),
    ld64le-lt _ (bytes_from buf bytes 20),
  )

  module _ (long : 32 ≤ length buf) where
    footer_back-footer_load :
        ld32le (drop 28 buf) ≡ footer_magic → footer_back (footer_load buf) ≡ take 28 (drop 4 buf)
    unfolding footer_back footer_load
    footer_back-footer_load magic =
        rw
          (
            chunk64 buf bytes 4 (omega arith),
            chunk64 buf bytes 12 (omega arith),
            chunk64 buf bytes 20 (omega arith),
            ap st32le (sym magic) ∙ chunk32 buf bytes 28 (omega arith),
            join_chunks buf 20 8 4 28 refl,
            join_chunks buf 12 8 12 20 refl,
          )
          (join_chunks buf 4 8 20 12 refl)

    -- Whatever parses is a valid footer, and its stored form is the first 32 bytes.
    pub footer_store-footer_parse :
        (len : ℕ) {f : Footer}
        → footer_parse (some buf) len ≡ ok f
        → IsValidFooter f × (footer_store f ≡ take 32 buf)
    footer_store-footer_parse len {f} e = (valid.1, ap footer_store valid.0 ∙ stored)
      where
        p : Parsed buf len f
        p = footer_parse-Parsed buf len e

        valid : (f ≡ footer_load buf) × IsValidFooter f
        valid =
            let (same, v) = footer_check_only p.checked in (same, subst IsValidFooter (sym same) v)

        back : footer_back (footer_load buf) ≡ take 28 (drop 4 buf)
        back = footer_back-footer_load p.magic

        stored : footer_store (footer_load buf) ≡ take 32 buf
        stored =
            unfold footer_store in
            ap₂ ◌++◌
              (ap (λ b. st32le (crc32c b)) back
                ∙ ap st32le (sym p.checksum)
                ∙ chunk32 buf bytes 0 (omega arith))
              back
            ∙ join_chunks buf 0 4 28 4 refl
