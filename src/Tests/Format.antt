-- ===== src/Tests/Format.antt =====
-- The container's structures on small inputs.
use xq.Base.{
  ℕ, ◌+◌, ◌*◌, ◌≤◌, ◌<◌, ◌≡◌, ◌↔◌, refl, List, [], ◌∷◌, ◌++◌, some, none, arith, inr, length, take,
  drop, get_or, All,
}
use xq.Common.Bytes.{IsByte, ld8, st8, st16le, st32le, st64le}
use xq.Common.Checked.{IsU64}
use xq.Status.{ok, xq_ok}
use xq.Format.Header.{FileHeader, header_store, header_front, header_fields, header_parse}
use xq.Format.Header.Check.{IsValidHeader}
use xq.Format.Header.RoundTrip.{header_parse-header_store, header_store-header_parse}
use xq.Format.Block.{BlockHeader, block_store, block_front, block_fields, block_parse}
use xq.Format.Block.Check.{IsValidBlock}
use xq.Format.Block.RoundTrip.{block_parse-block_store, block_store-block_parse}
use xq.Format.Footer.{Footer, footer_store, footer_back, footer_parse, IsValidFooter}
use xq.Format.Footer.RoundTrip.{footer_parse-footer_store, footer_store-footer_parse}
use xq.Format.Record.{
  RecordHeader, record_front, record_crc, record_store, record_parse, record_verify,
}
use xq.Format.Record.RoundTrip.{
  record_parse-record_store, record_verify-record_store, record_store-record_verify, record_for,
}
use xq.Format.Index.{
  IndexPreamble, IndexEntry, index_payload_size, entry_at, index_find, index_validate,
  validate_loop, entry_check,
}
use xq.Format.Index.Payload.{
  index_payload_size_exact, index_entries_store, entry_at-index_entries_store, no_entry,
}
use xq.Format.Index.Validate.{IsValidIndex, index_validate_iff}
use xq.Format.Index.Find.{Holds, index_find_exact}

abbrev header : FileHeader
header = record {
  format_major = 1;
  format_minor = 0;
  header_size = 32;
  flags = 5;
  codec_id = 2;
  level = 6;
  checksum_id = 1;
  block_size_log = 20;
  raw_size = 70;
}

header-IsValidHeader : IsValidHeader header
header-IsValidHeader = record {
  format_major = refl;
  format_minor = omega arith;
  size_least = omega arith;
  size_most = omega arith;
  flags = omega arith;
  codec_id = omega arith;
  level = omega arith;
  checksum_id = omega arith;
  block_size_log = inr (omega arith, omega arith);
  uniform = λ h. omega arith;
  raw_size = omega arith;
}

header_parse-header_store_example :
    header_parse (some (header_store header ++ (1 ∷ []))) 33 ≡ ok header
header_parse-header_store_example =
    header_parse-header_store header (1 ∷ []) 33 header-IsValidHeader (omega arith)

abbrev header_bytes : List ℕ
header_bytes = header_store header ++ (1 ∷ [])

header_bytes-IsByte : All IsByte header_bytes
unfolding header_store header_front header_fields st8 st16le st32le st64le
header_bytes-IsByte = omega arith

header_store-header_parse_example :
    IsValidHeader header × (header_store header ≡ take 32 header_bytes)
header_store-header_parse_example =
    header_store-header_parse header_bytes header_bytes-IsByte
      (unfold header_store header_front header_fields st8 st16le st32le st64le in omega arith) 33
      {h = header} (header_parse-header_store header (1 ∷ []) 33 header-IsValidHeader (omega arith))

abbrev block : BlockHeader
block = record { bflags = 1; codec_id = 0; stored_size = 70; raw_size = 70; raw_offset = 0 }

block-IsValidBlock : IsValidBlock block
block-IsValidBlock = record {
  bflags = omega arith;
  codec_id = omega arith;
  raw_least = omega arith;
  raw_most = omega arith;
  stored_most = omega arith;
  stored_raw = λ h. refl;
  raw_offset = omega arith;
  raw_end = omega arith;
}

block_parse-block_store_example : block_parse (some (block_store block ++ (1 ∷ []))) 25 ≡ ok block
block_parse-block_store_example =
    block_parse-block_store block (1 ∷ []) 25 block-IsValidBlock (omega arith)

abbrev block_bytes : List ℕ
block_bytes = block_store block ++ (1 ∷ [])

block_bytes-IsByte : All IsByte block_bytes
unfolding block_store block_front block_fields st8 st16le st32le st64le
block_bytes-IsByte = omega arith

length-block_bytes : 24 ≤ length block_bytes
unfolding block_store block_front block_fields st8 st16le st32le st64le
length-block_bytes = omega arith

block_store-block_parse_example : IsValidBlock block × (block_store block ≡ take 24 block_bytes)
block_store-block_parse_example =
    block_store-block_parse block_bytes block_bytes-IsByte length-block_bytes 25 {b = block}
      (block_parse-block_store block (1 ∷ []) 25 block-IsValidBlock (omega arith))

abbrev footer : Footer
footer = record { index_offset = 126; index_size = 70; stream_checksum = 5 }

footer-IsValidFooter : IsValidFooter footer
footer-IsValidFooter = record {
  absent = λ h. omega arith;
  size_least = λ h. omega arith;
  offset_least = λ h. omega arith;
  index_offset = omega arith;
  index_size = omega arith;
  stream_checksum = omega arith;
}

footer_parse-footer_store_example :
    footer_parse (some (footer_store footer ++ (1 ∷ []))) 33 ≡ ok footer
footer_parse-footer_store_example =
    footer_parse-footer_store footer (1 ∷ []) 33 footer-IsValidFooter (omega arith)

abbrev footer_bytes : List ℕ
footer_bytes = footer_store footer ++ (1 ∷ [])

footer_bytes-IsByte : All IsByte footer_bytes
unfolding footer_store footer_back st32le st64le
footer_bytes-IsByte = omega arith

length-footer_bytes : 32 ≤ length footer_bytes
unfolding footer_store footer_back st32le st64le
length-footer_bytes = omega arith

footer_store-footer_parse_example :
    IsValidFooter footer × (footer_store footer ≡ take 32 footer_bytes)
footer_store-footer_parse_example =
    footer_store-footer_parse footer_bytes footer_bytes-IsByte length-footer_bytes 33 {f = footer}
      (footer_parse-footer_store footer (1 ∷ []) 33 footer-IsValidFooter (omega arith))

abbrev metadata : RecordHeader
metadata = record { tag = 2; rflags = 0; size = 3; crc32c = 0 }

abbrev payload : List ℕ
payload = 10 ∷ 20 ∷ 30 ∷ []

record_parse-record_store_example :
    record_parse (some (record_store metadata payload ++ payload)) 17
    ≡ ok (record metadata { crc32c = record_crc (record_front metadata) 3 payload })
record_parse-record_store_example =
    record_parse-record_store metadata payload payload 17 (omega arith) (omega arith) (omega arith)
      (omega arith)

record_verify-record_store_example :
    record_verify (some (record_store metadata payload ++ payload)) (some payload) 3 ≡ xq_ok
record_verify-record_store_example =
    record_verify-record_store metadata payload payload (omega arith) refl

abbrev record_bytes : List ℕ
record_bytes = record_store metadata payload ++ payload

record_bytes-IsByte : All IsByte record_bytes
unfolding record_store record_front st8 st32le st64le
record_bytes-IsByte = omega arith

length-record_bytes : 14 ≤ length record_bytes
unfolding record_store record_front st8 st32le st64le
length-record_bytes = omega arith

record_store-record_verify_example :
    take 14 record_bytes ≡ record_for (ld8 record_bytes) (ld8 (drop 1 record_bytes)) payload
record_store-record_verify_example =
    record_store-record_verify record_bytes payload record_bytes-IsByte length-record_bytes
      (record_verify-record_store metadata payload payload (omega arith) refl)

-- The size of an index of two blocks, and one that does not fit 64 bits.
index_payload_size_exact_example :
    (IsU64 (24 + 16 * (2 + 1)) → index_payload_size 2 ≡ 24 + 16 * (2 + 1))
    × (¬ IsU64 (24 + 16 * (2 + 1)) → index_payload_size 2 ≡ 0)
index_payload_size_exact_example = index_payload_size_exact 2 (omega arith)

abbrev preamble : IndexPreamble
preamble = record { block_count = 2; total_raw = 70; total_stored = 118 }

abbrev two_blocks : List IndexEntry
two_blocks =
    record { file_offset = 32; raw_offset = 0 }
    ∷ record { file_offset = 96; raw_offset = 40 }
    ∷ record { file_offset = 150; raw_offset = 70 }
    ∷ []

abbrev entries : List ℕ
entries = index_entries_store two_blocks ++ []

entry : (i : ℕ) → i < 3 → entry_at entries i ≡ get_or two_blocks i no_entry
entry i h = entry_at-index_entries_store two_blocks [] i (omega arith) h

entry_at-index_entries_store_example :
    entry_at entries 1 ≡ record { file_offset = 96; raw_offset = 40 }
entry_at-index_entries_store_example =
    entry_at-index_entries_store two_blocks [] 1 (omega arith) (omega arith)

entries_validate : index_validate (some preamble) (some entries) 200 ≡ ok tt
unfolding index_validate validate_loop entry_check
entries_validate = rw (entry 0 (omega arith), entry 1 (omega arith), entry 2 (omega arith)) refl

index_validate_iff_example :
    (index_validate (some preamble) (some entries) 200 ≡ ok tt) ↔ IsValidIndex preamble entries 200
index_validate_iff_example = index_validate_iff preamble entries 200 (omega arith)

entries-IsValidIndex : IsValidIndex preamble entries 200
entries-IsValidIndex = (index_validate_iff preamble entries 200 (omega arith)).0 entries_validate

index_find_exact_example :
    (50 < 70
      → (i : ℕ) × (index_find (some entries) 3 50 ≡ some i)
        × (i < 2)
        × Holds entries 50 i
        × ((j : ℕ) → j < 2 → Holds entries 50 j → j ≡ i))
    × (70 ≤ 50 → index_find (some entries) 3 50 ≡ none)
index_find_exact_example = index_find_exact preamble entries 200 entries-IsValidIndex 50
