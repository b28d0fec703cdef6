-- ===== src/Format/Record/RoundTrip.antt =====
-- Record headers that are stored parse and verify, and only the stored form of a payload verifies
-- with it.
use xq.Base.{
  ℕ, ◌^◌, ◌≤◌, ◌≡◌, refl, sym, ap, ap₂, ◌∙◌, List, ◌++◌, some, arith, length, take, drop, All,
}
use xq.Common.Checked.{IsU64}
use xq.Common.Bytes.{IsByte, IsU32, ld8, ld32le, ld64le, st8, st32le, st64le}
use xq.Common.Bytes.RoundTrip.{ld8-st8, ld32le-st32le, ld64le-st64le}
use xq.Common.Crc32c.{crc32c}
use xq.Common.Crc32c.Laws.{crc32c-lt, crc32c_update-lt}
use xq.Status.{ok, xq_ok}
use xq.Format.Chunks.{join_chunks, chunk8, chunk32, chunk64}
use xq.Format.Record.{
  RecordHeader, record_front, record_crc, record_store, record_parse, verify, record_verify,
}

record_crc-lt :
    (front : List ℕ) (size : ℕ) (payload : List ℕ) → IsU32 (record_crc front size payload)
unfolding record_crc
record_crc-lt front size payload =
    ground (arith, crc32c-lt front, crc32c_update-lt (crc32c front) (take size payload))

module _ (r : RecordHeader) (payload rest : List ℕ) where
  stored : List ℕ
  stored = record_store r payload ++ rest

  front-stored : take 10 stored ≡ record_front r
  unfolding stored record_store record_front st8 st32le st64le
  front-stored = refl

  crc-stored : ld32le (drop 10 stored) ≡ record_crc (record_front r) r.size payload
  crc-stored = ap ld32le back ∙ ld32le-st32le _ rest (record_crc-lt (record_front r) r.size payload)
    where
      back : drop 10 stored ≡ st32le (record_crc (record_front r) r.size payload) ++ rest
      back = unfold stored record_store record_front st8 st32le st64le in refl

  size-stored : IsU64 r.size → ld64le (drop 2 stored) ≡ r.size
  unfolding stored record_store record_front st8 st32le st64le
  size-stored h = ld64le-st64le r.size (drop 10 stored) h

  tag-stored : IsByte r.tag → ld8 stored ≡ r.tag
  unfolding stored record_store record_front st8 st32le st64le
  tag-stored h = ld8-st8 r.tag (drop 1 stored) h

  rflags-stored : IsByte r.rflags → ld8 (drop 1 stored) ≡ r.rflags
  unfolding stored record_store record_front st8 st32le st64le
  rflags-stored h = ld8-st8 r.rflags (drop 2 stored) h

-- A stored record header of at most 2 ^ 40 payload bytes, with anything after it, parses to its
-- fields and the checksum of fields and payload.
pub record_parse-record_store :
    (r : RecordHeader) (payload rest : List ℕ) (len : ℕ)
    → IsByte r.tag
    → IsByte r.rflags
    → r.size ≤ 2 ^ 40
    → 14 ≤ len
    → record_parse (some (record_store r payload ++ rest)) len
      ≡ ok (record r { crc32c = record_crc (record_front r) r.size payload })
unfolding record_parse
record_parse-record_store r payload rest len ht hf hs n = ground (arith, tag, rflags, size, crc)
  where
    buf : List ℕ
    buf = record_store r payload ++ rest

    tag : ld8 buf ≡ r.tag
    tag = unfold stored in tag-stored r payload rest ht

    rflags : ld8 (drop 1 buf) ≡ r.rflags
    rflags = unfold stored in rflags-stored r payload rest hf

    size : ld64le (drop 2 buf) ≡ r.size
    size = unfold stored in size-stored r payload rest (omega arith)

    crc : ld32le (drop 10 buf) ≡ record_crc (record_front r) r.size payload
    crc = unfold stored in crc-stored r payload rest

-- A stored record header, with anything after it, verifies with the payload that it was stored
-- for.
pub record_verify-record_store :
    (r : RecordHeader) (payload rest : List ℕ)
    → IsU64 r.size
    → length payload ≡ r.size
    → record_verify (some (record_store r payload ++ rest)) (some payload) r.size ≡ xq_ok
unfolding record_verify verify
record_verify-record_store r payload rest hs e = ground (arith, size, crc, front)
  where
    buf : List ℕ
    buf = record_store r payload ++ rest

    size : ld64le (drop 2 buf) ≡ r.size
    size = unfold stored in size-stored r payload rest hs

    crc : ld32le (drop 10 buf) ≡ record_crc (record_front r) r.size payload
    crc = unfold stored in crc-stored r payload rest

    front : record_crc (take 10 buf) r.size payload ≡ record_crc (record_front r) r.size payload
    front = ap (λ t. record_crc t r.size payload) (unfold stored in front-stored r payload rest)

-- The record header that `xq_fmt_record_store` writes for this tag, these flags and this payload.
abbrev pub record_for : ℕ → ℕ → List ℕ → List ℕ
record_for tag rflags payload =
    record_store (record { tag = tag; rflags = rflags; size = length payload; crc32c = 0 }) payload

-- A header of 14 bytes or more verifies with a payload only where its first 14 bytes are what is
-- stored for that payload, under the tag and flags that they hold.
pub record_store-record_verify :
    (hdr payload : List ℕ)
    → All IsByte hdr
    → 14 ≤ length hdr
    → record_verify (some hdr) (some payload) (length payload) ≡ xq_ok
    → take 14 hdr ≡ record_for (ld8 hdr) (ld8 (drop 1 hdr)) payload
unfolding record_verify
record_store-record_verify hdr payload bytes n e =
    unfold record_store in
    sym (join_chunks hdr 0 10 4 10 refl)
    ∙ ap₂ ◌++◌ front (sym (chunk32 hdr bytes 10 (omega arith)) ∙ ap st32le (sym tests.1) ∙ crc)
  where
    tests :
        (ld64le (drop 2 hdr) ≡ length payload)
        × (record_crc (take 10 hdr) (length payload) payload ≡ ld32le (drop 10 hdr))
    tests = unfold verify in ground arith

    fields : RecordHeader
    fields = record { tag = ld8 hdr; rflags = ld8 (drop 1 hdr); size = length payload; crc32c = 0 }

    front : take 10 hdr ≡ record_front fields
    front =
        unfold record_front in
        sym (
          rw
            (
              ← tests.0,
              chunk64 hdr bytes 2 (omega arith),
              chunk8 hdr bytes 1 (omega arith),
              join_chunks hdr 1 1 8 2 refl,
            )
            (ap (λ t. t ++ take 9 (drop 1 hdr)) (chunk8 hdr bytes 0 (omega arith))
              ∙ join_chunks hdr 0 1 9 1 refl))

    crc :
        st32le (record_crc (take 10 hdr) (length payload) payload)
        ≡ st32le (record_crc (record_front fields) (length payload) payload)
    crc = ap (λ t. st32le (record_crc t (length payload) payload)) front
