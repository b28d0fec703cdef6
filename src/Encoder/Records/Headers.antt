-- ===== src/Encoder/Records/Headers.antt =====
-- The record headers that src/core/xq_encoder.c puts together from pieces are those of
-- src/format/xq_format.c for the whole payload.
use xq.Base.{
  ℕ, zero, suc, ◌+◌, ◌*◌, ◌≤◌, ◌≡◌, refl, sym, ap, ap₂, ◌∙◌, append-nil, List, [], ◌∷◌, ◌++◌,
  append_assoc, some, ◌!=◌, true, length, length-append, length-drop, if◌then◌else◌, take, drop,
  take_all, take-append-drop, arith,
}
use xq.Status.{xq_ok}
use xq.Common.Checked.{IsU64}
use xq.Common.Bytes.{IsU32, st8, st32le, st64le}
use xq.Common.Crc32c.{crc32c, crc32c_update, crc32c_loop}
use xq.Common.Crc32c.Laws.{crc32c-lt, crc32c_update-lt, crc32c_update-append}
use xq.Format.Record.{record_front, record_crc, record_store, record_verify}
use xq.Format.Record.RoundTrip.{record_for, record_verify-record_store}
use xq.Format.Index.{IndexEntry, index_entry_store, index_payload_size}
use xq.Format.Index.Payload.{
  index_entries_store, index_payload_size_exact, length-index_entry_store,
}
use xq.Dict.{dict_payload_size}
use xq.Decoder.Records.{rec_dict, rec_index, rflag_critical}
use xq.Encoder.Records.{chunk_entries, chunks_crc, dict_record_header, index_record_header}

-- A header put together from its first bytes and the checksum of a payload that is not empty.
header_of :
    (tag rflags n crc : ℕ) (payload : List ℕ)
    → n ≡ length payload
    → 1 ≤ length payload
    → crc ≡ crc32c_update (crc32c (st8 tag ++ (st8 rflags ++ st64le n))) payload
    → (st8 tag ++ (st8 rflags ++ st64le n)) ++ st32le crc ≡ record_for tag rflags payload
unfolding record_store record_front record_crc
header_of tag rflags n crc payload same some_in sum =
    ap (λ c. front n ++ st32le c) (sum ∙ sym checked)
    ∙ ap (λ k. front k ++ st32le (record_crc (front k) k payload)) same
  where
    front : ℕ → List ℕ
    front k = st8 tag ++ (st8 rflags ++ st64le k)

    checked : record_crc (front n) n payload ≡ crc32c_update (crc32c (front n)) payload
    checked =
        ap (λ b. if b then crc32c_update (crc32c (front n)) (take n payload) else crc32c (front n))
          (positive n (omega arith))
        ∙ ap (crc32c_update (crc32c (front n))) (take_all n payload (omega arith))
      where
        positive : (k : ℕ) → 1 ≤ k → (k != 0) ≡ true
        positive k h = ground arith

index_entries_store-append :
    (es fs : List IndexEntry)
    → index_entries_store (es ++ fs) ≡ index_entries_store es ++ index_entries_store fs
unfolding index_entries_store
index_entries_store-append [] fs = refl
index_entries_store-append (e ∷ es) fs =
    ap (λ l. index_entry_store e ++ l) (index_entries_store-append es fs)
    ∙ sym (append_assoc (index_entry_store e) (index_entries_store es) (index_entries_store fs))

length-index_entries_store :
    (es : List IndexEntry) → length (index_entries_store es) ≡ 16 * length es
unfolding index_entries_store
length-index_entries_store [] = refl
length-index_entries_store (e ∷ es) = omega (
  arith,
  length-append (index_entry_store e) (index_entries_store es),
  length-index_entry_store e,
  length-index_entries_store es,
)

update_none : (crc : ℕ) → IsU32 crc → crc32c_update crc [] ≡ crc
unfolding crc32c_update crc32c_loop
update_none crc small = omega arith

-- The chunks give the checksum of all the entries.
chunks_crc_whole :
    (fuel crc : ℕ) (es : List IndexEntry)
    → length es ≤ fuel
    → IsU32 crc
    → chunks_crc fuel crc es ≡ crc32c_update crc (index_entries_store es)
unfolding chunks_crc index_entries_store
chunks_crc_whole fuel crc [] enough small = sym (update_none crc small)
chunks_crc_whole zero crc (e ∷ es) enough small = absurd (omega arith)
chunks_crc_whole (suc fuel) crc (e ∷ es) enough small =
    chunks_crc_whole fuel (crc32c_update crc front) (drop chunk_entries (e ∷ es))
      (omega (arith, enough, length-drop chunk_entries (e ∷ es))) (crc32c_update-lt crc front)
    ∙ crc32c_update-append crc front (index_entries_store (drop chunk_entries (e ∷ es))) small
    ∙ ap (crc32c_update crc) (
        sym (index_entries_store-append (take chunk_entries (e ∷ es)) (drop chunk_entries (e ∷ es)))
        ∙ ap index_entries_store (take-append-drop chunk_entries (e ∷ es)))
  where
    front : List ℕ
    front = index_entries_store (take chunk_entries (e ∷ es))

-- The header of a dictionary's record is the one for its whole payload, of a head of 30 bytes.
pub dict_record_header_whole :
    (head stored : List ℕ)
    → length head ≡ 30
    → dict_record_header head stored ≡ record_for rec_dict rflag_critical (head ++ stored)
unfolding dict_record_header dict_payload_size
dict_record_header_whole head stored sized =
    header_of rec_dict rflag_critical (30 + length stored) _ (head ++ stored)
      (omega (arith, length-append head stored)) (omega (arith, length-append head stored))
      (crc32c_update-append _ head stored (crc32c-lt _))

-- The header of the index record is the one for the preamble and all the entries, where the size of
-- the payload fits 64 bits; the reader's check accepts it with them.
pub index_record_header_whole :
    (nblocks : ℕ) (pre : List ℕ) (idx : List IndexEntry)
    → length pre ≡ 24
    → length idx ≡ nblocks + 1
    → IsU64 (24 + 16 * (nblocks + 1))
    → (index_record_header (index_payload_size nblocks) pre idx
        ≡ record_for rec_index 0 (pre ++ index_entries_store idx))
      × (record_verify
            (some (index_record_header (index_payload_size nblocks) pre idx))
            (some (pre ++ index_entries_store idx))
            (index_payload_size nblocks)
          ≡ xq_ok)
index_record_header_whole nblocks pre idx sized counted fits = (whole, checked)
  where
    payload : List ℕ
    payload = pre ++ index_entries_store idx

    size : index_payload_size nblocks ≡ length payload
    size =
        (index_payload_size_exact nblocks (omega arith)).0 fits
        ∙ omega (
          arith,
          length-append pre (index_entries_store idx),
          length-index_entries_store idx,
          sized,
          counted,
        )

    front : ℕ
    front = crc32c (st8 rec_index ++ (st8 0 ++ st64le (index_payload_size nblocks)))

    whole :
        index_record_header (index_payload_size nblocks) pre idx ≡ record_for rec_index 0 payload
    whole =
        unfold index_record_header in
        header_of rec_index 0 (index_payload_size nblocks) _ payload size
          (omega (arith, length-append pre (index_entries_store idx), sized))
          (chunks_crc_whole (length idx) (crc32c_update front pre) idx (omega arith)
              (crc32c_update-lt front pre)
            ∙ crc32c_update-append front pre (index_entries_store idx) (crc32c-lt _))

    long : length payload ≡ 24 + 16 * (nblocks + 1)
    long = omega (
      arith,
      length-append pre (index_entries_store idx),
      length-index_entries_store idx,
      sized,
      counted,
    )

    checked :
        record_verify
          (some (index_record_header (index_payload_size nblocks) pre idx))
          (some payload)
          (index_payload_size nblocks)
        ≡ xq_ok
    checked =
        ap₂ (λ hdr n. record_verify (some hdr) (some payload) n)
          (whole ∙ sym (append-nil (record_for rec_index 0 payload))) size
        ∙ record_verify-record_store
            (record { tag = rec_index; rflags = 0; size = length payload; crc32c = 0 }) payload []
            (omega (arith, long, fits)) refl
