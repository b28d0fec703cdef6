-- ===== src/Format/Index/Payload.antt =====
-- The payload of the index record: its size, its preamble and its entries.
use xq.Base.{
  ℕ, zero, suc, ◌+◌, ◌*◌, ◌≤◌, ◌<◌, ◌≡◌, refl, ap, ◌∙◌, sym, List, [], ◌∷◌, ◌++◌, append_assoc,
  some, arith, length, get_or, drop, drop-drop, drop-append, All,
}
use xq.Common.Checked.{IsU64, add_u64_ok_exact, mul_u64_ok_exact}
use native.Mathlib.Decide.{dec_lt}
use xq.Common.Bytes.{ld64le, st32le, st64le}
use xq.Common.Bytes.RoundTrip.{ld64le-st64le}
use xq.Status.{ok}
use xq.Format.Index.{
  IndexPreamble, IndexEntry, index_preamble_store, index_entry_store, index_entry_load,
  index_payload_size, index_preamble_parse, entry_at,
}

-- The size of an index payload over 64 bits: 24 bytes of preamble and 16 for each of the
-- `block_count + 1` entries where that fits 64 bits, and 0 where it does not.
pub index_payload_size_exact :
    (n : ℕ)
    → IsU64 n
    → (IsU64 (24 + 16 * (n + 1)) → index_payload_size n ≡ 24 + 16 * (n + 1))
      × (¬ IsU64 (24 + 16 * (n + 1)) → index_payload_size n ≡ 0)
unfolding index_payload_size
index_payload_size_exact n h = elim (dec_lt (n + 1) 0x1_0000_0000_0000_0000) [
  | no long ↦
      rw ((add_u64_ok_exact n 1 h (omega arith)).1 long) (λ p. absurd (omega arith), λ p. refl)
  | yes count ↦ elim (dec_lt ((n + 1) * 16) 0x1_0000_0000_0000_0000) [
    | no long ↦
        rw
          (
            (add_u64_ok_exact n 1 h (omega arith)).0 count,
            (mul_u64_ok_exact (n + 1) 16 count (omega arith)).1 long,
          )
          (λ p. absurd (omega arith), λ p. refl)
    | yes bytes ↦
        rw
          (
            (add_u64_ok_exact n 1 h (omega arith)).0 count,
            (mul_u64_ok_exact (n + 1) 16 count (omega arith)).0 bytes,
          )
          (ground (arith, add_u64_ok_exact ((n + 1) * 16) 24 bytes (omega arith)))
  ]
]

-- A preamble of 64-bit numbers whose payload size does not overflow survives.
pub index_preamble_parse-index_preamble_store :
    (p : IndexPreamble) (rest : List ℕ) (len : ℕ)
    → IsU64 p.block_count
    → IsU64 p.total_raw
    → IsU64 p.total_stored
    → IsU64 (24 + 16 * (p.block_count + 1))
    → 24 ≤ len
    → index_preamble_parse (some (index_preamble_store p ++ rest)) len ≡ ok p
unfolding index_preamble_parse
index_preamble_parse-index_preamble_store p rest len hb hr hs fits n =
    ground (arith, count, raw, stored, (index_payload_size_exact p.block_count hb).0 fits)
  where
    bytes : List ℕ
    bytes = index_preamble_store p ++ rest

    count : ld64le bytes ≡ p.block_count
    count =
        unfold index_preamble_store st64le st32le in ld64le-st64le p.block_count (drop 8 bytes) hb

    raw : ld64le (drop 8 bytes) ≡ p.total_raw
    raw = unfold index_preamble_store st64le st32le in ld64le-st64le p.total_raw (drop 16 bytes) hr

    stored : ld64le (drop 16 bytes) ≡ p.total_stored
    stored =
        unfold index_preamble_store st64le st32le in ld64le-st64le p.total_stored (drop 24 bytes) hs

abbrev pub EntryFits : IndexEntry → Type 0
EntryFits e = IsU64 e.file_offset × IsU64 e.raw_offset

index_entry_load-index_entry_store :
    (e : IndexEntry) (rest : List ℕ)
    → EntryFits e
    → index_entry_load (index_entry_store e ++ rest) ≡ e
unfolding index_entry_load index_entry_store st64le st32le
index_entry_load-index_entry_store e rest h = λ i. record {
  file_offset = ld64le-st64le e.file_offset (drop 8 bytes) h.0 i;
  raw_offset = ld64le-st64le e.raw_offset (drop 16 bytes) h.1 i;
}
  where
    bytes : List ℕ
    bytes = index_entry_store e ++ rest

pub length-index_entry_store : (e : IndexEntry) → length (index_entry_store e) ≡ 16
unfolding index_entry_store st64le st32le
length-index_entry_store e = refl

-- The entries one behind the other, as the index payload holds them.
unfoldable pub index_entries_store : List IndexEntry → List ℕ
index_entries_store [] = []
index_entries_store (e ∷ es) = index_entry_store e ++ index_entries_store es

abbrev pub no_entry : IndexEntry
no_entry = record { file_offset = 0; raw_offset = 0 }

-- Reading entry `i` of stored 64-bit entries, with anything after them, gives that entry back.
pub entry_at-index_entries_store :
    (es : List IndexEntry) (rest : List ℕ) (i : ℕ)
    → All EntryFits es
    → i < length es
    → entry_at (index_entries_store es ++ rest) i ≡ get_or es i no_entry
entry_at-index_entries_store [] rest i h lt = absurd (omega arith)
entry_at-index_entries_store (e ∷ es) rest zero (h, hs) lt =
    unfold entry_at index_entries_store in
    (ap index_entry_load (append_assoc (index_entry_store e) (index_entries_store es) rest)
      ∙ index_entry_load-index_entry_store e (index_entries_store es ++ rest) h)
entry_at-index_entries_store (e ∷ es) rest (suc i) (h, hs) lt =
    shifted ∙ entry_at-index_entries_store es rest i hs (omega arith)
  where
    later : List ℕ
    later = index_entries_store es ++ rest

    sixteen : suc i * 16 ≡ 16 + i * 16
    sixteen = omega arith

    past : drop (suc i * 16) (index_entry_store e ++ later) ≡ drop (i * 16) later
    past =
        ap (λ k. drop k (index_entry_store e ++ later)) sixteen
        ∙ sym (drop-drop (i * 16) 16 (index_entry_store e ++ later))
        ∙ ap (drop (i * 16))
            (drop-append 16 (index_entry_store e) later (length-index_entry_store e))

    shifted : entry_at (index_entries_store (e ∷ es) ++ rest) (suc i) ≡ entry_at later i
    shifted =
        unfold entry_at index_entries_store in
        ap index_entry_load (
          ap (drop (suc i * 16)) (append_assoc (index_entry_store e) (index_entries_store es) rest)
          ∙ past)
