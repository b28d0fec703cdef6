-- ===== src/Format/Index.antt =====
-- src/format/xq_format.c: the block index. `entries` is the list of the bytes behind the preamble;
-- entry `i` stands at byte `16 * i`. A null pointer is `none`.
pub mod Payload
pub mod Validate
pub mod Find
use xq.Base.{
  ℕ, zero, suc, ◌+◌, ◌-◌, ◌*◌, ◌/◌, ◌%◌, ◌^◌, List, ◌++◌, Option, none, some, true, false, ◌&&◌,
  ltb, leb, ◌==◌, ◌!=◌, if◌then◌else◌, take, drop,
}
use xq.Common.Bytes.{ld64le, st64le}
use xq.Common.Checked.{add_u64_ok, mul_u64_ok}
use xq.Status.{
  Status, Result, ok, err, ◌>>=◌, ◌>>◌, fail_if, xq_ok, err_param, err_truncated, err_corrupt_index,
}
use xq.Format.Consts.{
  index_entry_size, index_preamble_size, file_header_size, block_header_size, block_size_max,
}

-- `xq_index_preamble`
pub record IndexPreamble : Type 0 where
  pub block_count : ℕ
  pub total_raw : ℕ
  pub total_stored : ℕ

-- `xq_index_entry`
pub record IndexEntry : Type 0 where
  pub file_offset : ℕ
  pub raw_offset : ℕ

-- `xq_fmt_index_preamble_store`
unfoldable pub index_preamble_store : IndexPreamble → List ℕ
index_preamble_store p = st64le p.block_count ++ (st64le p.total_raw ++ st64le p.total_stored)

-- `xq_fmt_index_entry_store`
unfoldable pub index_entry_store : IndexEntry → List ℕ
index_entry_store e = st64le e.file_offset ++ st64le e.raw_offset

-- `xq_fmt_index_entry_load`
unfoldable pub index_entry_load : List ℕ → IndexEntry
index_entry_load buf = record { file_offset = ld64le buf; raw_offset = ld64le (drop 8 buf) }

-- A step of `xq_fmt_index_payload_size`: 0 where the checked operation failed.
abbrev pub or_zero : Option ℕ → (ℕ → ℕ) → ℕ
or_zero none f = 0
or_zero (some n) f = f n

-- `xq_fmt_index_payload_size`
unfoldable pub index_payload_size : ℕ → ℕ
index_payload_size block_count = or_zero (add_u64_ok block_count 1) (λ n.
    or_zero (mul_u64_ok n index_entry_size)
      (λ bytes. or_zero (add_u64_ok bytes index_preamble_size) (λ total. total)))

-- `xq_fmt_index_preamble_parse`
unfoldable pub index_preamble_parse : Option (List ℕ) → ℕ → Result IndexPreamble
index_preamble_parse none len = err err_param
index_preamble_parse (some buf) len = do
  fail_if (ltb len index_preamble_size) err_truncated
  fail_if (index_payload_size (ld64le buf) == 0) err_corrupt_index
  ok (record {
    block_count = ld64le buf;
    total_raw = ld64le (drop 8 buf);
    total_stored = ld64le (drop 16 buf);
  })

-- `entries + i * XQ_INDEX_ENTRY_SIZE`, loaded
unfoldable pub entry_at : List ℕ → ℕ → IndexEntry
entry_at entries i = index_entry_load (drop (i * index_entry_size) entries)

-- `xq_ld64le(entries + i * XQ_INDEX_ENTRY_SIZE + 8)`
unfoldable pub raw_at : List ℕ → ℕ → ℕ
raw_at entries i = ld64le (drop (i * index_entry_size + 8) entries)

-- The `while` of `xq_fmt_index_find`, on `hi - lo` rounds of fuel: with none left, `hi - lo` is 0
-- and the loop has ended.
unfoldable pub find_loop : ℕ → List ℕ → ℕ → ℕ → ℕ → ℕ
find_loop zero entries raw_off lo hi = lo
find_loop (suc f) entries raw_off lo hi =
    let mid = lo + (hi - lo) / 2 in
    elim (ltb 1 (hi - lo)) [
      | true ↦ elim (leb (raw_at entries mid) raw_off) [
        | true ↦ find_loop f entries raw_off mid hi
        | false ↦ find_loop f entries raw_off lo mid
      ]
      | false ↦ lo
    ]

-- `xq_fmt_index_find`; -1 is `none`
unfoldable pub index_find : Option (List ℕ) → ℕ → ℕ → Option ℕ
index_find none n raw_off = none
index_find (some entries) n raw_off =
    if ltb n 2
    then none
    else (if leb (raw_at entries (n - 1)) raw_off
        then none
        else some (find_loop (n - 1) entries raw_off 0 (n - 1)))

-- The body of the `for` of `xq_fmt_index_validate`. The subtractions run where they do not wrap.
unfoldable pub entry_check : ℕ → IndexEntry → IndexEntry → Result (Unit {0})
entry_check file_size prev cur = do
  fail_if (leb cur.file_offset prev.file_offset) err_corrupt_index
  fail_if (leb cur.raw_offset prev.raw_offset) err_corrupt_index
  fail_if (ltb (cur.file_offset - prev.file_offset) block_header_size) err_corrupt_index
  fail_if (ltb block_size_max (cur.raw_offset - prev.raw_offset)) err_corrupt_index
  fail_if ((file_size != 0) && ltb file_size cur.file_offset) err_corrupt_index
  ok tt

-- The `for`: the entries from `i` on, as many as the first argument says, behind `prev`. The
-- last entry is returned.
unfoldable pub validate_loop : ℕ → ℕ → List ℕ → ℕ → IndexEntry → Result IndexEntry
validate_loop zero file_size entries i prev = ok prev
validate_loop (suc n) file_size entries i prev = do
  entry_check file_size prev (entry_at entries i)
  validate_loop n file_size entries (i + 1) (entry_at entries i)

-- `xq_fmt_index_validate`. `p->block_count + 1` wraps at 64 bits.
unfoldable pub index_validate : Option IndexPreamble → Option (List ℕ) → ℕ → Result (Unit {0})
index_validate none entries file_size = err err_param
index_validate (some p) none file_size = err err_param
index_validate (some p) (some entries) file_size = do
  fail_if (p.block_count == 0) err_corrupt_index
  let n = (p.block_count + 1) % 2 ^ 64
  let first = entry_at entries 0
  fail_if (ltb first.file_offset file_header_size) err_corrupt_index
  fail_if (first.raw_offset != 0) err_corrupt_index
  last ← validate_loop (n - 1) file_size entries 1 first
  fail_if (last.raw_offset != p.total_raw) err_corrupt_index
  ok tt
