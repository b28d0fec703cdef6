-- ===== src/Format/Index/Validate.antt =====
-- What `xq_fmt_index_validate` accepts.
use xq.Base.{
  ℕ, zero, suc, ◌+◌, ◌-◌, ◌%◌, ◌^◌, ◌≤◌, ◌<◌, ◌≡◌, ◌≢◌, ◌↔◌, ap, inl, inr, ◌∙◌, sym, List, some,
  arith,
}
use native.Mathlib.Decide.{ℕ_discrete}
use mathlib.Core.Path.{subst}
use xq.Status.{ok, both_ok, Result-cases, ok-injective}
use xq.Format.Index.{
  IndexPreamble, IndexEntry, entry_at, entry_check, validate_loop, index_validate,
}

-- Neighbouring entries: at least a block header of file, and 1 to 2 ^ 28 raw bytes, lie between
-- them, and the later one lies in the file where its size is known.
pub record EntryStep (file_size : ℕ) (prev cur : IndexEntry) : Type 0 where
  pub file_grows : prev.file_offset + 24 ≤ cur.file_offset
  pub raw_grows : prev.raw_offset < cur.raw_offset
  pub raw_bound : cur.raw_offset ≤ prev.raw_offset + 268_435_456
  pub in_file : file_size ≢ 0 → cur.file_offset ≤ file_size

pub record IsValidIndex (p : IndexPreamble) (entries : List ℕ) (file_size : ℕ) : Type 0 where
  pub blocks : p.block_count ≢ 0
  pub first_file : 32 ≤ (entry_at entries 0).file_offset
  pub first_raw : (entry_at entries 0).raw_offset ≡ 0
  pub steps :
      (i : ℕ)
      → i < p.block_count
      → EntryStep file_size (entry_at entries i) (entry_at entries (i + 1))
  pub total : (entry_at entries p.block_count).raw_offset ≡ p.total_raw

module _ (file_size : ℕ) (prev cur : IndexEntry) where
  entry_check-EntryStep : entry_check file_size prev cur ≡ ok tt → EntryStep file_size prev cur
  unfolding entry_check
  entry_check-EntryStep e = ground arith

  EntryStep-entry_check : EntryStep file_size prev cur → entry_check file_size prev cur ≡ ok tt
  unfolding entry_check
  EntryStep-entry_check s = ground arith

module _ (file_size : ℕ) (entries : List ℕ) where
  abbrev Steps : ℕ → ℕ → Type 0
  Steps i n =
      (j : ℕ)
      → i ≤ j
      → j < i + n
      → EntryStep file_size (entry_at entries j) (entry_at entries (j + 1))

  loop_accepts :
      (n i : ℕ)
      → Steps i n
      → validate_loop n file_size entries (i + 1) (entry_at entries i)
        ≡ ok (entry_at entries (i + n))
  unfolding validate_loop
  loop_accepts zero i s = ap (λ k. ok (entry_at entries k)) (omega arith)
  loop_accepts (suc n) i s =
      rw (EntryStep-entry_check file_size _ _ (s i (omega arith) (omega arith))) (
        loop_accepts n (i + 1) (λ j p q. s j (omega arith) (omega arith))
        ∙ ap (λ k. ok (entry_at entries k)) (omega arith))

  loop_step :
      (n i : ℕ) {e : IndexEntry}
      → validate_loop (suc n) file_size entries (i + 1) (entry_at entries i) ≡ ok e
      → EntryStep file_size (entry_at entries i) (entry_at entries (i + 1))
        × (validate_loop n file_size entries (i + 1 + 1) (entry_at entries (i + 1)) ≡ ok e)
  unfolding validate_loop
  loop_step n i h =
      let (u, checked, rest) =
        both_ok (entry_check file_size (entry_at entries i) (entry_at entries (i + 1))) _ h in
      (entry_check-EntryStep file_size _ _ checked, rest)

  Steps-suc :
      (n i : ℕ)
      → EntryStep file_size (entry_at entries i) (entry_at entries (i + 1))
      → Steps (i + 1) n
      → Steps i (suc n)
  Steps-suc n i first rest j p q = elim (ℕ_discrete i j) [
    | yes same ↦
        subst (λ k. EntryStep file_size (entry_at entries k) (entry_at entries (k + 1))) same first
    | no other ↦ rest j (omega arith) (omega arith)
  ]

  loop_only :
      (n i : ℕ) {e : IndexEntry}
      → validate_loop n file_size entries (i + 1) (entry_at entries i) ≡ ok e
      → (e ≡ entry_at entries (i + n)) × Steps i n
  loop_only zero i {e} h = (same, λ j p q. absurd (omega arith))
    where
      ends : entry_at entries i ≡ e
      ends = unfold validate_loop in ok-injective h

      here : i ≡ i + 0
      here = omega arith

      same : e ≡ entry_at entries (i + 0)
      same = sym ends ∙ ap (entry_at entries) here
  loop_only (suc n) i h =
      let (first, later) = loop_step n i h in
      let (last, rest) = loop_only n (i + 1) later in
      (last ∙ ap (entry_at entries) (omega arith), Steps-suc n i first rest)

count_wraps : (n : ℕ) → n < 2 ^ 64 - 1 → (n + 1) % 2 ^ 64 - 1 ≡ n
count_wraps n h = omega arith

module _ (p : IndexPreamble) (entries : List ℕ) (file_size : ℕ) where
  IsValidIndex-index_validate :
      p.block_count < 2 ^ 64 - 1
      → IsValidIndex p entries file_size
      → index_validate (some p) (some entries) file_size ≡ ok tt
  unfolding index_validate
  IsValidIndex-index_validate h v = ground (arith, count_wraps p.block_count h, looped)
    where
      looped :
          validate_loop p.block_count file_size entries 1 (entry_at entries 0)
          ≡ ok (entry_at entries p.block_count)
      looped =
          loop_accepts file_size entries p.block_count 0 (λ j _ q. v.steps j (omega arith))
          ∙ ap (λ k. ok (entry_at entries k)) (omega arith)

  index_validate-IsValidIndex :
      p.block_count < 2 ^ 64 - 1
      → index_validate (some p) (some entries) file_size ≡ ok tt
      → IsValidIndex p entries file_size
  unfolding index_validate
  index_validate-IsValidIndex h e =
      let (last, looped, total) = passed in
      let (same, steps) = loop_only file_size entries p.block_count 0 looped in
      record {
        blocks = ground arith;
        first_file = ground arith;
        first_raw = ground arith;
        steps = λ i q. steps i (omega arith) (omega arith);
        total =
            ap (λ k. (entry_at entries k).raw_offset) (omega arith)
            ∙ sym (ap (λ t. t.raw_offset) same)
            ∙ total;
      }
    where
      passed :
          (last : IndexEntry) × (validate_loop p.block_count file_size entries 1
              (entry_at entries 0)
            ≡ ok last)
          × (last.raw_offset ≡ p.total_raw)
      passed =
          elim (Result-cases
            (validate_loop p.block_count file_size entries 1 (entry_at entries 0))) [
              | inl (last, looped) ↦ (last, looped, ground (arith, count_wraps p.block_count h))
              | inr (st, failed) ↦ absurd (ground (arith, count_wraps p.block_count h))
            ]

  -- Where `block_count + 1` does not wrap, `xq_fmt_index_validate` accepts an index exactly if it is
  -- a valid one: its first block starts behind the file header at raw offset 0, each block takes 24
  -- bytes of file or more and 1 to 2 ^ 28 raw bytes, the offsets stay in the file where its size is
  -- known, and the last raw offset is the total.
  pub index_validate_iff :
      p.block_count < 2 ^ 64 - 1
      → (index_validate (some p) (some entries) file_size ≡ ok tt)
        ↔ IsValidIndex p entries file_size
  index_validate_iff h = (index_validate-IsValidIndex h, IsValidIndex-index_validate h)
