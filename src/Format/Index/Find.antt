-- ===== src/Format/Index/Find.antt =====
-- `xq_fmt_index_find` on a validated index.
use mathlib.Core.Path.{subst}
use xq.Base.{
  ℕ, zero, suc, ◌+◌, ◌-◌, ◌*◌, ◌/◌, ◌≤◌, ◌<◌, ◌≡◌, ap, ◌∙◌, sym, List, some, none, arith, drop-drop,
  ltb, leb, Bool-cases, inl, inr,
}
use native.Mathlib.Decide.{dec_lt}
use xq.Common.Bytes.{ld64le}
use xq.Format.Index.{IndexPreamble, index_entry_load, entry_at, raw_at, find_loop, index_find}
use xq.Format.Index.Validate.{IsValidIndex}

-- The raw offset that the search reads is the one of the entry.
entry_at-raw_at : (entries : List ℕ) (i : ℕ) → (entry_at entries i).raw_offset ≡ raw_at entries i
unfolding entry_at raw_at index_entry_load
entry_at-raw_at entries i = ap ld64le (drop-drop 8 (i * 16) entries)

module _ (entries : List ℕ) (off : ℕ) where
  -- Block `i` holds the raw offset.
  pub record Holds (i : ℕ) : Type 0 where
    pub starts : raw_at entries i ≤ off
    pub ends : off < raw_at entries (i + 1)

  find_loop-Holds :
      (f lo hi : ℕ)
      → hi - lo ≤ f
      → lo < hi
      → raw_at entries lo ≤ off
      → off < raw_at entries hi
      → (find_loop f entries off lo hi < hi) × Holds (find_loop f entries off lo hi)
  unfolding find_loop
  find_loop-Holds zero lo hi hf h l u = absurd (omega arith)
  find_loop-Holds (suc f) lo hi hf h l u = elim (Bool-cases (ltb 1 (hi - lo))) [
    | inl wide ↦ elim (Bool-cases (leb (raw_at entries (lo + (hi - lo) / 2)) off)) [
      | inl below ↦
          rw (find_loop, wide, below)
            (find_loop-Holds f (lo + (hi - lo) / 2) hi (ground arith) (ground arith) (ground arith)
              u)
      | inr above ↦
          let (r, holds) =
            find_loop-Holds f lo (lo + (hi - lo) / 2) (ground arith) (ground arith) l
              (ground arith) in
          rw (find_loop, wide, above) (ground arith, holds)
    ]
    | inr narrow ↦
        let e : hi ≡ lo + 1 = ground arith in
        rw (find_loop, narrow)
          (h, record { starts = l; ends = subst (λ k. off < raw_at entries k) e u })
  ]

  -- Below the last entry the search returns a block that holds the offset.
  index_find-Holds :
      (n : ℕ)
      → 2 ≤ n
      → raw_at entries 0 ≤ off
      → off < raw_at entries (n - 1)
      → (i : ℕ) × (index_find (some entries) n off ≡ some i) × (i < n - 1) × Holds i
  unfolding index_find
  index_find-Holds n h l u =
      let (below, holds) = find_loop-Holds (n - 1) 0 (n - 1) (omega arith) (omega arith) l u in
      (find_loop (n - 1) entries off 0 (n - 1), ground arith, below, holds)

module _ (p : IndexPreamble) (entries : List ℕ) (file_size : ℕ)
    (v : IsValidIndex p entries file_size) where
  raw_at-suc : (i : ℕ) → i < p.block_count → raw_at entries i < raw_at entries (i + 1)
  raw_at-suc i h =
      omega
        (arith, (v.steps i h).raw_grows, entry_at-raw_at entries i, entry_at-raw_at entries (i + 1))

  raw_at_mono : (n i : ℕ) → i + n ≤ p.block_count → raw_at entries i ≤ raw_at entries (i + n)
  raw_at_mono zero i h = let e : i ≡ i + 0 = omega arith in rw (← e) (omega arith)
  raw_at_mono (suc n) i h =
      let e : i + 1 + n ≡ i + suc n = omega arith in
      omega (
        arith,
        raw_at-suc i (omega arith),
        raw_at_mono n (i + 1) (omega arith),
        ap (raw_at entries) e,
      )

  raw_at-le : (i j : ℕ) → i ≤ j → j ≤ p.block_count → raw_at entries i ≤ raw_at entries j
  raw_at-le i j h k =
      let e : i + (j - i) ≡ j = omega arith in
      omega (arith, raw_at_mono (j - i) i (omega arith), ap (raw_at entries) e)

  -- No two blocks hold one offset.
  Holds-unique :
      (off i j : ℕ)
      → i < p.block_count
      → j < p.block_count
      → Holds entries off i
      → Holds entries off j
      → i ≡ j
  Holds-unique off i j hi hj a b = elim (dec_lt i j) [
    | yes lt ↦ absurd (omega (arith, raw_at-le (i + 1) j (omega arith) (omega arith)))
    | no ge ↦ elim (dec_lt j i) [
      | yes gt ↦ absurd (omega (arith, raw_at-le (j + 1) i (omega arith) (omega arith)))
      | no le ↦ omega arith
    ]
  ]

  -- On a validated index, an offset below the total raw size is found in the one block that holds
  -- it, and an offset from there on is found in none.
  pub index_find_exact :
      (off : ℕ)
      → (off < p.total_raw
          → (i : ℕ) × (index_find (some entries) (p.block_count + 1) off ≡ some i)
            × (i < p.block_count)
            × Holds entries off i
            × ((j : ℕ) → j < p.block_count → Holds entries off j → j ≡ i))
        × (p.total_raw ≤ off → index_find (some entries) (p.block_count + 1) off ≡ none)
  index_find_exact off = (found, missing)
    where
      last : p.block_count + 1 - 1 ≡ p.block_count
      last = omega arith

      total : raw_at entries (p.block_count + 1 - 1) ≡ p.total_raw
      total = ap (raw_at entries) last ∙ sym (entry_at-raw_at entries p.block_count) ∙ v.total

      first : raw_at entries 0 ≡ 0
      first = sym (entry_at-raw_at entries 0) ∙ v.first_raw

      found :
          off < p.total_raw
          → (i : ℕ) × (index_find (some entries) (p.block_count + 1) off ≡ some i)
            × (i < p.block_count)
            × Holds entries off i
            × ((j : ℕ) → j < p.block_count → Holds entries off j → j ≡ i)
      found h =
          let (i, e, lt, holds) =
            index_find-Holds entries off (p.block_count + 1) (ground (arith, v.blocks))
              (omega (arith, first)) (omega (arith, total)) in
          (i, e, omega arith, holds, λ j q k. Holds-unique off j i q (omega arith) k holds)

      missing : p.total_raw ≤ off → index_find (some entries) (p.block_count + 1) off ≡ none
      missing h = unfold index_find in ground (arith, total)
