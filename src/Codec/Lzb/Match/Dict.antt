-- ===== src/Codec/Lzb/Match/Dict.antt =====
-- The tables that `xq_lzb_cdict_new` of src/codec/xq_codec_lzb.c builds.
use xq.Base.{
  ℕ, zero, suc, ◌+◌, ◌-◌, ◌%◌, ◌^◌, ◌≤◌, ◌<◌, ◌≡◌, ◌≢◌, ap, sym, List, Option, none, some, true,
  false, Bool, ltb, leb, ◌==◌, length, arith, Bool-cases, inl, inr, All,
}
use mathlib.Core.Path.{subst}
use xq.Common.Bytes.{IsByte}
use xq.Codec.Lzb.Decode.{lzb_min_match}
use xq.Codec.Lzb.Match.{Tables, Cdict, update, hlog_for, insert, insert_from, cdict_new}
use xq.Codec.Lzb.Match.Search.{IsIndexed, IsDict, dict_bytes}

module _ (src : List ℕ) where
  -- Positions with four bytes, plus one, or 0: in the heads, and in the chain below `n`.
  record PointsInto (n : ℕ) (t : Tables) : Type 0 where
    head_in : (h : ℕ) → t.head h ≤ length src - 3
    chain_in : (i : ℕ) → i < n → t.chain i ≤ length src - 3

  update_in :
      (table : ℕ → ℕ) (at value i : ℕ)
      → value ≤ length src - 3
      → (i ≢ at → table i ≤ length src - 3)
      → update table at value i ≤ length src - 3
  update_in table at value i v w = elim (Bool-cases (i == at)) [
    | inl here ↦ rw here v
    | inr there ↦ rw there (w (ground arith))
  ]

  insert-PointsInto :
      (t : Tables) (i : ℕ)
      → i + 4 ≤ length src
      → PointsInto i t
      → PointsInto (i + 1) (insert src t i)
  unfolding insert
  insert-PointsInto t i fits v = record {
    head_in = λ h. update_in t.head _ ((i + 1) % 2 ^ 32) h (omega arith) (λ other. v.head_in h);
    chain_in = λ j q. update_in t.chain i _ j (v.head_in _) (λ other. v.chain_in j (omega arith));
  }

  -- All of the chain that the search can reach.
  record Reaches (t : Tables) : Type 0 where
    head_in : (h : ℕ) → t.head h ≤ length src - 3
    chain_in : (i : ℕ) → i + 4 ≤ length src → t.chain i ≤ length src - 3

  insert_from-Reaches :
      (n i : ℕ) (t : Tables) → length src ≤ i + n → PointsInto i t → Reaches (insert_from n src i t)
  unfolding insert_from
  insert_from-Reaches zero i t h v = record {
    head_in = v.head_in;
    chain_in = λ j q. v.chain_in j (omega arith);
  }
  insert_from-Reaches (suc n) i t h v = elim (Bool-cases (leb (i + lzb_min_match) (length src))) [
    | inl more ↦ rw more (
        insert_from-Reaches n (i + 1) (insert src t i) (omega arith)
          (insert-PointsInto t i (ground arith) v))
    | inr at_end ↦
        rw at_end (record { head_in = v.head_in; chain_in = λ j q. v.chain_in j (ground arith) })
  ]

-- The dictionary that `xq_lzb_cdict_new` makes of bytes, whatever is in the memory of its chain, has
-- those bytes, and its tables point into it.
pub cdict_new-IsDict :
    (calloc : Bool) (head chain : Option (ℕ → ℕ)) (bytes : List ℕ) (d : Cdict)
    → All IsByte bytes
    → cdict_new calloc head chain (some bytes) ≡ some d
    → (dict_bytes (some d) ≡ bytes) × IsDict (some d)
unfolding cdict_new
cdict_new-IsDict false head chain bytes d h e = cc
cdict_new-IsDict true none chain bytes d h e = cc
cdict_new-IsDict true (some head) none bytes d h e = cc
cdict_new-IsDict true (some head) (some chain) bytes d h e =
    elim (Bool-cases (ltb (length bytes) lzb_min_match)) [
      | inl short ↦ absurd (ground arith)
      | inr long ↦
          let same : made ≡ d = ground arith in
          (sym (ap (λ k. k.data_bytes) same), subst (λ k. IsDict (some k)) same (h, indexed))
    ]
  where
    start : Tables
    start = record { head = λ h. 0; chain = chain; hlog = hlog_for (length bytes) }

    made : Cdict
    made = record { data_bytes = bytes; tables = insert_from (length bytes) bytes 0 start }

    reaches : Reaches bytes made.tables
    reaches =
        insert_from-Reaches bytes (length bytes) 0 start (omega arith)
          (record { head_in = λ h. omega arith; chain_in = λ i q. absurd (omega arith) })

    indexed : IsIndexed made
    indexed = record { head_in = reaches.head_in; chain_in = reaches.chain_in }
