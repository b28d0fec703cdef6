-- ===== src/Codec/Lzb/Match/Chain.antt =====
-- src/codec/xq_codec_lzb.c: the chain of a position that the look ahead inserts, and the loop behind
-- `emit_seq` inserts again.
use xq.Base.{
  ℕ, zero, suc, ◌+◌, ◌%◌, ◌^◌, ◌≤◌, ◌<◌, ◌≡◌, refl, ◌∙◌, List, Option, none, some, true, false, ltb,
  leb, ◌==◌, length, arith, Bool-cases, inl, inr,
}
use xq.Codec.Lzb.Decode.{lzb_min_match}
use xq.Codec.Lzb.Match.{Tables, Cdict, Best, insert, insert_from, find_match}
use xq.Codec.Lzb.Encode.{choose, look_ahead}

insert-chain_other :
    (src : List ℕ) (t : Tables) (i j : ℕ) → j < i → (insert src t i).chain j ≡ t.chain j
unfolding insert
insert-chain_other src t i j h = let e : (j == i) ≡ false = ground arith in rw e refl

insert_from-chain_before :
    (n : ℕ) (src : List ℕ) (i : ℕ) (t : Tables) (j : ℕ)
    → j < i
    → (insert_from n src i t).chain j ≡ t.chain j
unfolding insert_from
insert_from-chain_before zero src i t j h = refl
insert_from-chain_before (suc n) src i t j h =
    elim (Bool-cases (leb (i + lzb_min_match) (length src))) [
      | inl more ↦ rw more (
          insert_from-chain_before n src (i + 1) (insert src t i) j (omega arith)
          ∙ insert-chain_other src t i j h)
      | inr at_end ↦ rw at_end refl
    ]

insert-insert :
    (src : List ℕ) (t : Tables) (i : ℕ) → (insert src (insert src t i) i).chain i ≡ (i + 1) % 2 ^ 32
unfolding insert
insert-insert src t i = ground arith

choose-tables :
    (pos : ℕ) (found : Best) (t : Tables) (next : Option Best)
    → (choose pos found t next).tables ≡ t
unfolding choose
choose-tables pos found t none = refl
choose-tables pos found t (some next) = elim (Bool-cases (ltb (found.mlen + 1) next.mlen)) [
  | inl e ↦ rw e refl
  | inr e ↦ rw e refl
]

-- Where five bytes are left at `pos` and `pos + 1` fits 32 bits, and the look ahead keeps its match at
-- `pos`, of one byte or more, the loop behind `emit_seq` leaves `pos` linked to itself in the chain.
pub chain_to_itself :
    (t : Tables) (d : Option Cdict) (depth : ℕ) (src : List ℕ) (pos : ℕ) (found : Best)
    → pos + 5 ≤ length src
    → pos + 1 < 2 ^ 32
    → (look_ahead t d depth src pos found).start ≡ pos
    → 1 ≤ ((look_ahead t d depth src pos found).best).mlen
    → (insert_from
          ((look_ahead t d depth src pos found).best).mlen
          src
          ((look_ahead t d depth src pos found).start)
          (look_ahead t d depth src pos found).tables).chain
        pos
      ≡ pos + 1
unfolding insert_from
chain_to_itself t d depth src pos found inside word kept some_len =
    rw kept (linked ((look_ahead t d depth src pos found).best).mlen some_len)
  where
    again : leb (pos + lzb_min_match) (length src) ≡ true
    again = ground arith

    ahead : leb (pos + 1 + lzb_min_match) (length src) ≡ true
    ahead = ground arith

    looked : (look_ahead t d depth src pos found).tables ≡ insert src t pos
    looked =
        unfold look_ahead in
        rw ahead (
          choose-tables pos found (insert src t pos)
            (find_match (insert src t pos) d depth src (pos + 1)))

    linked :
        (m : ℕ)
        → 1 ≤ m
        → (insert_from m src pos (look_ahead t d depth src pos found).tables).chain pos ≡ pos + 1
    linked zero some_bytes = absurd (omega arith)
    linked (suc m) some_bytes =
        rw (again, looked)
          (insert_from-chain_before m src (pos + 1) (insert src (insert src t pos) pos) pos
              (omega arith)
            ∙ insert-insert src t pos
            ∙ omega arith)
