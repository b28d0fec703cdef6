-- ===== src/Common/Xxh64/Stream.antt =====
-- The hash in pieces of src/common/xq_xxh64.c against the hash of the whole buffer.
use xq.Base.{
  ℕ, ◌+◌, ◌-◌, ◌%◌, ◌^◌, ◌≤◌, ◌<◌, ◌≡◌, refl, ap, sym, ◌∙◌, List, [], ◌∷◌, ◌++◌, append-nil,
  append_assoc, min, true, false, leb, ltb, ◌!=◌, length, length-append, length-take, length-drop,
  take, drop, take-append, drop-append, take_all, take-append-drop, arith, Bool-cases, inl, inr,
  ltb→lt, ltb-false→le, ne-false→eq, leb-false→lt,
}
use mathlib.Core.Path.{subst}
use xq.Common.Checked.{IsU64}
use xq.Common.Xxh64.{
  Lanes, Xxh64State, lanes_init, round_lanes, hash_tail, xxh64, xxh64_init, xxh64_update,
  xxh64_final, absorb, keep_rest, copy_at, add64, p5, merge_lanes,
}
use xq.Common.Xxh64.Blocks.{
  blocks, blocks_run, blocks_rest, blocks-append, loop_stop, round_lanes-append,
}

-- A call of the update for each piece.
unfoldable pub updates : Xxh64State → List (List ℕ) → Xxh64State
updates s [] = s
updates s (piece ∷ pieces) = updates (xxh64_update s piece) pieces

unfoldable pub joined : List (List ℕ) → List ℕ
joined [] = []
joined (piece ∷ pieces) = piece ++ joined pieces

-- What the state stands for after the bytes `bs`.
record Holds (s : Xxh64State) (seed : ℕ) (bs : List ℕ) : Type 0 where
  pub run : blocks (lanes_init seed) bs ≡ (s.lanes, take (s.buffered) (s.buf))
  pub room : length (s.buf) ≡ 32
  pub pending : s.buffered < 32
  pub total_eq : s.total ≡ length bs % 2 ^ 64
  pub seed_eq : s.seed ≡ seed

-- What the state stands for up to the bytes that the rounds have taken.
record Rounds (s : Xxh64State) (seed : ℕ) (bs p : List ℕ) : Type 0 where
  pub run : blocks (lanes_init seed) bs ≡ blocks (s.lanes) p
  pub room : length (s.buf) ≡ 32
  pub empty : s.buffered ≡ 0
  pub total_eq : s.total ≡ length bs % 2 ^ 64
  pub seed_eq : s.seed ≡ seed

length-copy_at :
    (buf : List ℕ) (at : ℕ) (p : List ℕ)
    → at + length p ≤ length buf
    → length (copy_at buf at p) ≡ length buf
unfolding copy_at
length-copy_at buf at p h = omega (
  arith,
  length-append (take at buf) (p ++ drop (at + length p) buf),
  length-append p (drop (at + length p) buf),
  length-take at buf,
  length-drop (at + length p) buf,
)

take-copy_at :
    (buf : List ℕ) (at : ℕ) (p : List ℕ) (n : ℕ)
    → n ≡ at + length p
    → n ≤ length buf
    → take n (copy_at buf at p) ≡ take at buf ++ p
unfolding copy_at
take-copy_at buf at p n same h =
    ap (take n) (sym (append_assoc (take at buf) p (drop (at + length p) buf)))
    ∙ take-append n (take at buf ++ p) (drop (at + length p) buf)
        (omega (arith, length-append (take at buf) p, length-take at buf))

keep_rest-Holds :
    (s : Xxh64State) (seed : ℕ) (bs rest : List ℕ)
    → blocks (lanes_init seed) bs ≡ (s.lanes, rest)
    → length rest < 32
    → length (s.buf) ≡ 32
    → s.buffered ≡ 0
    → s.total ≡ length bs % 2 ^ 64
    → s.seed ≡ seed
    → Holds (keep_rest s rest) seed bs
unfolding keep_rest
keep_rest-Holds s seed bs [] run less room empty total same = record {
  run = run ∙ ap (λ n. (s.lanes, take n (s.buf))) (sym empty);
  room = room;
  pending = omega arith;
  total_eq = total;
  seed_eq = same;
}
keep_rest-Holds s seed bs (b ∷ rest) run less room empty total same = record {
  run =
      run
      ∙ ap (λ l. (s.lanes, l))
          (sym (take-copy_at (s.buf) 0 (b ∷ rest) (length (b ∷ rest)) (omega arith) (omega arith)));
  room = length-copy_at (s.buf) 0 (b ∷ rest) (omega arith) ∙ room;
  pending = less;
  total_eq = total;
  seed_eq = same;
}

absorb-Holds :
    (s : Xxh64State) (seed : ℕ) (bs p : List ℕ) → Rounds s seed bs p → Holds (absorb s p) seed bs
unfolding absorb
absorb-Holds s seed bs p h =
    keep_rest-Holds _ seed bs ((blocks (s.lanes) p).1) (h.run) (blocks_rest (s.lanes) p) (h.room)
      (h.empty) (h.total_eq) (h.seed_eq)

-- The counter counts modulo `2 ^ 64`.
total_after :
    (total : ℕ) (bs p : List ℕ)
    → total ≡ length bs % 2 ^ 64
    → add64 total (length p) ≡ length (bs ++ p) % 2 ^ 64
total_after total bs p h = omega (arith, length-append bs p)

module _ (s : Xxh64State) (seed : ℕ) (bs p : List ℕ) (h : Holds s seed bs) where
  resumed : blocks (lanes_init seed) (bs ++ p) ≡ blocks (s.lanes) (take (s.buffered) (s.buf) ++ p)
  resumed =
      blocks-append (lanes_init seed) bs p
      ∙ ap (λ (r : Lanes × List ℕ). blocks (r.0) (r.1 ++ p)) (h.run)

  pending_length : length (take (s.buffered) (s.buf)) ≡ s.buffered
  pending_length = omega (arith, length-take (s.buffered) (s.buf), h.pending, h.room)

  -- Bytes that leave the buffer short of a block.
  short_of :
      s.buffered + length p < 32
      → (n : ℕ) → n ≡ s.buffered + length p
      → blocks (lanes_init seed) (bs ++ p) ≡ (s.lanes, take n (copy_at (s.buf) (s.buffered) p))
  short_of less n same =
      resumed
      ∙ loop_stop _ (s.lanes) (take (s.buffered) (s.buf) ++ p)
          (omega (arith, length-append (take (s.buffered) (s.buf)) p, pending_length))
      ∙ ap (λ l. (s.lanes, l))
          (sym (take-copy_at (s.buf) (s.buffered) p n same (omega (arith, h.room))))

  -- Bytes `front` that fill it, and the bytes `back` after them.
  full_of :
      (front back : List ℕ)
      → p ≡ front ++ back
      → s.buffered + length front ≡ 32
      → blocks (lanes_init seed) (bs ++ p)
        ≡ blocks (round_lanes (s.lanes) (copy_at (s.buf) (s.buffered) front)) back
  full_of front back split full =
      resumed
      ∙ ap (λ q. blocks (s.lanes) (take (s.buffered) (s.buf) ++ q)) split
      ∙ ap (blocks (s.lanes)) (sym (append_assoc (take (s.buffered) (s.buf)) front back))
      ∙ blocks_run (s.lanes) (block ++ back) (omega (arith, length-append block back, block_length))
      ∙ ap (λ v. blocks v (drop 32 (block ++ back)))
          (round_lanes-append (s.lanes) block back (omega (arith, block_length)))
      ∙ ap (λ q. blocks (round_lanes (s.lanes) block) q) (drop-append 32 block back block_length)
      ∙ ap (λ q. blocks (round_lanes (s.lanes) q) back) (sym copied)
    where
      block : List ℕ
      block = take (s.buffered) (s.buf) ++ front

      block_length : length block ≡ 32
      block_length = omega (arith, length-append (take (s.buffered) (s.buf)) front, pending_length)

      copied : copy_at (s.buf) (s.buffered) front ≡ block
      copied =
          sym (
            take_all 32 (copy_at (s.buf) (s.buffered) front) (
              omega
                (arith, length-copy_at (s.buf) (s.buffered) front (omega (arith, h.room)), h.room)))
          ∙ take-copy_at (s.buf) (s.buffered) front 32 (omega arith) (omega (arith, h.room))

module _ (s : Xxh64State) (seed : ℕ) (bs p : List ℕ) (h : Holds s seed bs) where
  abbrev taken : ℕ
  taken = min (length p) (32 - s.buffered)

  update_short :
      ltb (s.buffered + taken) 32 ≡ true
      → Holds
          (record {
            lanes = s.lanes;
            total = add64 (s.total) (length p);
            buffered = s.buffered + taken;
            seed = s.seed;
            buf = copy_at (s.buf) (s.buffered) (take taken p);
          })
          seed
          (bs ++ p)
  update_short short = record {
    run =
        short_of s seed bs p h (omega (arith, less)) (s.buffered + taken) (omega (arith, less))
        ∙ ap (λ q. (s.lanes, take (s.buffered + taken) (copy_at (s.buf) (s.buffered) q)))
            (sym whole);
    room =
        length-copy_at (s.buf) (s.buffered) (take taken p)
          (omega (arith, h.room, h.pending, length-take taken p))
        ∙ h.room;
    pending = ltb→lt (s.buffered + taken) 32 short;
    total_eq = total_after (s.total) bs p (h.total_eq);
    seed_eq = h.seed_eq;
  }
    where
      less : s.buffered + taken < 32
      less = ltb→lt (s.buffered + taken) 32 short

      whole : take taken p ≡ p
      whole = take_all taken p (omega (arith, less))

  update_full :
      ltb (s.buffered + taken) 32 ≡ false
      → Holds
          (absorb
            (record {
              lanes = round_lanes (s.lanes) (copy_at (s.buf) (s.buffered) (take taken p));
              total = add64 (s.total) (length p);
              buffered = 0;
              seed = s.seed;
              buf = copy_at (s.buf) (s.buffered) (take taken p);
            })
            (drop taken p))
          seed
          (bs ++ p)
  update_full full = absorb-Holds _ seed (bs ++ p) (drop taken p) (record {
    run =
        full_of s seed bs p h (take taken p) (drop taken p) (sym (take-append-drop taken p))
          (omega (arith, more, length-take taken p, h.pending));
    room =
        length-copy_at (s.buf) (s.buffered) (take taken p)
          (omega (arith, h.room, h.pending, length-take taken p))
        ∙ h.room;
    empty = refl;
    total_eq = total_after (s.total) bs p (h.total_eq);
    seed_eq = h.seed_eq;
  })
    where
      more : 32 ≤ s.buffered + taken
      more = ltb-false→le (s.buffered + taken) 32 full

-- A state that holds `bs` holds `bs ++ p` after the update.
update-Holds :
    (s : Xxh64State) (seed : ℕ) (bs p : List ℕ)
    → Holds s seed bs
    → Holds (xxh64_update s p) seed (bs ++ p)
unfolding xxh64_update
update-Holds s seed bs p h = elim (Bool-cases (s.buffered != 0)) [
  | inr none_left ↦
      rw (xxh64_update, none_left)
        (absorb-Holds _ seed (bs ++ p) p (record {
          run =
              resumed s seed bs p h
              ∙ ap (λ n. blocks (s.lanes) (take n (s.buf) ++ p))
                  (ne-false→eq (s.buffered) 0 none_left);
          room = h.room;
          empty = ne-false→eq (s.buffered) 0 none_left;
          total_eq = total_after (s.total) bs p (h.total_eq);
          seed_eq = h.seed_eq;
        }))
  | inl some_left ↦ elim (Bool-cases (ltb (s.buffered + min (length p) (32 - s.buffered)) 32)) [
    | inl short ↦ rw (xxh64_update, some_left, short) (update_short s seed bs p h short)
    | inr full ↦ rw (xxh64_update, some_left, full) (update_full s seed bs p h full)
  ]
]

init-Holds :
    (memory : List ℕ) (seed : ℕ) → length memory ≡ 32 → Holds (xxh64_init memory seed) seed []
unfolding xxh64_init
init-Holds memory seed room = record {
  run = loop_stop 0 (lanes_init seed) [] (omega arith);
  room = room;
  pending = omega arith;
  total_eq = refl;
  seed_eq = refl;
}

updates-Holds :
    (s : Xxh64State) (seed : ℕ) (bs : List ℕ) (pieces : List (List ℕ))
    → Holds s seed bs
    → Holds (updates s pieces) seed (bs ++ joined pieces)
unfolding updates joined
updates-Holds s seed bs [] h = subst (Holds s seed) (sym (append-nil bs)) h
updates-Holds s seed bs (piece ∷ pieces) h =
    subst (Holds (updates (xxh64_update s piece) pieces) seed)
      (append_assoc bs piece (joined pieces))
      (updates-Holds (xxh64_update s piece) seed (bs ++ piece) pieces
        (update-Holds s seed bs piece h))

final-Holds :
    (s : Xxh64State) (seed : ℕ) (bs : List ℕ)
    → IsU64 (length bs)
    → Holds s seed bs
    → xxh64_final s ≡ xxh64 bs seed
unfolding xxh64_final xxh64
final-Holds s seed bs fits h = elim (Bool-cases (leb 32 (length bs))) [
  | inl more ↦
      rw (xxh64_final, xxh64, counted, more, h.run)
        (ap (λ n. hash_tail (add64 (merge_lanes (s.lanes)) n) (take (s.buffered) (s.buf))) counted)
  | inr less ↦
      rw (xxh64_final, xxh64, counted, less, h.seed_eq)
        (ap (λ n. hash_tail (add64 (add64 seed p5) n) (take (s.buffered) (s.buf))) counted
          ∙ ap (hash_tail (add64 (add64 seed p5) (length bs)))
              (sym (kept_of (leb-false→lt 32 (length bs) less))))
]
  where
    counted : s.total ≡ length bs
    counted = omega (arith, h.total_eq)

    -- Shorter bytes are all in the buffer.
    kept_of : length bs < 32 → bs ≡ take (s.buffered) (s.buf)
    kept_of less =
        ap (λ (r : Lanes × List ℕ). r.1)
          (sym (loop_stop (length bs) (lanes_init seed) bs less) ∙ h.run)

-- A hash in pieces, from any content of the buffer, is the hash of the pieces put together, where
-- their length fits the 64-bit counter.
pub xxh64_final-updates :
    (memory : List ℕ) (seed : ℕ) (pieces : List (List ℕ))
    → length memory ≡ 32
    → IsU64 (length (joined pieces))
    → xxh64_final (updates (xxh64_init memory seed) pieces) ≡ xxh64 (joined pieces) seed
xxh64_final-updates memory seed pieces room fits =
    final-Holds (updates (xxh64_init memory seed) pieces) seed (joined pieces) fits
      (updates-Holds (xxh64_init memory seed) seed [] pieces (init-Holds memory seed room))
