-- ===== src/Common/Xxh64/Blocks.antt =====
-- The loop of rounds of src/common/xq_xxh64.c: its fuel, and a run over bytes in two pieces.
use xq.Base.{ℕ, zero, suc, ◌+◌, ◌≤◌, ◌<◌, ◌≡◌, refl, ap, sym, ◌∙◌, suc, List, ◌++◌, arith}
use xq.Base.{
  leb, le→leb, leb-false, leb-false→lt, drop-append_left, length, length-append, length-drop, drop,
  Bool-cases, inl, inr, leb→le,
}
use xq.Base.{get_or-append_left, get_or-drop, get_or}
use mathlib.Core.Path.{subst}
use xq.Common.Bytes.{ld64le, ld32le}
use xq.Common.Xxh64.{Lanes, round_lanes, lanes_loop}

-- A load of eight bytes reads nothing after them.
ld64le-append : (xs ys : List ℕ) → 8 ≤ length xs → ld64le (xs ++ ys) ≡ ld64le xs
unfolding ld64le ld32le
ld64le-append xs ys h = rw (
  get_or-drop 4 0 (xs ++ ys) 0,
  get_or-drop 4 1 (xs ++ ys) 0,
  get_or-drop 4 2 (xs ++ ys) 0,
  get_or-drop 4 3 (xs ++ ys) 0,
  get_or-drop 4 0 xs 0,
  get_or-drop 4 1 xs 0,
  get_or-drop 4 2 xs 0,
  get_or-drop 4 3 xs 0,
  at 0 (omega arith),
  at 1 (omega arith),
  at 2 (omega arith),
  at 3 (omega arith),
  at 4 (omega arith),
  at 5 (omega arith),
  at 6 (omega arith),
  at 7 (omega arith),
)
  where
    at : (i : ℕ) → i < 8 → get_or (xs ++ ys) i 0 ≡ get_or xs i 0
    at i q = get_or-append_left xs ys i 0 (omega arith)

ld64le-append_drop :
    (k : ℕ) (xs ys : List ℕ) → k + 8 ≤ length xs → ld64le (drop k (xs ++ ys)) ≡ ld64le (drop k xs)
ld64le-append_drop k xs ys h =
    ap ld64le (drop-append_left k xs ys (omega arith))
    ∙ ld64le-append (drop k xs) ys (omega (arith, length-drop k xs))

-- The four rounds read nothing after the 32 bytes.
pub round_lanes-append :
    (v : Lanes) (xs ys : List ℕ) → 32 ≤ length xs → round_lanes v (xs ++ ys) ≡ round_lanes v xs
unfolding round_lanes
round_lanes-append v xs ys h = rw (
  ld64le-append xs ys (omega arith),
  ld64le-append_drop 8 xs ys (omega arith),
  ld64le-append_drop 16 xs ys (omega arith),
  ld64le-append_drop 24 xs ys (omega arith),
)

-- The loop with as much fuel as there are bytes.
abbrev pub blocks : Lanes → List ℕ → Lanes × List ℕ
blocks v p = lanes_loop (length p) v p

pub loop_stop : (fuel : ℕ) (v : Lanes) (p : List ℕ) → length p < 32 → lanes_loop fuel v p ≡ (v, p)
unfolding lanes_loop
loop_stop zero v p h = refl
loop_stop (suc fuel) v p h = rw (lanes_loop, leb-false 32 (length p) h)

loop_step :
    (fuel : ℕ) (v : Lanes) (p : List ℕ)
    → 32 ≤ length p
    → lanes_loop (suc fuel) v p ≡ lanes_loop fuel (round_lanes v p) (drop 32 p)
unfolding lanes_loop
loop_step fuel v p h = rw (lanes_loop, le→leb 32 (length p) h)

-- Any fuel from the number of the bytes on gives the same.
loop_enough :
    (f g : ℕ) (v : Lanes) (p : List ℕ)
    → length p ≤ f
    → length p ≤ g
    → lanes_loop f v p ≡ lanes_loop g v p
loop_enough zero g v p h k = loop_stop 0 v p (omega arith) ∙ sym (loop_stop g v p (omega arith))
loop_enough (suc f) zero v p h k =
    loop_stop (suc f) v p (omega arith) ∙ sym (loop_stop 0 v p (omega arith))
loop_enough (suc f) (suc g) v p h k = elim (Bool-cases (leb 32 (length p))) [
  | inl more ↦
      loop_step f v p (leb→le 32 (length p) more)
      ∙ loop_enough f g (round_lanes v p) (drop 32 p)
          (omega (arith, length-drop 32 p, leb→le 32 (length p) more))
          (omega (arith, length-drop 32 p, leb→le 32 (length p) more))
      ∙ sym (loop_step g v p (leb→le 32 (length p) more))
  | inr less ↦
      loop_stop (suc f) v p (leb-false→lt 32 (length p) less)
      ∙ sym (loop_stop (suc g) v p (leb-false→lt 32 (length p) less))
]

pub blocks_run :
    (v : Lanes) (p : List ℕ) → 32 ≤ length p → blocks v p ≡ blocks (round_lanes v p) (drop 32 p)
blocks_run v p h =
    loop_enough (length p) (suc (length p)) v p (omega arith) (omega arith)
    ∙ loop_step (length p) v p h
    ∙ loop_enough (length p) (length (drop 32 p)) (round_lanes v p) (drop 32 p)
        (omega (arith, length-drop 32 p)) (omega arith)

-- Fewer than 32 bytes are left, for a list of at most `n`.
blocks_rest_of : (n : ℕ) (v : Lanes) (p : List ℕ) → length p ≤ n → length ((blocks v p).1) < 32
blocks_rest_of zero v p h =
    subst (λ r. length (r.1) < 32) (sym (loop_stop (length p) v p (omega arith))) (omega arith)
blocks_rest_of (suc n) v p h = elim (Bool-cases (leb 32 (length p))) [
  | inr less ↦
      subst (λ r. length (r.1) < 32)
        (sym (loop_stop (length p) v p (leb-false→lt 32 (length p) less)))
        (leb-false→lt 32 (length p) less)
  | inl more ↦
      subst (λ r. length (r.1) < 32) (sym (blocks_run v p (leb→le 32 (length p) more)))
        (blocks_rest_of n (round_lanes v p) (drop 32 p)
          (omega (arith, length-drop 32 p, leb→le 32 (length p) more)))
]

pub blocks_rest : (v : Lanes) (p : List ℕ) → length ((blocks v p).1) < 32
blocks_rest v p = blocks_rest_of (length p) v p (omega arith)

-- A run over bytes in two pieces goes on with what the first left.
blocks-append_of :
    (n : ℕ) (v : Lanes) (xs ys : List ℕ)
    → length xs ≤ n
    → blocks v (xs ++ ys) ≡ blocks ((blocks v xs).0) ((blocks v xs).1 ++ ys)
blocks-append_of zero v xs ys h =
    ap (λ (r : Lanes × List ℕ). blocks (r.0) (r.1 ++ ys))
      (sym (loop_stop (length xs) v xs (omega arith)))
blocks-append_of (suc n) v xs ys h = elim (Bool-cases (leb 32 (length xs))) [
  | inr less ↦
      ap (λ (r : Lanes × List ℕ). blocks (r.0) (r.1 ++ ys))
        (sym (loop_stop (length xs) v xs (leb-false→lt 32 (length xs) less)))
  | inl more ↦
      blocks_run v (xs ++ ys) (omega (arith, length-append xs ys, leb→le 32 (length xs) more))
      ∙ ap (λ w. blocks w (drop 32 (xs ++ ys)))
          (round_lanes-append v xs ys (leb→le 32 (length xs) more))
      ∙ ap (λ r. blocks (round_lanes v xs) r)
          (drop-append_left 32 xs ys (leb→le 32 (length xs) more))
      ∙ blocks-append_of n (round_lanes v xs) (drop 32 xs) ys
          (omega (arith, length-drop 32 xs, leb→le 32 (length xs) more))
      ∙ ap (λ (r : Lanes × List ℕ). blocks (r.0) (r.1 ++ ys))
          (sym (blocks_run v xs (leb→le 32 (length xs) more)))
]

pub blocks-append :
    (v : Lanes) (xs ys : List ℕ)
    → blocks v (xs ++ ys) ≡ blocks ((blocks v xs).0) ((blocks v xs).1 ++ ys)
blocks-append v xs ys = blocks-append_of (length xs) v xs ys (omega arith)
