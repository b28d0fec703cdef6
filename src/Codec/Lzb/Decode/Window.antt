-- ===== src/Codec/Lzb/Decode/Window.antt =====
-- The copy of a match, dictionary part included, against its meaning: on the window that is the
-- dictionary followed by the output, byte after byte repeats the one `dist` before it.
use mathlib.Core.Path.{subst}
use xq.Base.{
  ℕ, zero, suc, ◌+◌, ◌-◌, ◌≤◌, ◌<◌, ◌≡◌, refl, ap, sym, ◌∙◌, List, [], ◌∷◌, ◌++◌, append_assoc,
  false, ltb, ◌==◌, ◌||◌, if◌then◌else◌, lt→ltb, not_ltb, length, length-append, length-take,
  length-drop, take, drop, get_or-take, take_next, get_or-append_left, get_or-append_right,
  get_or-drop, take-append, take_all, arith,
}
use native.Mathlib.Nat.{zero-add, suc-add}
use native.Mathlib.Decide.{dec_lt}
use xq.Common.Bytes.{byte_at}
use xq.Codec.Exec.{Exec, ret, read_bytes_ok, append_bytes_ok}
use xq.Codec.Lzb.Decode.{copy_match, decode_copy}

-- `n` more bytes, each a copy of the one `dist` before it.
pub extend : ℕ → ℕ → List ℕ → List ℕ
extend zero dist v = v
extend (suc n) dist v = extend n dist (v ++ (byte_at v (length v - dist) ∷ []))

pub extend_add :
    (m n dist : ℕ) (v : List ℕ) → extend (m + n) dist v ≡ extend n dist (extend m dist v)
unfolding extend
extend_add zero n dist v = rw zero-add
extend_add (suc m) n dist v =
    rw suc-add (extend_add m n dist (v ++ (byte_at v (length v - dist) ∷ [])))

-- Extending a front of `w` gives a longer front of `w` where `w` repeats itself at that distance.
pub extend-take :
    (n k dist : ℕ) (w : List ℕ)
    → 1 ≤ dist
    → dist ≤ k
    → k + n ≤ length w
    → ((i : ℕ) → i < n → byte_at w (k + i - dist) ≡ byte_at w (k + i))
    → extend n dist (take k w) ≡ take (k + n) w
unfolding extend
extend-take zero k dist w p q r h = ap (λ j. take j w) (omega arith)
extend-take (suc n) k dist w p q r h =
    ap (extend n dist) next
    ∙ extend-take n (suc k) dist w p (omega arith) (omega arith) (λ i hi.
      ap (byte_at w) (omega arith) ∙ h (suc i) (omega arith) ∙ ap (byte_at w) (omega arith))
    ∙ ap (λ j. take j w) (omega arith)
  where
    size : length (take k w) ≡ k
    size = omega (arith, length-take k w)

    same : byte_at (take k w) (length (take k w) - dist) ≡ byte_at w k
    same =
        ap (λ j. byte_at (take k w) (j - dist)) size
        ∙ get_or-take k (k - dist) w 0 (omega arith)
        ∙ ap (λ j. byte_at w (j - dist)) (omega arith)
        ∙ h 0 (omega arith)
        ∙ ap (byte_at w) (omega arith)

    next : take k w ++ (byte_at (take k w) (length (take k w) - dist) ∷ []) ≡ take (suc k) w
    next = ap (λ b. take k w ++ (b ∷ [])) same ∙ sym (take_next k w 0 (omega arith))

module _ (dst_cap : ℕ) (dict : List ℕ) where
  -- The run ends with an output that extends the window by `n` bytes at distance `dist`.
  pub record Extends (n dist : ℕ) (out : List ℕ) (run : Exec (List ℕ)) : Type 0 where
    pub result : List ℕ
    pub runs : run ≡ ret result
    pub window : dict ++ result ≡ extend n dist (dict ++ out)
    pub size : length result ≡ length out + n

  copy_match-Extends :
      (n dist : ℕ) (out : List ℕ)
      → 1 ≤ dist
      → dist ≤ length out
      → length out + n ≤ dst_cap
      → Extends n dist out (copy_match dst_cap dist n out)
  unfolding copy_match extend
  copy_match-Extends zero dist out p q r = record {
    result = out;
    runs = refl;
    window = refl;
    size = omega arith;
  }
  copy_match-Extends (suc n) dist out p q r =
      let rest =
        copy_match-Extends n dist (out ++ (b ∷ [])) p (omega (arith, longer))
          (omega (arith, longer)) in
      record {
        result = rest.result;
        runs = rw (inside, append_bytes_ok dst_cap out (b ∷ []) (omega arith)) rest.runs;
        window = rest.window ∙ ap (extend n dist) next;
        size = omega (arith, longer, rest.size);
      }
    where
      b : ℕ
      b = byte_at out (length out - dist)

      longer : length (out ++ (b ∷ [])) ≡ length out + 1
      longer = length-append out (b ∷ [])

      inside : ((dist == 0) || ltb (length out) dist) ≡ false
      inside = ground arith

      same : b ≡ byte_at (dict ++ out) (length (dict ++ out) - dist)
      same =
          sym (get_or-append_right dict out (length out - dist) 0)
          ∙ ap (byte_at (dict ++ out)) (omega (arith, length-append dict out))

      next :
          dict ++ (out ++ (b ∷ []))
          ≡ (dict ++ out) ++ (byte_at (dict ++ out) (length (dict ++ out) - dist) ∷ [])
      next = sym (append_assoc dict out (b ∷ [])) ∙ ap (λ c. (dict ++ out) ++ (c ∷ [])) same

  Extends-zero :
      (k dist d : ℕ) (out : List ℕ) → k ≡ 0 → Extends k dist out (copy_match dst_cap d k out)
  unfolding copy_match extend
  Extends-zero zero dist d out e = record {
    result = out;
    runs = refl;
    window = refl;
    size = omega arith;
  }
  Extends-zero (suc k) dist d out e = absurd (omega arith)

  -- The part of a match that lies in the dictionary.
  module _ (n dist : ℕ) (out : List ℕ) (back : ℕ) (at : dist ≡ length out + back)
      (some_back : 1 ≤ back) (in_dict : back ≤ length dict) (short : n ≤ back) where
    piece : List ℕ
    piece = take n (drop (length dict - back) dict)

    length-piece : length piece ≡ n
    unfolding piece
    length-piece = omega (
      arith,
      length-take n (drop (length dict - back) dict),
      length-drop (length dict - back) dict,
    )

    piece_at : (i : ℕ) → i < n → byte_at piece i ≡ byte_at dict (length dict - back + i)
    unfolding piece
    piece_at i h =
        get_or-take n i (drop (length dict - back) dict) 0 h
        ∙ get_or-drop (length dict - back) i dict 0

    whole : List ℕ
    whole = dict ++ (out ++ piece)

    repeats :
        (i : ℕ)
        → i < n
        → byte_at whole (length dict + length out + i - dist)
          ≡ byte_at whole (length dict + length out + i)
    unfolding whole
    repeats i h =
        ap (byte_at whole) (omega arith)
        ∙ get_or-append_left dict (out ++ piece) (length dict - back + i) 0 (omega arith)
        ∙ sym (piece_at i h)
        ∙ sym (get_or-append_right out piece i 0)
        ∙ sym (get_or-append_right dict (out ++ piece) (length out + i) 0)
        ∙ ap (byte_at whole) (omega arith)

    length-whole : length whole ≡ length dict + length out + n
    unfolding whole
    length-whole =
        omega (arith, length-append dict (out ++ piece), length-append out piece, length-piece)

    front : take (length dict + length out) whole ≡ dict ++ out
    unfolding whole
    front =
        ap (take (length dict + length out)) (sym (append_assoc dict out piece))
        ∙ take-append (length dict + length out) (dict ++ out) piece (length-append dict out)

    dict_extends : whole ≡ extend n dist (dict ++ out)
    dict_extends =
        sym (take_all (length dict + length out + n) whole (omega (arith, length-whole)))
        ∙ sym (
            extend-take n (length dict + length out) dist whole (omega arith) (omega arith)
              (omega (arith, length-whole)) repeats)
        ∙ ap (extend n dist) front

  module _ (mlen dist : ℕ) (out : List ℕ) (p : 1 ≤ dist) (q : dist ≤ length out + length dict)
      (r : length out + mlen ≤ dst_cap) where
    near_Extends :
        dist ≤ length out → Extends mlen dist out (decode_copy dst_cap dict dist mlen out)
    near_Extends near =
        subst (Extends mlen dist out) (sym same) (copy_match-Extends mlen dist out p near r)
      where
        same : decode_copy dst_cap dict dist mlen out ≡ copy_match dst_cap dist mlen out
        same = unfold decode_copy in rw (not_ltb (length out) dist near)

    -- `n` bytes come from the dictionary.
    far_copies :
        (n : ℕ)
        → length out < dist
        → n ≤ mlen
        → n ≤ dist - length out
        → (if ltb (dist - length out) mlen then dist - length out else mlen) ≡ n
        → decode_copy dst_cap dict dist mlen out ≡ (
            let out' = out ++ take n (drop (length dict - (dist - length out)) dict) in
            copy_match dst_cap (length out') (mlen - n) out')
    unfolding decode_copy
    far_copies n far fits short e = rw (
      e,
      lt→ltb (length out) dist far,
      not_ltb (length dict) (dist - length out) (omega arith),
      read_bytes_ok dict (length dict - (dist - length out)) n (omega arith),
      append_bytes_ok dst_cap out (take n (drop (length dict - (dist - length out)) dict)) (
          omega (
            arith,
            length-take n (drop (length dict - (dist - length out)) dict),
            length-drop (length dict - (dist - length out)) dict,
          )),
    )

    -- What is behind the dictionary's part.
    behind : ℕ → List ℕ
    behind n = out ++ take n (drop (length dict - (dist - length out)) dict)

    length-behind :
        (n : ℕ) → length out < dist → n ≤ dist - length out → length (behind n) ≡ length out + n
    unfolding behind
    length-behind n far short = omega (
      arith,
      length-append out (take n (drop (length dict - (dist - length out)) dict)),
      length-take n (drop (length dict - (dist - length out)) dict),
      length-drop (length dict - (dist - length out)) dict,
    )

    finish :
        (n : ℕ)
        → length out < dist
        → n ≤ mlen
        → n ≤ dist - length out
        → (if ltb (dist - length out) mlen then dist - length out else mlen) ≡ n
        → Extends
            (mlen - n)
            dist
            (behind n)
            (copy_match dst_cap (length (behind n)) (mlen - n) (behind n))
        → Extends mlen dist out (decode_copy dst_cap dict dist mlen out)
    finish n far fits short e rest = record {
      result = rest.result;
      runs = copies ∙ rest.runs;
      window =
          rest.window
          ∙ ap (extend (mlen - n) dist) first
          ∙ sym (extend_add n (mlen - n) dist (dict ++ out))
          ∙ ap (λ k. extend k dist (dict ++ out)) total;
      size = omega (arith, rest.size, length-behind n far short);
    }
      where
        copies :
            decode_copy dst_cap dict dist mlen out
            ≡ copy_match dst_cap (length (behind n)) (mlen - n) (behind n)
        copies = unfold behind in far_copies n far fits short e

        first : dict ++ behind n ≡ extend n dist (dict ++ out)
        first =
            unfold behind whole piece in
            dict_extends n dist out (dist - length out) (omega arith) (omega arith) (omega arith)
              short

        total : n + (mlen - n) ≡ mlen
        total = omega arith

    far_Extends : length out < dist → Extends mlen dist out (decode_copy dst_cap dict dist mlen out)
    far_Extends far = elim (dec_lt (dist - length out) mlen) [
      | no all_in_dict ↦
          finish mlen far (omega arith) (omega arith) (ground arith)
            (Extends-zero (mlen - mlen) dist (length (behind mlen)) (behind mlen) (omega arith))
      | yes across ↦
          let at : length (behind (dist - length out)) ≡ dist =
            omega (arith, length-behind (dist - length out) far (omega arith)) in
          finish (dist - length out) far (omega arith) (omega arith) (ground arith) (
            subst
              (λ d. Extends (mlen - (dist - length out)) d (behind (dist - length out)) (
                copy_match dst_cap (length (behind (dist - length out)))
                  (mlen - (dist - length out)) (behind (dist - length out))))
              at
              (copy_match-Extends (mlen - (dist - length out)) (length (behind (dist - length out)))
                (behind (dist - length out)) (omega (arith, at)) (omega arith) (omega (arith, at))))
    ]

  -- With a distance inside the window and room for the match, the copy runs, and extends the
  -- window by the match.
  pub decode_copy-Extends :
      (mlen dist : ℕ) (out : List ℕ)
      → 1 ≤ dist
      → dist ≤ length out + length dict
      → length out + mlen ≤ dst_cap
      → Extends mlen dist out (decode_copy dst_cap dict dist mlen out)
  decode_copy-Extends mlen dist out p q r = elim (dec_lt (length out) dist) [
    | no near ↦ near_Extends mlen dist out p q r (omega arith)
    | yes far ↦ far_Extends mlen dist out p q r far
  ]
