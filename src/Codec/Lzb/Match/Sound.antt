-- ===== src/Codec/Lzb/Match/Sound.antt =====
-- What the search of src/codec/xq_codec_lzb.c finds is a match: whatever the tables hold, the bytes
-- are compared.
use xq.Base.{
  ℕ, zero, suc, ◌+◌, ◌-◌, ◌≤◌, ◌<◌, ◌≡◌, ap, sym, ◌∙◌, List, ltb, leb, ◌==◌, ◌&&◌, length,
  length-drop, drop, take, get_or-take, get_or-drop, arith, Bool-cases, inl, inr, All, All-drop,
}
use mathlib.Core.Path.{subst}
use native.Mathlib.Decide.{dec_lt}
use xq.Common.Bytes.{IsByte, byte_at, ld64le, st64le}
use xq.Common.Bytes.RoundTrip.{st64le-ld64le}
use xq.Codec.Lzb.Match.{match_words, match_bytes, match_len}

-- The first `n` bytes are the same.
abbrev pub Same : List ℕ → List ℕ → ℕ → Type 0
Same a b n = (i : ℕ) → i < n → byte_at a i ≡ byte_at b i

module _ (a b : List ℕ) (limit : ℕ) where
  match_bytes_sound :
      (f i : ℕ)
      → i ≤ limit
      → Same a b i
      → (match_bytes f a b limit i ≤ limit) × Same a b (match_bytes f a b limit i)
  unfolding match_bytes
  match_bytes_sound zero i h s = (h, s)
  match_bytes_sound (suc f) i h s =
      elim (Bool-cases (ltb i limit && (byte_at a i == byte_at b i))) [
        | inr e ↦ rw e (h, s)
        | inl e ↦ rw e (
            match_bytes_sound f (i + 1) (ground arith) (λ j q. elim (dec_lt j i) [
              | yes before ↦ s j before
              | no after ↦
                  let here : i ≡ j = omega arith in
                  subst (λ k. byte_at a k ≡ byte_at b k) here (ground arith)
            ]))
      ]

  module _ (a_bytes : All IsByte a) (b_bytes : All IsByte b) (in_a : limit ≤ length a)
      (in_b : limit ≤ length b) where
    eight_same :
        (i : ℕ)
        → i + 8 ≤ limit
        → ld64le (drop i a) ≡ ld64le (drop i b)
        → take 8 (drop i a) ≡ take 8 (drop i b)
    eight_same i h e =
        sym
          (st64le-ld64le (drop i a) (All-drop IsByte i a a_bytes) (omega (arith, length-drop i a)))
        ∙ ap st64le e
        ∙ st64le-ld64le (drop i b) (All-drop IsByte i b b_bytes) (omega (arith, length-drop i b))

    byte_of_eight :
        (xs : List ℕ) (i j : ℕ) → j < 8 → byte_at (take 8 (drop i xs)) j ≡ byte_at xs (i + j)
    byte_of_eight xs i j h = get_or-take 8 j (drop i xs) 0 h ∙ get_or-drop i j xs 0

    Same-eight :
        (i : ℕ)
        → i + 8 ≤ limit
        → ld64le (drop i a) ≡ ld64le (drop i b)
        → Same a b i
        → Same a b (i + 8)
    Same-eight i h e s j q = elim (dec_lt j i) [
      | yes before ↦ s j before
      | no after ↦
          let here : i + (j - i) ≡ j = omega arith in
          subst (λ k. byte_at a k ≡ byte_at b k) here
            (sym (byte_of_eight a i (j - i) (omega arith))
              ∙ ap (λ t. byte_at t (j - i)) (eight_same i h e)
              ∙ byte_of_eight b i (j - i) (omega arith))
    ]

    match_words_sound :
        (f i : ℕ)
        → i ≤ limit
        → Same a b i
        → (match_words f a b limit i ≤ limit) × Same a b (match_words f a b limit i)
    unfolding match_words
    match_words_sound zero i h s = (h, s)
    match_words_sound (suc f) i h s =
        elim (Bool-cases (leb (i + 8) limit && (ld64le (drop i a) == ld64le (drop i b)))) [
          | inr e ↦ rw e (h, s)
          | inl e ↦ rw e (
              match_words_sound f (i + 8) (ground arith)
                (Same-eight i (ground arith) (ground arith) s))
        ]

    -- What `match_len` returns is at most the limit, and that many bytes are the same.
    pub match_len_sound : (match_len a b limit ≤ limit) × Same a b (match_len a b limit)
    unfolding match_len
    match_len_sound =
        let (fits, same) = match_words_sound limit 0 (omega arith) (λ j q. absurd (omega arith)) in
        match_bytes_sound limit (match_words limit a b limit 0) fits same
