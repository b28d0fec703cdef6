-- ===== src/Format/Chunks.antt =====
-- Reading a buffer field by field: neighbouring pieces join to one, and storing what was loaded
-- writes a piece back.
use xq.Base.{
  ℕ, ◌+◌, ◌≤◌, ◌≡◌, List, ◌++◌, length, take, drop, take_add, drop-drop, length-drop, All, All-drop,
  ◌∙◌, ap, sym, arith,
}
use xq.Common.Bytes.{IsByte, ld8, ld16le, ld32le, ld64le, st8, st16le, st32le, st64le}
use xq.Common.Bytes.RoundTrip.{st8-ld8, st16le-ld16le, st32le-ld32le, st64le-ld64le}

pub join_chunks :
    {A : Type 0} (xs : List A) (k m n j : ℕ)
    → j ≡ k + m
    → take m (drop k xs) ++ take n (drop j xs) ≡ take (m + n) (drop k xs)
join_chunks xs k m n j e =
    ap (λ t. take m (drop k xs) ++ take n t) (ap (λ i. drop i xs) e ∙ sym (drop-drop m k xs))
    ∙ take_add m n (drop k xs)

module _ (buf : List ℕ) (bytes : All IsByte buf) where
  pub bytes_from : (k : ℕ) → All IsByte (drop k buf)
  bytes_from k = All-drop IsByte k buf bytes

  room : (k n : ℕ) → k + n ≤ length buf → n ≤ length (drop k buf)
  room k n h = omega (arith, length-drop k buf)

  pub chunk8 : (k : ℕ) → k + 1 ≤ length buf → st8 (ld8 (drop k buf)) ≡ take 1 (drop k buf)
  chunk8 k h = st8-ld8 (drop k buf) (bytes_from k) (room k 1 h)

  pub chunk16 : (k : ℕ) → k + 2 ≤ length buf → st16le (ld16le (drop k buf)) ≡ take 2 (drop k buf)
  chunk16 k h = st16le-ld16le (drop k buf) (bytes_from k) (room k 2 h)

  pub chunk32 : (k : ℕ) → k + 4 ≤ length buf → st32le (ld32le (drop k buf)) ≡ take 4 (drop k buf)
  chunk32 k h = st32le-ld32le (drop k buf) (bytes_from k) (room k 4 h)

  pub chunk64 : (k : ℕ) → k + 8 ≤ length buf → st64le (ld64le (drop k buf)) ≡ take 8 (drop k buf)
  chunk64 k h = st64le-ld64le (drop k buf) (bytes_from k) (room k 8 h)
