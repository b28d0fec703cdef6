-- ===== src/Encoder/Jobs/Pieces.antt =====
-- `xq_encoder_write` of src/core/xq_encoder.c: bytes in two calls or in one.
use xq.Base.{
  ℕ, zero, suc, ◌+◌, ◌-◌, ◌≤◌, ◌<◌, ◌≡◌, refl, sym, ap, ap₂, ◌∙◌, min, List, [], ◌∷◌, ◌++◌,
  append-nil, append_assoc, false, Bool-cases, inl, inr, leb, leb→le, leb-false→lt, length,
  length-append, length-take, length-drop, take, drop, take_all, drop_all, drop-drop, drop-append,
  drop-append_left, take-append_front, take-append_add, ne→==, if◌then◌else◌, arith,
}
use native.Mathlib.Nat.{le_refl}
use xq.Status.{xq_ok, err_param}
use xq.Codec.Exec.{Exec, ret, ◌>>=◌}
use xq.Encoder.State.{Sink, Encoder, Outcome}
use xq.Encoder.Jobs.{
  append_raw, flush_full, flush_block, while_ok, write_loop, write_open, encoder_write,
}
use xq.Encoder.Jobs.Kept.{flush_full-Roomy}

while_ok-cong :
    {K : Type 0} (o : Outcome K) (f g : Encoder K → Exec (Outcome K))
    → (o.0 ≡ xq_ok → f (o.1) ≡ g (o.1))
    → while_ok o f ≡ while_ok o g
while_ok-cong (xq_ok, e) f g h = h refl
while_ok-cong (_, e) f g h = refl

while_ok_bind :
    {K : Type 0} (o : Outcome K) (f g : Encoder K → Exec (Outcome K))
    → (while_ok o f >>= λ q. while_ok q g) ≡ while_ok o (λ e. f e >>= λ q. while_ok q g)
while_ok_bind (xq_ok, e) f g = refl
while_ok_bind (_, e) f g = refl

module _ {K : Type 0} (sink : Sink K) where
  -- Open for more bytes.
  abbrev pub IsOpen : Encoder K → Type 0
  IsOpen e = (e.sticky ≡ xq_ok) × (length (e.raw) < e.block_size)

  abbrev room : Encoder K → ℕ
  room e = e.block_size - length (e.raw)

  abbrev taken : Encoder K → List ℕ → ℕ
  taken e p = min (length p) (room e)

  abbrev next : Encoder K → List ℕ → Outcome K
  next e p = flush_full sink (append_raw sink e (take (taken e p) p))

  -- A round of the loop leaves the encoder open where it succeeds.
  next-IsOpen :
      (e : Encoder K) (p : List ℕ)
      → IsOpen e
      → (next e p).0 ≡ xq_ok
      → IsOpen ((next e p).1) × (((next e p).1).finished ≡ e.finished)
  unfolding append_raw
  next-IsOpen e p (well, inside) done =
      let (k, roomy) =
        flush_full-Roomy sink (append_raw sink e (take (taken e p) p)) well
          (omega (arith, length-append (e.raw) (take (taken e p) p), length-take (taken e p) p))
          (omega arith) done in
      ((k.still_ok, roomy), k.finished_same)

  pub write_loop_enough :
      (f g : ℕ) (e : Encoder K) (p : List ℕ)
      → IsOpen e
      → length p ≤ f
      → length p ≤ g
      → write_loop sink f e p ≡ write_loop sink g e p
  unfolding write_loop
  write_loop_enough f g e [] w hf hg = refl
  write_loop_enough zero g e (b ∷ p) w hf hg = absurd (omega arith)
  write_loop_enough (suc f) zero e (b ∷ p) w hf hg = absurd (omega arith)
  write_loop_enough (suc f) (suc g) e (b ∷ p) w hf hg = while_ok-cong (next e (b ∷ p)) _ _ (λ done.
      write_loop_enough f g ((next e (b ∷ p)).1) (drop (taken e (b ∷ p)) (b ∷ p))
        ((next-IsOpen e (b ∷ p) w done).0)
        (omega (arith, w.1, hf, length-drop (taken e (b ∷ p)) (b ∷ p)))
        (omega (arith, w.1, hg, length-drop (taken e (b ∷ p)) (b ∷ p))))

  -- The loop with as much fuel as there are bytes.
  abbrev writes : Encoder K → List ℕ → Exec (Outcome K)
  writes e p = write_loop sink (length p) e p

  writes_step :
      (e : Encoder K) (p : List ℕ)
      → 1 ≤ length p
      → IsOpen e
      → writes e p ≡ while_ok (next e p) (λ e'. writes e' (drop (taken e p) p))
  unfolding write_loop
  writes_step e [] some_in w = absurd (omega arith)
  writes_step e (b ∷ p) some_in w = while_ok-cong (next e (b ∷ p)) _ _ (λ done.
      write_loop_enough (length p) (length (drop (taken e (b ∷ p)) (b ∷ p))) ((next e (b ∷ p)).1)
        (drop (taken e (b ∷ p)) (b ∷ p)) ((next-IsOpen e (b ∷ p) w done).0)
        (omega (arith, w.1, length-drop (taken e (b ∷ p)) (b ∷ p))) (le_refl _))

  next_short :
      (e : Encoder K) (p : List ℕ) → length p < room e → next e p ≡ (xq_ok, append_raw sink e p)
  unfolding append_raw flush_full
  next_short e p short =
      ap (λ q. flush_full sink (append_raw sink e q)) (take_all (taken e p) p (omega arith))
      ∙ ap (λ b. if b then flush_block sink (append_raw sink e p) else (xq_ok, append_raw sink e p))
          (ne→== (length (e.raw ++ p)) (e.block_size)
            (λ full. omega (arith, full, length-append (e.raw) p)))

  -- Bytes that leave room in the block are only appended.
  writes_short :
      (e : Encoder K) (p : List ℕ)
      → length p < room e
      → IsOpen e
      → writes e p ≡ ret (xq_ok, append_raw sink e p)
  unfolding append_raw write_loop
  writes_short e [] short w = ap (λ r. ret (xq_ok, record e { raw = r })) (sym (append-nil (e.raw)))
  writes_short e (b ∷ p) short w =
      writes_step e (b ∷ p) (omega arith) w
      ∙ ap (λ o. while_ok o (λ e'. writes e' (drop (taken e (b ∷ p)) (b ∷ p))))
          (next_short e (b ∷ p) short)
      ∙ ap (λ q. writes (append_raw sink e (b ∷ p)) q)
          (drop_all (taken e (b ∷ p)) (b ∷ p) (omega arith))

  -- A write behind such bytes goes on from there.
  writes_after :
      (e : Encoder K) (xs ys : List ℕ)
      → length xs < room e
      → IsOpen e
      → writes e (xs ++ ys) ≡ writes (append_raw sink e xs) ys
  unfolding append_raw write_loop
  writes_after e xs [] short w = ap (writes e) (append-nil xs) ∙ writes_short e xs short w
  writes_after e xs (c ∷ ys) short w =
      writes_step e (xs ++ (c ∷ ys)) (omega (arith, length-append xs (c ∷ ys))) w
      ∙ ap₂ (λ o q. while_ok o (λ e'. writes e' q)) same_next same_rest
      ∙ sym (
          writes_step (append_raw sink e xs) (c ∷ ys) (omega arith)
            (w.0, omega (arith, length-append (e.raw) xs)))
    where
      later : ℕ
      later = taken (append_raw sink e xs) (c ∷ ys)

      split : taken e (xs ++ (c ∷ ys)) ≡ length xs + later
      split = omega (arith, length-append xs (c ∷ ys), length-append (e.raw) xs)

      same_next : next e (xs ++ (c ∷ ys)) ≡ next (append_raw sink e xs) (c ∷ ys)
      same_next =
          ap (λ k. flush_full sink (append_raw sink e (take k (xs ++ (c ∷ ys))))) split
          ∙ ap (λ q. flush_full sink (append_raw sink e q)) (take-append_add xs (c ∷ ys) later)
          ∙ ap (λ r. flush_full sink (record e { raw = r }))
              (sym (append_assoc (e.raw) xs (take later (c ∷ ys))))

      same_rest : drop (taken e (xs ++ (c ∷ ys))) (xs ++ (c ∷ ys)) ≡ drop later (c ∷ ys)
      same_rest =
          ap (λ k. drop k (xs ++ (c ∷ ys))) split
          ∙ sym (drop-drop later (length xs) (xs ++ (c ∷ ys)))
          ∙ ap (drop later) (drop-append (length xs) xs (c ∷ ys) refl)

  writes-append :
      (n : ℕ) (e : Encoder K) (xs ys : List ℕ)
      → length xs ≤ n
      → IsOpen e
      → writes e (xs ++ ys) ≡ (writes e xs >>= λ o. while_ok o (λ e'. writes e' ys))
  unfolding write_loop
  writes-append n e [] ys few w = refl
  writes-append zero e (b ∷ xs) ys few w = absurd (omega arith)
  writes-append (suc n) e (b ∷ xs) ys few w = elim (Bool-cases (leb (room e) (length (b ∷ xs)))) [
    | inr short ↦
        writes_after e (b ∷ xs) ys (leb-false→lt (room e) (length (b ∷ xs)) short) w
        ∙ ap (λ m. m >>= λ o. while_ok o (λ e'. writes e' ys))
            (sym (writes_short e (b ∷ xs) (leb-false→lt (room e) (length (b ∷ xs)) short) w))
    | inl long ↦
        writes_step e (b ∷ (xs ++ ys)) (omega arith) w
        ∙ ap₂ (λ o q. while_ok o (λ e'. writes e' q))
            (same_next (leb→le (room e) (length (b ∷ xs)) long))
            (same_rest (leb→le (room e) (length (b ∷ xs)) long))
        ∙ while_ok-cong (next e (b ∷ xs)) _ _ (λ done.
          writes-append n ((next e (b ∷ xs)).1) (drop (taken e (b ∷ xs)) (b ∷ xs)) ys
            (omega (arith, w.1, few, length-drop (taken e (b ∷ xs)) (b ∷ xs)))
            ((next-IsOpen e (b ∷ xs) w done).0))
        ∙ sym (while_ok_bind (next e (b ∷ xs)) _ _)
        ∙ ap (λ m. m >>= λ o. while_ok o (λ e'. writes e' ys))
            (sym (writes_step e (b ∷ xs) (omega arith) w))
  ]
    where
      same_taken : room e ≤ length (b ∷ xs) → taken e (b ∷ (xs ++ ys)) ≡ taken e (b ∷ xs)
      same_taken long = omega (arith, long, length-append xs ys)

      same_next : room e ≤ length (b ∷ xs) → next e (b ∷ (xs ++ ys)) ≡ next e (b ∷ xs)
      same_next long =
          ap (λ k. flush_full sink (append_raw sink e (take k (b ∷ (xs ++ ys))))) (same_taken long)
          ∙ ap (λ q. flush_full sink (append_raw sink e q))
              (take-append_front (taken e (b ∷ xs)) (b ∷ xs) ys (omega arith))

      same_rest :
          room e ≤ length (b ∷ xs)
          → drop (taken e (b ∷ (xs ++ ys))) (b ∷ (xs ++ ys))
            ≡ drop (taken e (b ∷ xs)) (b ∷ xs) ++ ys
      same_rest long =
          ap (λ k. drop k (b ∷ (xs ++ ys))) (same_taken long)
          ∙ drop-append_left (taken e (b ∷ xs)) (b ∷ xs) ys (omega arith)

  -- What follows a loop needs to agree only on encoders that the loop can leave.
  after_writes :
      (fuel : ℕ) (e : Encoder K) (p : List ℕ) (f g : Encoder K → Exec (Outcome K))
      → IsOpen e
      → ((e' : Encoder K) → IsOpen e' → e'.finished ≡ e.finished → f e' ≡ g e')
      → (write_loop sink fuel e p >>= λ o. while_ok o f)
        ≡ (write_loop sink fuel e p >>= λ o. while_ok o g)
  unfolding write_loop
  after_writes fuel e [] f g w h = h e w refl
  after_writes zero e (b ∷ p) f g w h = refl
  after_writes (suc fuel) e (b ∷ p) f g w h =
      while_ok_bind (next e (b ∷ p)) _ f
      ∙ while_ok-cong (next e (b ∷ p)) _ _ (λ done.
        let (w', same) = next-IsOpen e (b ∷ p) w done in
        after_writes fuel ((next e (b ∷ p)).1) (drop (taken e (b ∷ p)) (b ∷ p)) f g w'
          (λ e' w'' same'. h e' w'' (same' ∙ same)))
      ∙ sym (while_ok_bind (next e (b ∷ p)) _ g)

  encoder_write_open :
      (e : Encoder K) (p : List ℕ)
      → IsOpen e
      → e.finished ≡ false
      → encoder_write sink e p ≡ writes e p
  unfolding encoder_write write_open
  encoder_write_open e p (well, inside) more =
      ap (λ st. write_open sink st e p) well
      ∙ ap (λ b. if b then ret (err_param, e) else writes e p) more

  -- Bytes given to the encoder in two calls leave it as they do in one, whatever the sink and the
  -- codec do: the second call is made where the first succeeds, and a failure is the same.
  pub encoder_write-append :
      (e : Encoder K) (xs ys : List ℕ)
      → IsOpen e
      → e.finished ≡ false
      → encoder_write sink e (xs ++ ys)
        ≡ (encoder_write sink e xs >>= λ o. while_ok o (λ e'. encoder_write sink e' ys))
  encoder_write-append e xs ys w more =
      encoder_write_open e (xs ++ ys) w more
      ∙ writes-append (length xs) e xs ys (le_refl (length xs)) w
      ∙ after_writes (length xs) e xs _ _ w
          (λ e' w' same. sym (encoder_write_open e' ys w' (same ∙ more)))
      ∙ ap (λ m. m >>= λ o. while_ok o (λ e'. encoder_write sink e' ys))
          (sym (encoder_write_open e xs w more))
