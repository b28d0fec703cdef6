-- ===== src/Encoder/Jobs/Kept.antt =====
-- What the calls of src/core/xq_encoder.c on the way of a block leave as it is, where they succeed.
use xq.Base.{
  ℕ, ◌≤◌, ◌<◌, ◌≡◌, refl, ◌∙◌, List, Bool, true, false, ◌==◌, length, take, ltb, ◌/◌, if◌then◌else◌,
  arith, ==→eq, ==-false→lt,
}
use xq.Status.{Status, Result, ok, err, xq_ok, err_oom}
use xq.Common.Checked.{uint64_max}
use xq.Encoder.State.{
  Sink, Encoder, Outcome, on_ok, stuck, emitted, emit_open, emit, idx_store, idx_push, grown_cap,
}
use xq.Encoder.Jobs.{
  EncJob, count_job, emit_block, or_stuck, emit_open_job, emit_job, flush_open, flush_block,
  flush_full,
}

module _ {K : Type 0} where
  -- Nothing has failed yet, and the fields that a block does not change are the same.
  pub record Steady (e e' : Encoder K) : Type 0 where
    pub still_ok : e'.sticky ≡ xq_ok
    pub finished_same : e'.finished ≡ e.finished
    pub block_size_same : e'.block_size ≡ e.block_size

  pub Steady-refl : (e : Encoder K) → e.sticky ≡ xq_ok → Steady e e
  Steady-refl e well = record { still_ok = well; finished_same = refl; block_size_same = refl }

  pub Steady-trans : (e e' e'' : Encoder K) → Steady e e' → Steady e' e'' → Steady e e''
  Steady-trans e e' e'' h k = record {
    still_ok = k.still_ok;
    finished_same = k.finished_same ∙ h.finished_same;
    block_size_same = k.block_size_same ∙ h.block_size_same;
  }

  -- What a call that succeeds leaves.
  abbrev pub Kept : Encoder K → Outcome K → Type 0
  Kept e (st, e') = st ≡ xq_ok → Steady e e'

  on_ok-Kept :
      (e : Encoder K) (o : Outcome K) (next : Encoder K → Outcome K)
      → Kept e o
      → ((e' : Encoder K) → e'.sticky ≡ xq_ok → Kept e' (next e'))
      → Kept e (on_ok o next)
  on_ok-Kept e (xq_ok, e') next h k =
      λ done. Steady-trans e e' ((next e').1) (h refl) (k e' ((h refl).still_ok) done)
  on_ok-Kept e (_, e') next h k = h

  or_stuck-Kept :
      (e : Encoder K) (o : Outcome K) (next : Encoder K → Outcome K)
      → Kept e o
      → ((e' : Encoder K) → e'.sticky ≡ xq_ok → Kept e' (next e'))
      → Kept e (or_stuck o next)
  unfolding stuck
  or_stuck-Kept e (xq_ok, e') next h k =
      λ done. Steady-trans e e' ((next e').1) (h refl) (k e' ((h refl).still_ok) done)
  or_stuck-Kept e (_, e') next h k = λ done. record {
    still_ok = done;
    finished_same = (h done).finished_same;
    block_size_same = (h done).block_size_same;
  }

module _ {K : Type 0} (sink : Sink K) where
  emitted-Kept :
      (e : Encoder K) (len : ℕ) (r : Result K) → e.sticky ≡ xq_ok → Kept e (emitted sink e len r)
  unfolding emitted stuck
  emitted-Kept e len (ok k) well =
      λ done. record { still_ok = well; finished_same = refl; block_size_same = refl }
  emitted-Kept e len (err st) well =
      λ done. record { still_ok = done; finished_same = refl; block_size_same = refl }

  emit_open-Kept :
      (st : Status) (e : Encoder K) (buf : List ℕ)
      → e.sticky ≡ st
      → Kept e (emit_open sink st e buf)
  unfolding emit_open
  emit_open-Kept xq_ok e buf same = emitted-Kept e (length buf) (sink (e.sink_ctx) buf) same
  emit_open-Kept st e buf same = λ done. Steady-refl e (same ∙ done)

  emit-Kept : (e : Encoder K) (buf : List ℕ) → Kept e (emit sink e buf)
  unfolding emit
  emit-Kept e buf = emit_open-Kept (e.sticky) e buf refl

  count_job-Kept : (j : EncJob) (e : Encoder K) → e.sticky ≡ xq_ok → Kept e (count_job sink j e)
  unfolding count_job
  count_job-Kept j e well =
      λ done. record { still_ok = well; finished_same = refl; block_size_same = refl }

  emit_block-Kept : (j : EncJob) (e : Encoder K) → e.sticky ≡ xq_ok → Kept e (emit_block sink j e)
  unfolding emit_block
  emit_block-Kept j e well = on_ok-Kept e _ _ (emit-Kept e _) (λ e1 well1.
      on_ok-Kept e1 _ _ (emit-Kept e1 _) (λ e2 well2.
        on_ok-Kept e2 _ _ (checksum-Kept e2 well2 (e2.checksum_len == 0))
          (λ e3. count_job-Kept j e3)))
    where
      checksum-Kept :
          (e : Encoder K)
          → e.sticky ≡ xq_ok
          → (b : Bool)
          → Kept e (if b then (xq_ok, e) else emit sink e (take (e.checksum_len) (j.ck)))
      checksum-Kept e well true = λ done. Steady-refl e well
      checksum-Kept e well false = emit-Kept e _

  idx_push-Kept :
      (e : Encoder K) (file_off raw_off : ℕ)
      → e.sticky ≡ xq_ok
      → Kept e (idx_push sink e file_off raw_off)
  unfolding idx_push idx_store
  idx_push-Kept e file_off raw_off well =
      pushed (length (e.idx) == e.idx_cap) (ltb (uint64_max / 16) (grown_cap (e.idx_cap)))
    where
      grown : Encoder K
      grown = record e { idx_cap = grown_cap (e.idx_cap) }

      stored : (e' : Encoder K) → Steady e e' → Kept e (idx_store sink e' file_off raw_off)
      stored e' k = λ done. record {
        still_ok = k.still_ok;
        finished_same = k.finished_same;
        block_size_same = k.block_size_same;
      }

      pushed :
          (full huge : Bool)
          → Kept e (
              if full
              then (if huge then (err_oom, e) else idx_store sink grown file_off raw_off)
              else idx_store sink e file_off raw_off)
      pushed true true = λ failed. cc
      pushed true false =
          stored grown (record { still_ok = well; finished_same = refl; block_size_same = refl })
      pushed false huge = stored e (Steady-refl e well)

  emit_open_job-Kept :
      (sticky st : Status) (e : Encoder K) (j : EncJob)
      → e.sticky ≡ sticky
      → Kept e (emit_open_job sink sticky st e j)
  unfolding emit_open_job stuck
  emit_open_job-Kept xq_ok xq_ok e j same =
      or_stuck-Kept e _ _ (idx_push-Kept e (e.file_offset) (e.raw_offset) same)
        (λ e'. emit_block-Kept j e')
  emit_open_job-Kept xq_ok st e j same =
      λ done. record { still_ok = done; finished_same = refl; block_size_same = refl }
  emit_open_job-Kept sticky st e j same = λ done. Steady-refl e (same ∙ done)

  -- A flush that succeeds leaves an empty block.
  flush_open-Kept :
      (st : Status) (e : Encoder K)
      → e.sticky ≡ st
      → (flush_open sink st e).0 ≡ xq_ok
      → Steady e ((flush_open sink st e).1) × (length (((flush_open sink st e).1).raw) ≡ 0)
  unfolding flush_open emit_job
  flush_open-Kept xq_ok e same = λ done.
      let k = emit_open_job-Kept (e.sticky) _ e _ refl done in
      (
        record {
          still_ok = k.still_ok;
          finished_same = k.finished_same;
          block_size_same = k.block_size_same;
        },
        refl,
      )
  flush_open-Kept st e same = λ failed. cc

  -- The block has room for a byte.
  abbrev pub Roomy : Encoder K → Type 0
  Roomy e = length (e.raw) < e.block_size

  -- After the flush of a block that is full the next one has room.
  pub flush_full-Roomy :
      (e : Encoder K)
      → e.sticky ≡ xq_ok
      → length (e.raw) ≤ e.block_size
      → 1 ≤ e.block_size
      → (flush_full sink e).0 ≡ xq_ok
      → Steady e ((flush_full sink e).1) × Roomy ((flush_full sink e).1)
  unfolding flush_full flush_block
  flush_full-Roomy e well inside some_room =
      flushed (length (e.raw) == e.block_size) (length (e.raw) == 0) refl refl
    where
      flushed :
          (full none_in : Bool)
          → (length (e.raw) == e.block_size) ≡ full
          → (length (e.raw) == 0) ≡ none_in
          → (if full
              then (if none_in then (xq_ok, e) else flush_open sink (e.sticky) e)
              else (xq_ok, e)).0
            ≡ xq_ok
          → Steady e (
              (if full
                then (if none_in then (xq_ok, e) else flush_open sink (e.sticky) e)
                else (xq_ok, e)).1)
            × Roomy (
                (if full
                  then (if none_in then (xq_ok, e) else flush_open sink (e.sticky) e)
                  else (xq_ok, e)).1)
      flushed false none_in here q =
          λ done. (Steady-refl e well, ==-false→lt (length (e.raw)) (e.block_size) here inside)
      flushed true true here q = absurd (
          omega (
            arith,
            ==→eq (length (e.raw)) (e.block_size) here,
            ==→eq (length (e.raw)) 0 q,
            some_room,
          ))
      flushed true false here q = λ done.
          let (k, empty) = flush_open-Kept (e.sticky) e refl done in
          (k, omega (arith, empty, k.block_size_same, some_room))
