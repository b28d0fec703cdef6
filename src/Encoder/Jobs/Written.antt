-- ===== src/Encoder/Jobs/Written.antt =====
-- The bytes that the encoder of src/core/xq_encoder.c gives to its sink for a block.
use xq.Base.{
  ℕ, ◌+◌, ◌^◌, ◌%◌, ◌≡◌, ◌≢◌, refl, sym, ap, ◌∙◌, List, [], ◌++◌, Bool, true, false, ◌==◌, length,
  take, ltb, ◌/◌, if◌then◌else◌, append_assoc, append-nil, ==→eq,
}
use mathlib.Core.Path.{subst}
use xq.Status.{Status, Result, ok, err, xq_ok, err_oom}
use xq.Common.Checked.{uint64_max}
use xq.Format.Block.{block_store}
use xq.Encoder.State.{
  Sink, Encoder, Outcome, on_ok, stuck, emitted, emit_open, emit, idx_store, idx_push, grown_cap,
}
use xq.Encoder.Jobs.{
  EncJob, payload_of, job_header, count_job, emit_block, emit_checksum, or_stuck, emit_open_job,
  emit_job,
}

-- What is shown of a call from what is shown of its two steps.
on_ok-then :
    {K : Type 0} (P Q : Encoder K → Type 0) (o : Outcome K) (next : Encoder K → Outcome K)
    → (o.0 ≡ xq_ok → P (o.1))
    → ((e' : Encoder K) → P e' → (next e').0 ≡ xq_ok → Q ((next e').1))
    → (on_ok o next).0 ≡ xq_ok
    → Q ((on_ok o next).1)
on_ok-then P Q (xq_ok, e') next h k = k e' (h refl)
on_ok-then P Q (_, e') next h k = λ failed. cc

or_stuck-then :
    {K : Type 0} (P Q : Encoder K → Type 0) (o : Outcome K) (next : Encoder K → Outcome K)
    → (o.0 ≡ xq_ok → P (o.1))
    → ((e' : Encoder K) → P e' → (next e').0 ≡ xq_ok → Q ((next e').1))
    → (or_stuck o next).0 ≡ xq_ok
    → Q ((or_stuck o next).1)
unfolding stuck
or_stuck-then P Q (xq_ok, e') next h k = k e' (h refl)
or_stuck-then P Q (_, e') next h k = λ failed. cc

-- A sink that appends what it is given to what it holds, and whose failures are not `xq_ok`.
pub record Appends {K : Type 0} (sink : Sink K) (held : K → List ℕ) : Type 0 where
  pub appended : (m m' : K) (buf : List ℕ) → sink m buf ≡ ok m' → held m' ≡ held m ++ buf
  pub honest : (m : K) (buf : List ℕ) → sink m buf ≢ err xq_ok

module _ {K : Type 0} (sink : Sink K) (held : K → List ℕ) (appends : Appends sink held) where
  -- `bytes` have been given to the sink, and what a block's header stands on is the same.
  record Grown (e : Encoder K) (bytes : List ℕ) (e' : Encoder K) : Type 0 where
    pub holds : held (e'.sink_ctx) ≡ held (e.sink_ctx) ++ bytes
    pub ck_len_same : e'.checksum_len ≡ e.checksum_len
    pub p_same : e'.p ≡ e.p
    pub cdict_same : e'.cdict ≡ e.cdict
    pub raw_offset_same : e'.raw_offset ≡ e.raw_offset

  emitted-Grown :
      (e : Encoder K) (buf : List ℕ) (r : Result K)
      → sink (e.sink_ctx) buf ≡ r
      → (emitted sink e (length buf) r).0 ≡ xq_ok
      → Grown e buf ((emitted sink e (length buf) r).1)
  unfolding emitted stuck
  emitted-Grown e buf (ok m) same = λ done. record {
    holds = appends.appended (e.sink_ctx) m buf same;
    ck_len_same = refl;
    p_same = refl;
    cdict_same = refl;
    raw_offset_same = refl;
  }
  emitted-Grown e buf (err xq_ok) same = absurd (appends.honest (e.sink_ctx) buf same)
  emitted-Grown e buf (err st) same = λ failed. cc

  emit_open-Grown :
      (st : Status) (e : Encoder K) (buf : List ℕ)
      → (emit_open sink st e buf).0 ≡ xq_ok
      → Grown e buf ((emit_open sink st e buf).1)
  unfolding emit_open
  emit_open-Grown xq_ok e buf = emitted-Grown e buf (sink (e.sink_ctx) buf) refl
  emit_open-Grown _ e buf = λ failed. cc

  emit-Grown :
      (e : Encoder K) (buf : List ℕ)
      → (emit sink e buf).0 ≡ xq_ok
      → Grown e buf ((emit sink e buf).1)
  unfolding emit
  emit-Grown e buf = emit_open-Grown (e.sticky) e buf

  Grown-refl : (e : Encoder K) → Grown e [] e
  Grown-refl e = record {
    holds = sym (append-nil (held (e.sink_ctx)));
    ck_len_same = refl;
    p_same = refl;
    cdict_same = refl;
    raw_offset_same = refl;
  }

  Grown-trans :
      (e e' e'' : Encoder K) (l m : List ℕ) → Grown e l e' → Grown e' m e'' → Grown e (l ++ m) e''
  Grown-trans e e' e'' l m h k = record {
    holds = k.holds ∙ ap (λ x. x ++ m) (h.holds) ∙ append_assoc (held (e.sink_ctx)) l m;
    ck_len_same = k.ck_len_same ∙ h.ck_len_same;
    p_same = k.p_same ∙ h.p_same;
    cdict_same = k.cdict_same ∙ h.cdict_same;
    raw_offset_same = k.raw_offset_same ∙ h.raw_offset_same;
  }

  emit_checksum-Grown :
      (e : Encoder K) (ck : List ℕ)
      → (emit_checksum sink e ck).0 ≡ xq_ok
      → Grown e (take (e.checksum_len) ck) ((emit_checksum sink e ck).1)
  emit_checksum-Grown e ck = of_test (e.checksum_len == 0) refl
    where
      of_test :
          (b : Bool)
          → (e.checksum_len == 0) ≡ b
          → (if b then (xq_ok, e) else emit sink e (take (e.checksum_len) ck)).0 ≡ xq_ok
          → Grown e
              (take (e.checksum_len) ck)
              ((if b then (xq_ok, e) else emit sink e (take (e.checksum_len) ck)).1)
      of_test true same = λ done.
          subst (λ n. Grown e (take n ck) e) (sym (==→eq (e.checksum_len) 0 same)) (Grown-refl e)
      of_test false same = emit-Grown e (take (e.checksum_len) ck)

  -- The end of the block: `raw_offset` has gone on by the block's bytes.
  pub record Wrote (e : Encoder K) (bytes : List ℕ) (raw : List ℕ) (e' : Encoder K) : Type 0 where
    pub holds : held (e'.sink_ctx) ≡ held (e.sink_ctx) ++ bytes
    pub offset : e'.raw_offset ≡ (e.raw_offset + length raw) % 2 ^ 64

  count_job-Wrote :
      (j : EncJob) (e e' : Encoder K) (l : List ℕ)
      → Grown e l e'
      → Wrote e l (j.raw) ((count_job sink j e').1)
  unfolding count_job
  count_job-Wrote j e e' l h = record {
    holds = h.holds;
    offset = ap (λ n. (n + length (j.raw)) % 2 ^ 64) (h.raw_offset_same);
  }

  -- The bytes of a job's block.
  abbrev pub written : Encoder K → EncJob → List ℕ
  written e j = block_store (job_header sink e j) ++ (payload_of j ++ take (e.checksum_len) (j.ck))

  emit_block-Wrote :
      (j : EncJob) (e : Encoder K)
      → (emit_block sink j e).0 ≡ xq_ok
      → Wrote e (written e j) (j.raw) ((emit_block sink j e).1)
  unfolding emit_block
  emit_block-Wrote j e =
      on_ok-then (Grown e header) (Wrote e (written e j) (j.raw)) _ _ (emit-Grown e header)
        (λ e1 h1.
          on_ok-then (Grown e (header ++ payload_of j)) (Wrote e (written e j) (j.raw)) _ _
            (λ done.
              Grown-trans e e1 _ header (payload_of j) h1 (emit-Grown e1 (payload_of j) done))
            (λ e2 h2.
              on_ok-then (Grown e (written e j)) (Wrote e (written e j) (j.raw)) _ _
                (λ done. whole e2 _ h2 (emit_checksum-Grown e2 (j.ck) done))
                (λ e3 h3 done. count_job-Wrote j e e3 (written e j) h3)))
    where
      header : List ℕ
      header = block_store (job_header sink e j)

      whole :
          (e2 e3 : Encoder K)
          → Grown e (header ++ payload_of j) e2
          → Grown e2 (take (e2.checksum_len) (j.ck)) e3
          → Grown e (written e j) e3
      whole e2 e3 h k =
          subst (λ l. Grown e l e3)
            (ap (λ n. (header ++ payload_of j) ++ take n (j.ck)) (h.ck_len_same)
              ∙ append_assoc header (payload_of j) (take (e.checksum_len) (j.ck)))
            (Grown-trans e e2 e3 _ _ h k)

  idx_push-Grown :
      (e : Encoder K) (file_off raw_off : ℕ)
      → (idx_push sink e file_off raw_off).0 ≡ xq_ok
      → Grown e [] ((idx_push sink e file_off raw_off).1)
  unfolding idx_push idx_store
  idx_push-Grown e file_off raw_off =
      pushed (length (e.idx) == e.idx_cap) (ltb (uint64_max / 16) (grown_cap (e.idx_cap)))
    where
      same_sink :
          (e' : Encoder K) → Grown e [] e' → Grown e [] ((idx_store sink e' file_off raw_off).1)
      same_sink e' h = record {
        holds = h.holds;
        ck_len_same = h.ck_len_same;
        p_same = h.p_same;
        cdict_same = h.cdict_same;
        raw_offset_same = h.raw_offset_same;
      }

      grown : Encoder K
      grown = record e { idx_cap = grown_cap (e.idx_cap) }

      pushed :
          (full huge : Bool)
          → (if full
              then (if huge then (err_oom, e) else idx_store sink grown file_off raw_off)
              else idx_store sink e file_off raw_off).0
            ≡ xq_ok
          → Grown e [] (
              (if full
                then (if huge then (err_oom, e) else idx_store sink grown file_off raw_off)
                else idx_store sink e file_off raw_off).1)
      pushed true true = λ failed. cc
      pushed true false = λ done. same_sink grown (record {
        holds = sym (append-nil (held (e.sink_ctx)));
        ck_len_same = refl;
        p_same = refl;
        cdict_same = refl;
        raw_offset_same = refl;
      })
      pushed false huge = λ done. same_sink e (Grown-refl e)

  -- A block's bytes do not change with the index.
  written_same : (e e' : Encoder K) (j : EncJob) → Grown e [] e' → written e' j ≡ written e j
  unfolding job_header
  written_same e e' j h = rw (h.p_same, h.cdict_same, h.raw_offset_same, h.ck_len_same) refl

  behind_index :
      (e e' : Encoder K) (j : EncJob)
      → Grown e [] e'
      → (emit_block sink j e').0 ≡ xq_ok
      → Wrote e (written e j) (j.raw) ((emit_block sink j e').1)
  behind_index e e' j h done =
      let w = emit_block-Wrote j e' done in
      record {
        holds =
            w.holds
            ∙ ap (λ l. l ++ written e' j) (h.holds ∙ append-nil (held (e.sink_ctx)))
            ∙ ap (λ l. held (e.sink_ctx) ++ l) (written_same e e' j h);
        offset = w.offset ∙ ap (λ n. (n + length (j.raw)) % 2 ^ 64) (h.raw_offset_same);
      }

  emit_open_job-Wrote :
      (sticky st : Status) (e : Encoder K) (j : EncJob)
      → (emit_open_job sink sticky st e j).0 ≡ xq_ok
      → (st ≡ xq_ok) × Wrote e (written e j) (j.raw) ((emit_open_job sink sticky st e j).1)
  unfolding emit_open_job stuck
  emit_open_job-Wrote xq_ok xq_ok e j = λ done. (
    refl,
    or_stuck-then (Grown e []) (Wrote e (written e j) (j.raw)) _ _
        (idx_push-Grown e (e.file_offset) (e.raw_offset)) (λ e'. behind_index e e' j) done,
  )
  emit_open_job-Wrote xq_ok _ e j = λ failed. cc
  emit_open_job-Wrote _ st e j = λ failed. cc

  -- A job that is emitted had not failed; its header, its bytes and its checksum are given to the
  -- sink, and the offset goes on by its raw bytes.
  pub emit_job-Wrote :
      (e : Encoder K) (j : EncJob)
      → (emit_job sink e j).0 ≡ xq_ok
      → (j.st ≡ xq_ok) × Wrote e (written e j) (j.raw) ((emit_job sink e j).1)
  unfolding emit_job
  emit_job-Wrote e j = emit_open_job-Wrote (e.sticky) (j.st) e j
