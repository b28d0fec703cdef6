-- ===== src/Decoder/RoundTrip/Checks.antt =====
-- What src/core/xq_encoder.c leaves in a job, as src/core/xq_decoder.c checks it.
use xq.Base.{
  ℕ, ◌<◌, ◌≡◌, ◌≢◌, refl, ap, ◌∙◌, ◌⊎◌, inl, inr, List, [], true, false, Bool-cases, length, take,
  arith, leb,
}
use xq.Params.{pos}
use xq.Status.{ok, err, Result, xq_ok, err_dst_too_small}
use xq.Common.Bytes.{st32le, st64le}
use xq.Common.Bytes.RoundTrip.{ld32le-st32le, ld64le-st64le}
use xq.Common.Crc32c.{crc32c}
use xq.Common.Crc32c.Laws.{crc32c-lt}
use xq.Common.Xxh64.{xxh64}
use xq.Common.Xxh64.Bounds.{xxh64-lt}
use xq.Format.Checksum.{checksum_size}
use xq.Decoder.Blocks.{checksum_differs}
use xq.Encoder.State.{Sink, Encoder}
use xq.Encoder.Jobs.{EncJob, payload_of, job_checksum, job_result}

-- The algorithm has no checksum, or it is one of the two that the encoder writes.
algorithm_cases : (k : ℕ) → (checksum_size k ≡ 0) ⊎ ((k ≡ 1) ⊎ (k ≡ 2))
unfolding checksum_size
algorithm_cases k = ground arith

module _ {K : Type 0} (sink : Sink K) (e : Encoder K) where
  -- What a job's checksum is: its length, and that the decoder finds no difference.
  abbrev pub Checked : ℕ → EncJob → List ℕ → Type 0
  Checked k j c =
      (job_checksum sink e j ≡ record j { ck = c })
      × (e.checksum_len ≢ 0
          → (length (take (e.checksum_len) c) ≡ e.checksum_len)
            × (checksum_differs k (take (e.checksum_len) c) (payload_of j) ≡ false))

  crc32c-Checked :
      (k : ℕ) (j : EncJob)
      → (e.p).checksum ≡ pos k
      → e.checksum_len ≡ checksum_size k
      → k ≡ 1
      → Checked k j (st32le (crc32c (payload_of j)))
  unfolding job_checksum checksum_size checksum_differs st32le
  crc32c-Checked k j same sized is_crc = (
    rw (job_checksum, sized, same, is_crc) refl,
    λ some_len. (
      rw (sized, is_crc) refl,
      rw (sized, is_crc, ld32le-st32le (crc32c (payload_of j)) [] (crc32c-lt (payload_of j)))
          (ground arith),
    ),
  )

  xxh64-Checked :
      (k : ℕ) (j : EncJob)
      → (e.p).checksum ≡ pos k
      → e.checksum_len ≡ checksum_size k
      → k ≡ 2
      → Checked k j (st64le (xxh64 (payload_of j) 0))
  unfolding job_checksum checksum_size checksum_differs st64le st32le
  xxh64-Checked k j same sized is_xxh = (
    rw (job_checksum, sized, same, is_xxh) refl,
    λ some_len. (
      rw (sized, is_xxh) refl,
      rw (sized, is_xxh, ld64le-st64le (xxh64 (payload_of j) 0) [] (xxh64-lt (payload_of j) 0))
          (ground arith),
    ),
  )

  pub job_checksum_cases :
      (k : ℕ) (j : EncJob)
      → (e.p).checksum ≡ pos k
      → e.checksum_len ≡ checksum_size k
      → (c : List ℕ) × Checked k j c
  unfolding job_checksum
  job_checksum_cases k j same sized = elim (algorithm_cases k) [
    | inl without ↦ (
      j.ck,
      (rw (job_checksum, sized, without) refl, λ some_len. absurd (some_len (sized ∙ without))),
    )
    | inr (inl is_crc) ↦ (_, crc32c-Checked k j same sized is_crc)
    | inr (inr is_xxh) ↦ (_, xxh64-Checked k j same sized is_xxh)
  ]

  -- What a codec's answer makes of a job, where it does not fail with `xq_ok`.
  pub job_result_shape :
      (r : Result (List ℕ)) (j : EncJob)
      → r ≢ err xq_ok
      → (job_result sink e j r).st ≡ xq_ok
      → (job_result sink e j r
          ≡ job_checksum sink e (record j { stored = true; cbuf = []; st = xq_ok }))
        ⊎ ((out : List ℕ) × (r ≡ ok out)
            × (length out < length (j.raw))
            × (job_result sink e j r
                ≡ job_checksum sink e (record j { stored = false; cbuf = out; st = xq_ok })))
  unfolding job_result
  job_result_shape (ok out) j honest done = elim (Bool-cases (leb (length (j.raw)) (length out))) [
    | inl longer ↦ inl (rw (longer) refl)
    | inr shorter ↦ inr (out, refl, ground arith, rw (shorter) refl)
  ]
  job_result_shape (err err_dst_too_small) j honest done = inl refl
  job_result_shape (err st) j honest done = absurd (honest (ap err done))
