-- ===== src/Codec/Lzb/Context/Stale.antt =====
-- src/codec/xq_codec_lzb.c: `cctx_prepare` after a `malloc` that failed.
use xq.Base.{
  ℕ, ◌≤◌, ◌<◌, ◌≡◌, refl, ◌∙◌, List, ◌∷◌, Option, none, some, true, false, Bool, ltb, ◌!=◌, length,
  arith, Bool-cases, inl, inr,
}
use xq.Status.{err_oom}
use xq.Codec.Exec.{fail, fault}
use xq.Codec.Lzb.Match.{Cdict, hlog_for}
use xq.Codec.Lzb.Context.{
  Cctx, is_null, prepare_head, prepare_chain, and_chain, cctx_prepare, reaches_chain, compress_with,
  compress_prepared, lzb_compress,
}

-- Where the `malloc` of a head succeeds, there is one, and the chain is as it was.
pub record Headed (c : Cctx) (prepared : Bool × Cctx) : Type 0 where
  pub there : prepared.0 ≡ true
  pub chain : prepared.1.chain ≡ c.chain
  pub chain_cap : prepared.1.chain_cap ≡ c.chain_cap

pub prepare_head-Headed : (h : ℕ → ℕ) (c : Cctx) (n : ℕ) → Headed c (prepare_head (some h) c n)
unfolding prepare_head
prepare_head-Headed h c n = elim (Bool-cases (is_null c.head)) [
  | inl e ↦ rw e (record { there = refl; chain = refl; chain_cap = refl })
  | inr e ↦ elim (Bool-cases (c.hlog != hlog_for n)) [
    | inl other ↦ rw (e, other) (record { there = refl; chain = refl; chain_cap = refl })
    | inr same ↦ rw (e, same) (record { there = refl; chain = refl; chain_cap = refl })
  ]
]

module _ (dst_cap : ℕ) (d : Option Cdict) (level : ℕ) (src : List ℕ) where
  -- The chain cannot be had: the context keeps its capacity without a chain.
  no_chain :
      (c : Cctx) (n : ℕ) (prepared : Bool × Cctx)
      → Headed c prepared
      → c.chain_cap < n
      → let after = compress_prepared dst_cap d level src (and_chain none n prepared) in
        (after.0 ≡ fail err_oom) × (after.1.chain ≡ none) × (after.1.chain_cap ≡ c.chain_cap)
  unfolding compress_prepared prepare_chain
  no_chain c n (false, p) v h = cc v.there
  no_chain c n (true, p) v h =
      let longer : ltb p.chain_cap n ≡ true = ground (arith, v.chain_cap) in
      rw longer (refl, refl, v.chain_cap)

  -- A shorter source of five bytes or more asks for no new chain, and the loop comes to the null one.
  null_chain :
      (c : Cctx) (n : ℕ) (prepared : Bool × Cctx) (mem : Option (ℕ → ℕ))
      → Headed c prepared
      → n ≤ c.chain_cap
      → c.chain ≡ none
      → 5 ≤ length src
      → (compress_prepared dst_cap d level src (and_chain mem n prepared)).0 ≡ fault
  unfolding compress_prepared prepare_chain compress_with reaches_chain
  null_chain c n (false, p) mem v h e five = cc v.there
  null_chain c n (true, p) mem v h e five =
      let shorter : ltb p.chain_cap n ≡ false = ground (arith, v.chain_cap) in
      let gone : p.chain ≡ none = v.chain ∙ e in
      let entered : ltb (length src) 4 ≡ false = ground arith in
      let more : ltb 4 (length src) ≡ true = ground arith in rw (shorter, gone, entered, more) refl

-- After a source that needs a longer chain than the context has, and whose `malloc` of the chain
-- fails, the call returns `XQ_ERR_OOM`; the next call, for a source of five bytes or more that is not
-- longer than the chain was, and with a head, goes through the null chain, whatever its `malloc` of a
-- chain would give.
pub stale_chain_cap :
    (h h' : ℕ → ℕ) (mem : Option (ℕ → ℕ)) (c : Cctx) (dst_cap : ℕ) (d : Option Cdict) (level : ℕ)
    (x : ℕ) (long : List ℕ) (y : ℕ) (short : List ℕ)
    → c.chain_cap < length (x ∷ long)
    → length (y ∷ short) ≤ c.chain_cap
    → 5 ≤ length (y ∷ short)
    → let first = lzb_compress (some h) none c dst_cap d level (x ∷ long) in
      (first.0 ≡ fail err_oom)
      × ((lzb_compress (some h') mem first.1 dst_cap d level (y ∷ short)).0 ≡ fault)
unfolding lzb_compress cctx_prepare
stale_chain_cap h h' mem c dst_cap d level x long y short big small five =
    let (failed, gone, kept) =
      no_chain dst_cap d level (x ∷ long) c (length (x ∷ long))
        (prepare_head (some h) c (length (x ∷ long))) (prepare_head-Headed h c (length (x ∷ long)))
        big in
    (
      failed,
      null_chain dst_cap d level (y ∷ short) _ (length (y ∷ short)) _ mem
          (prepare_head-Headed h' _ (length (y ∷ short))) (omega (arith, kept)) gone five,
    )
