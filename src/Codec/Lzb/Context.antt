-- ===== src/Codec/Lzb/Context.antt =====
-- src/codec/xq_codec_lzb.c: the compression context, and `xq_lzb_compress` on it. A pointer is an
-- option, and what `malloc` gives is a parameter: none, or a table with any content.
pub mod Stale
use xq.Base.{
  ℕ, zero, suc, ◌^◌, List, [], ◌∷◌, Option, none, some, true, false, Bool, ltb, ◌==◌, ◌!=◌,
  if◌then◌else◌, length,
}
use xq.Status.{err_oom, err_internal}
use xq.Codec.Exec.{Exec, ret, fail, fault}
use xq.Codec.Lzb.Decode.{lzb_min_match}
use xq.Codec.Lzb.Match.{Tables, Cdict, hlog_for, depth_for, find_match}
use xq.Codec.Lzb.Encode.{Run, emit_seq, encode_loop}

-- `lzb_cctx`
pub record Cctx : Type 0 where
  pub head : Option (ℕ → ℕ)
  pub chain : Option (ℕ → ℕ)
  pub chain_cap : ℕ
  pub hlog : ℕ

-- `xq_lzb_cctx_new`, where `calloc` gives the structure
abbrev pub cctx_new : Cctx
cctx_new = record { head = none; chain = none; chain_cap = 0; hlog = 0 }

abbrev is_null : Option (ℕ → ℕ) → Bool
is_null none = true
is_null (some table) = false

-- The first part of `cctx_prepare`: a `head` of the size that `n` asks for. None where `malloc`
-- fails, with the context that is left.
unfoldable pub prepare_head : Option (ℕ → ℕ) → Cctx → ℕ → Bool × Cctx
prepare_head head_mem c n =
    let fresh : Bool × Cctx = elim head_mem [
      | none ↦ (false, record c { head = none })
      | some head ↦ (true, record c { head = some head; hlog = hlog_for n })
    ] in
    if is_null c.head then fresh else (if c.hlog != hlog_for n then fresh else (true, c))

-- The second part: a `chain` of `n` entries at least.
unfoldable pub prepare_chain : Option (ℕ → ℕ) → Cctx → ℕ → Bool × Cctx
prepare_chain chain_mem c n =
    let fresh : Bool × Cctx = elim chain_mem [
      | none ↦ (false, record c { chain = none })
      | some chain ↦ (true, record c { chain = some chain; chain_cap = n })
    ] in
    if ltb c.chain_cap n then fresh else (true, c)

-- `memset(c->head, 0, …)`
abbrev pub clear_head : Bool × Cctx → Bool × Cctx
clear_head (false, c) = (false, c)
clear_head (true, c) = (true, record c { head = some (λ h. 0) })

abbrev pub and_chain : Option (ℕ → ℕ) → ℕ → Bool × Cctx → Bool × Cctx
and_chain chain_mem n (false, c) = (false, c)
and_chain chain_mem n (true, c) = clear_head (prepare_chain chain_mem c n)

-- `cctx_prepare`, with what its two calls of `malloc` give
unfoldable pub cctx_prepare : Option (ℕ → ℕ) → Option (ℕ → ℕ) → Cctx → ℕ → Bool × Cctx
cctx_prepare head_mem chain_mem c n = and_chain chain_mem n (prepare_head head_mem c n)

-- Whether the loop of `xq_lzb_compress` comes to the chain, with the head cleared: not where it is not
-- entered, and on a source of four bytes not where the match it finds has no room in `dst`.
unfoldable pub reaches_chain : ℕ → Option Cdict → ℕ → List ℕ → Tables → Bool
reaches_chain dst_cap d depth src t =
    if ltb (length src) lzb_min_match
    then false
    else (if ltb lzb_min_match (length src) then true else elim (find_match t d depth src 0) [
      | none ↦ true
      | some found ↦ elim (emit_seq dst_cap [] [] found.dist found.mlen) [
        | none ↦ false
        | some out ↦ true
      ]
    ])

-- `xq_lzb_compress` on the two tables, with the head cleared. A null chain that is reached is a fault,
-- and so is a null head, which `cctx_prepare` clears.
unfoldable pub compress_with :
    ℕ → Option Cdict → ℕ → List ℕ → Cctx → Option (ℕ → ℕ) → Option (ℕ → ℕ) → Exec (List ℕ) × Cctx
compress_with dst_cap d level src c none chain = (fault, c)
compress_with dst_cap d level src c (some head) none =
    let t : Tables = record { head = head; chain = λ p. 0; hlog = c.hlog } in
    let run = encode_loop (length src) dst_cap d (depth_for level) src t [] 0 0 in
    if reaches_chain dst_cap d (depth_for level) src t then (fault, c) else (run.outcome, c)
compress_with dst_cap d level src c (some head) (some chain) =
    let t : Tables = record { head = head; chain = chain; hlog = c.hlog } in
    let run = encode_loop (length src) dst_cap d (depth_for level) src t [] 0 0 in
    (run.outcome, record c { head = some run.tables.head; chain = some run.tables.chain })

-- `xq_lzb_compress` behind `cctx_prepare`
unfoldable pub compress_prepared :
    ℕ → Option Cdict → ℕ → List ℕ → Bool × Cctx → Exec (List ℕ) × Cctx
compress_prepared dst_cap d level src (false, c) = (fail err_oom, c)
compress_prepared dst_cap d level src (true, c) = compress_with dst_cap d level src c c.head c.chain

-- `xq_lzb_compress`: the outcome and the context after it. The context is not null.
unfoldable pub lzb_compress :
    Option (ℕ → ℕ) → Option (ℕ → ℕ) → Cctx → ℕ → Option Cdict → ℕ → List ℕ → Exec (List ℕ) × Cctx
lzb_compress head_mem chain_mem c dst_cap d level [] = (ret [], c)
lzb_compress head_mem chain_mem c dst_cap d level (b ∷ bs) =
    compress_prepared dst_cap d level (b ∷ bs) (cctx_prepare head_mem chain_mem c (length (b ∷ bs)))
