-- ===== src/Codec/Lzb/Encode.antt =====
-- src/codec/xq_codec_lzb.c: the encoder. `out` is the part of `dst` that is written.
use xq.Base.{
  ℕ, zero, suc, ◌+◌, ◌-◌, ◌*◌, ◌%◌, ◌^◌, List, ◌++◌, Option, none, some, true, false, Bool, ltb,
  leb, ◌==◌, ◌!=◌, ◌&&◌, ◌>=>◌, if◌then◌else◌, length, drop, take, bit_or,
}
use xq.Status.{err_dst_too_small}
use xq.Codec.Exec.{Exec, ret, fail}
use xq.Codec.Varint.{put_byte, put_varint}
use xq.Codec.Lzb.Decode.{lzb_min_match}
use xq.Codec.Lzb.Match.{Tables, Cdict, Best, insert, insert_from, find_match}

-- `if (cond && !put_varint(dst, cap, op, v)) return 0;`
unfoldable pub put_varint_if : Bool → ℕ → List ℕ → ℕ → Option (List ℕ)
put_varint_if true dst_cap out v = put_varint dst_cap out v
put_varint_if false dst_cap out v = some out

-- `if (litlen) { if (*op + litlen > cap) return 0; memcpy(…); }`
unfoldable pub put_literals : ℕ → List ℕ → List ℕ → Option (List ℕ)
put_literals dst_cap out lits =
    if length lits == 0
    then some out
    else (if ltb dst_cap (length out + length lits) then none else some (out ++ lits))

-- `mcode` of `emit_seq`; `adj < 14` where `mlen` is not 0.
unfoldable pub match_code : ℕ → ℕ
match_code mlen =
    let adj = mlen - lzb_min_match in if mlen == 0 then 0 else (if ltb adj 14 then adj + 1 else 15)

-- `emit_seq`
unfoldable pub emit_seq : ℕ → List ℕ → List ℕ → ℕ → ℕ → Option (List ℕ)
emit_seq dst_cap out lits dist mlen =
    let litlen = length lits in
    let litcode = if ltb litlen 15 then litlen else 15 in
    let mcode = match_code mlen in
    put_byte dst_cap out (bit_or (litcode * 2 ^ 4) mcode % 2 ^ 8) >=> λ token.
    put_varint_if (litcode == 15) dst_cap token (litlen - 15) >=> λ counted.
    put_literals dst_cap counted lits >=> λ copied.
    put_varint_if (mlen != 0) dst_cap copied dist >=> λ far.
    put_varint_if ((mlen != 0) && (mcode == 15)) dst_cap far (mlen - lzb_min_match - 14)

-- What the run leaves: its outcome and the tables of the context.
pub record Run : Type 0 where
  pub outcome : Exec (List ℕ)
  pub tables : Tables

-- The match that is taken, where it starts, and the tables then.
pub record Pick : Type 0 where
  pub start : ℕ
  pub best : Best
  pub tables : Tables

-- `if (m2 > m + 1) { pos++; m = m2; dist = d2; }`
unfoldable pub choose : ℕ → Best → Tables → Option Best → Pick
choose pos found t none = record { start = pos; best = found; tables = t }
choose pos found t (some next) =
    if ltb (found.mlen + 1) next.mlen
    then record { start = pos + 1; best = next; tables = t }
    else record { start = pos; best = found; tables = t }

-- The look one position ahead, where four bytes are left there.
unfoldable pub look_ahead : Tables → Option Cdict → ℕ → List ℕ → ℕ → Best → Pick
look_ahead t d depth src pos found =
    let t' = insert src t pos in
    let ahead = choose pos found t' (find_match t' d depth src (pos + 1)) in
    if leb (pos + 1 + lzb_min_match) (length src)
    then ahead
    else record { start = pos; best = found; tables = t }

-- `src + from`, up to `end`
abbrev pub span : List ℕ → ℕ → ℕ → List ℕ
span src from end = take (end - from) (drop from src)

-- The last `emit_seq`: the literals that are left, and no match.
unfoldable pub emit_last : ℕ → List ℕ → Tables → List ℕ → ℕ → Run
emit_last dst_cap src t out anchor =
    elim (emit_seq dst_cap out (span src anchor (length src)) 0 0) [
      | none ↦ record { outcome = fail err_dst_too_small; tables = t }
      | some out' ↦ record { outcome = ret out'; tables = t }
    ]

-- The `while`: every round moves `pos` on, so a round for each byte is enough, and with none left
-- the loop has ended.
unfoldable pub encode_loop : ℕ → ℕ → Option Cdict → ℕ → List ℕ → Tables → List ℕ → ℕ → ℕ → Run
encode_loop zero dst_cap d depth src t out anchor pos = emit_last dst_cap src t out anchor
encode_loop (suc fuel) dst_cap d depth src t out anchor pos =
    let round : Run = elim (find_match t d depth src pos) [
      | none ↦ encode_loop fuel dst_cap d depth src (insert src t pos) out anchor (pos + 1)
      | some found ↦
          let pick = look_ahead t d depth src pos found in
          let m = pick.best.mlen in
          elim (emit_seq dst_cap out (span src anchor pick.start) pick.best.dist m) [
            | none ↦ record { outcome = fail err_dst_too_small; tables = pick.tables }
            | some out' ↦
                encode_loop fuel dst_cap d depth src (insert_from m src pick.start pick.tables) out'
                  (pick.start + m) (pick.start + m)
          ]
    ] in
    if leb (pos + lzb_min_match) (length src) then round else emit_last dst_cap src t out anchor
