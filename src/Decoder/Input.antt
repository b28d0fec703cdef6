-- ===== src/Decoder/Input.antt =====
-- The input side of src/core/xq_decoder.c: the bytes that the source delivers, buffered in `rbuf`. The
-- buffer is the list of its `rlen` bytes. A loop has as fuel the number of bytes that it waits for,
-- and `out_of_fuel` marks a loop that has used it up.
pub mod Stream
pub mod Safety
use xq.Base.{
  ℕ, zero, suc, ◌+◌, ◌-◌, ◌*◌, min, List, [], ◌∷◌, ◌++◌, Bool, true, false, ltb, leb, ◌==◌, ◌&&◌,
  if◌then◌else◌, length, take, drop,
}
use xq.Status.{Status, Result, ok, err, err_internal, err_truncated}
use xq.Codec.Exec.{Exec, ret, fail, fault, out_of_fuel, ◌>>=◌, ◌>>◌, fail_if}

-- `XQ_RBUF_SIZE`
abbrev pub rbuf_size : ℕ
rbuf_size = 256 * 1024

-- `xq_src_fn`: at most as many bytes as asked for, none at the end, and the source after it.
abbrev pub Source : Type 0 → Type 0
Source S = S → ℕ → Result (List ℕ × S)

-- A call that gives a status, as a step of a run.
abbrev pub run {ℓ} : {A : Type ℓ} → Result A → Exec A
run (ok a) = ret a
run (err st) = fail st

-- The fields `src_ctx`, `rbuf`, `rpos` and `src_eof` of `xq_decoder`.
pub record Input (S : Type 0) : Type 0 where
  pub src_ctx : S
  pub rbuf : List ℕ
  pub rpos : ℕ
  pub src_eof : Bool

abbrev pub is_empty : List ℕ → Bool
is_empty [] = true
is_empty (b ∷ bs) = false

module _ {S : Type 0} (src : Source S) where
  -- `d->src(d->src_ctx, dst, len, &got)`. More bytes than were asked for are written outside `dst`.
  unfoldable pub call_src : S → ℕ → Exec (List ℕ × S)
  call_src s len = do
    (got, s') ← run (src s len)
    if leb (length got) len then ret (got, s') else fault

  -- `rbuf_fill`
  unfoldable pub rbuf_fill : Input S → Exec (Input S)
  rbuf_fill d = elim (d.src_eof) [
    | true ↦ ret d
    | false ↦ do
      let kept = drop (d.rpos) (d.rbuf)
      (got, s') ← call_src (d.src_ctx) (rbuf_size - length kept)
      ret (record { src_ctx = s'; rbuf = kept ++ got; rpos = 0; src_eof = is_empty got })
  ]

  -- The `while` of `need`.
  unfoldable pub need_loop : ℕ → Input S → ℕ → Exec (Input S)
  need_loop zero d n = out_of_fuel
  need_loop (suc fuel) d n = elim (ltb (length (d.rbuf) - d.rpos) n) [
    | false ↦ ret d
    | true ↦ do fail_if (d.src_eof) err_truncated; d' ← rbuf_fill d; need_loop fuel d' n
  ]

  -- `need`: the bytes at `*out`, and the input with them still ahead.
  unfoldable pub need : Input S → ℕ → Exec (List ℕ × Input S)
  need d n = do
    fail_if (ltb rbuf_size n) err_internal
    d' ← need_loop (n + 2) d n
    ret (drop (d'.rpos) (d'.rbuf), d')

  -- `consume`
  unfoldable pub consume : Input S → ℕ → Input S
  consume d n = record d { rpos = d.rpos + n }

  -- The `while (n)` of `read_exact`: the bytes that it writes to `dst`, and the source after them.
  unfoldable pub read_loop : ℕ → S → Bool → ℕ → Exec (List ℕ × S × Bool)
  read_loop fuel s eof zero = ret ([], s, eof)
  read_loop zero s eof (suc n) = out_of_fuel
  read_loop (suc fuel) s true (suc n) = fail err_truncated
  read_loop (suc fuel) s false (suc n) = do
    (got, s') ← call_src s (suc n)
    fail_if (is_empty got) err_truncated
    (more, s'', eof) ← read_loop fuel s' false (suc n - length got)
    ret (got ++ more, s'', eof)

  -- `read_exact`
  unfoldable pub read_exact : Input S → ℕ → Exec (List ℕ × Input S)
  read_exact d n = do
    let taken = min n (length (d.rbuf) - d.rpos)
    let front = take taken (drop (d.rpos) (d.rbuf))
    (back, s', eof) ← read_loop (n - taken) (d.src_ctx) (d.src_eof) (n - taken)
    ret (
      front ++ back,
      record { src_ctx = s'; rbuf = d.rbuf; rpos = d.rpos + taken; src_eof = eof },
    )

  -- The body of the loop over `remain` in `handle_record`, where the buffer is used up.
  unfoldable pub refill : Input S → Exec (Input S)
  refill d = elim (d.rpos == length (d.rbuf)) [
    | false ↦ ret d
    | true ↦ do
      fail_if (d.src_eof) err_truncated
      d' ← rbuf_fill d
      fail_if ((d'.rpos == length (d'.rbuf)) && d'.src_eof) err_truncated
      ret d'
  ]

  -- The loop over `remain` in `handle_record`.
  unfoldable pub skip_loop : ℕ → Input S → ℕ → Exec (Input S)
  skip_loop fuel d zero = ret d
  skip_loop zero d (suc n) = out_of_fuel
  skip_loop (suc fuel) d (suc n) = do
    d' ← refill d
    let taken = min (suc n) (length (d'.rbuf) - d'.rpos)
    skip_loop fuel (consume d' taken) (suc n - taken)
