-- ===== src/Api/Memory.antt =====
-- The sink and the source in memory of src/core/xq_api.c. The sink's bytes are the `len` that it holds.
use xq.Base.{
  ℕ, ◌+◌, ◌-◌, ◌≡◌, ◌≢◌, Bool, true, false, refl, ap, sym, ◌∙◌, min, List, ◌++◌, not, length,
  length-take, length-drop, take, drop, drop-drop, take-append-drop, drop_all, arith,
}
use xq.Common.Checked.{range_ok_sz}
use xq.Status.{Result, ok, err, xq_ok, ◌>>◌, fail_if, err_dst_too_small}
use xq.Decoder.Input.{Source}
use xq.Decoder.Input.Stream.{Delivers}
use xq.Encoder.Jobs.Written.{Appends}

-- `mem_sink`
pub record MemSink : Type 0 where
  pub dst : List ℕ
  pub dst_cap : ℕ

-- `mem_sink_write`: the sink after it
unfoldable pub mem_sink_write : MemSink → List ℕ → Result MemSink
mem_sink_write m buf = do
  fail_if (not (range_ok_sz (length (m.dst)) (length buf) (m.dst_cap))) err_dst_too_small
  ok (record m { dst = m.dst ++ buf })

-- `mem_src`
pub record MemSrc : Type 0 where
  pub src : List ℕ
  pub pos : ℕ

-- `mem_src_read`: the bytes that it copies, and the source after it
unfoldable pub mem_src_read : Source MemSrc
mem_src_read m len =
    let taken = min len (length (m.src) - m.pos) in
    ok (take taken (drop (m.pos) (m.src)), record m { pos = m.pos + taken })

-- The source in memory keeps a source's promise.
pub mem_src_read-Delivers : Delivers mem_src_read (λ m. drop (m.pos) (m.src))
unfolding mem_src_read
mem_src_read-Delivers = record {
  got = λ m n. take (taken m n) (drop (m.pos) (m.src));
  next = λ m n. record m { pos = m.pos + taken m n };
  succeeds = λ m n. refl;
  short = λ m n. omega (arith, length-take (taken m n) (drop (m.pos) (m.src)));
  front = λ m n.
      sym (take-append-drop (taken m n) (drop (m.pos) (m.src)))
      ∙ ap (λ l. take (taken m n) (drop (m.pos) (m.src)) ++ l)
          (drop-drop (taken m n) (m.pos) (m.src));
  last = λ m n some_wanted none_got. drop_all (m.pos) (m.src) (
      omega (
        arith,
        some_wanted,
        ap length none_got,
        length-take (taken m n) (drop (m.pos) (m.src)),
        length-drop (m.pos) (m.src),
      ));
}
  where
    taken : MemSrc → ℕ → ℕ
    taken m n = min n (length (m.src) - m.pos)

-- The sink in memory keeps what it is given, behind what it holds.
pub mem_sink_write-Appends : Appends mem_sink_write (λ m. m.dst)
unfolding mem_sink_write
mem_sink_write-Appends = record {
  appended =
      λ m m' buf. kept m m' buf (not (range_ok_sz (length (m.dst)) (length buf) (m.dst_cap)));
  honest = λ m buf. refused m buf (not (range_ok_sz (length (m.dst)) (length buf) (m.dst_cap)));
}
  where
    kept :
        (m m' : MemSink) (buf : List ℕ) (b : Bool)
        → (fail_if b err_dst_too_small >> ok (record m { dst = m.dst ++ buf })) ≡ ok m'
        → m'.dst ≡ m.dst ++ buf
    kept m m' buf true e = absurd cc
    kept m m' buf false e = cc

    refused :
        (m : MemSink) (buf : List ℕ) (b : Bool)
        → (fail_if b err_dst_too_small >> ok (record m { dst = m.dst ++ buf })) ≢ err xq_ok
    refused m buf true = λ e. cc
    refused m buf false = λ e. cc
