-- ===== src/Codec/Lzb/Match.antt =====
-- src/codec/xq_codec_lzb.c: the hash chains and the search for a match. A table of `uint32_t` is a
-- function from its index; a position is stored as itself plus one, and 0 is none.
pub mod Sound
pub mod Search
pub mod Dict
pub mod Chain
use xq.Base.{
  ℕ, zero, suc, ◌+◌, ◌-◌, ◌*◌, ◌/◌, ◌%◌, ◌^◌, List, [], ◌∷◌, Option, none, some, true, false, Bool,
  ltb, leb, ◌==◌, ◌&&◌, ◌||◌, not, if◌then◌else◌, length, drop,
}
use xq.Common.Bytes.{byte_at, ld32le, ld64le}
use xq.Codec.Lzb.Decode.{lzb_min_match}

abbrev pub lzb_hlog_min : ℕ
lzb_hlog_min = 12

abbrev pub lzb_hlog_max : ℕ
lzb_hlog_max = 22

-- `hash4`: the multiplication wraps at 32 bits.
unfoldable pub hash4 : ℕ → ℕ → ℕ
hash4 v hlog = v * 2654435761 % 2 ^ 32 / 2 ^ (32 - hlog)

-- `read32`
unfoldable pub read32 : List ℕ → ℕ
read32 p = ld32le p

-- `depth_for`
unfoldable pub depth_for : ℕ → ℕ
depth_for level =
    if leb level 1
    then 4
    else (if leb level 3
        then 8
        else (if leb level 5
            then 16
            else (if leb level 7 then 32 else (if leb level 9 then 64 else 128))))

-- The `while` of `hlog_for`, on `LZB_HLOG_MAX - h` rounds of fuel.
unfoldable pub hlog_loop : ℕ → ℕ → ℕ → ℕ
hlog_loop zero n h = h
hlog_loop (suc f) n h =
    let next = hlog_loop f n (h + 1) in if ltb h lzb_hlog_max && ltb (2 ^ h) n then next else h

-- `hlog_for`
unfoldable pub hlog_for : ℕ → ℕ
hlog_for n = hlog_loop (lzb_hlog_max - lzb_hlog_min) n lzb_hlog_min

-- The `uint32_t` tables of a context or a dictionary.
pub record Tables : Type 0 where
  pub head : ℕ → ℕ
  pub chain : ℕ → ℕ
  pub hlog : ℕ

-- `table[at] = value`
abbrev pub update : (ℕ → ℕ) → ℕ → ℕ → ℕ → ℕ
update table at value i = if i == at then value else table i

-- `chain[i] = head[h]; head[h] = (uint32_t)(i + 1);` with `h` the hash of the four bytes at `i`
unfoldable pub insert : List ℕ → Tables → ℕ → Tables
insert src t i =
    let h = hash4 (read32 (drop i src)) t.hlog in
    record {
      head = update t.head h ((i + 1) % 2 ^ 32);
      chain = update t.chain i (t.head h);
      hlog = t.hlog;
    }

-- The `for` loops that insert the positions from `i` on, `n` at most.
unfoldable pub insert_from : ℕ → List ℕ → ℕ → Tables → Tables
insert_from zero src i t = t
insert_from (suc n) src i t =
    let more = insert_from n src (i + 1) (insert src t i) in
    if leb (i + lzb_min_match) (length src) then more else t

-- `lzb_cdict`
pub record Cdict : Type 0 where
  pub data_bytes : List ℕ
  pub tables : Tables

-- `xq_lzb_cdict_new`: `head` and `chain` are what the two calls of `malloc` give, none where one
-- fails, and `calloc` says whether the structure was given.
unfoldable pub cdict_new : Bool → Option (ℕ → ℕ) → Option (ℕ → ℕ) → Option (List ℕ) → Option Cdict
cdict_new calloc head chain none = none
cdict_new false head chain (some bytes) = none
cdict_new true none chain (some bytes) = none
cdict_new true (some head) none (some bytes) = none
cdict_new true (some head) (some chain) (some bytes) =
    let start : Tables = record { head = λ h. 0; chain = chain; hlog = hlog_for (length bytes) } in
    if ltb (length bytes) lzb_min_match
    then none
    else some (record { data_bytes = bytes; tables = insert_from (length bytes) bytes 0 start })

-- The first `while` of `match_len`: eight bytes a round.
unfoldable pub match_words : ℕ → List ℕ → List ℕ → ℕ → ℕ → ℕ
match_words zero a b limit i = i
match_words (suc f) a b limit i =
    let more = match_words f a b limit (i + 8) in
    if leb (i + 8) limit && (ld64le (drop i a) == ld64le (drop i b)) then more else i

-- The second: byte by byte.
unfoldable pub match_bytes : ℕ → List ℕ → List ℕ → ℕ → ℕ → ℕ
match_bytes zero a b limit i = i
match_bytes (suc f) a b limit i =
    let more = match_bytes f a b limit (i + 1) in
    if ltb i limit && (byte_at a i == byte_at b i) then more else i

-- `match_len`: neither loop makes more than `limit` rounds.
unfoldable pub match_len : List ℕ → List ℕ → ℕ → ℕ
match_len a b limit = match_bytes limit a b limit (match_words limit a b limit 0)

-- The best match so far, its length and its distance.
pub record Best : Type 0 where
  pub mlen : ℕ
  pub dist : ℕ

-- The first `while` of `find_match`, along the chain of the context.
unfoldable pub own_loop : ℕ → (ℕ → ℕ) → List ℕ → ℕ → ℕ → ℕ → Best → Best
own_loop zero chain src pos limit cand best = best
own_loop (suc tries) chain src pos limit cand best =
    let p = cand - 1 in
    let m = match_len (drop p src) (drop pos src) limit in
    let found : Best = record { mlen = m; dist = pos - p } in
    let better = ltb best.mlen m in
    let next = own_loop tries chain src pos limit (chain p) (if better then found else best) in
    if (cand == 0) || leb pos p then best else (if better && (m == limit) then found else next)

-- The second, along the chain of the dictionary. `d->len - p` wraps at 64 bits.
unfoldable pub dict_loop : ℕ → Cdict → List ℕ → ℕ → ℕ → ℕ → Best → Best
dict_loop zero d src pos limit dc best = best
dict_loop (suc tries) d src pos limit dc best =
    let p = dc - 1 in
    let left = (length d.data_bytes + 2 ^ 64 - p) % 2 ^ 64 in
    let dlimit = if ltb limit left then limit else left in
    let m = match_len (drop p d.data_bytes) (drop pos src) dlimit in
    let found : Best = record { mlen = m; dist = pos + left } in
    let better = ltb best.mlen m in
    let next =
      dict_loop tries d src pos limit (d.tables.chain p) (if better then found else best) in
    if dc == 0 then best else (if better && (m == limit) then found else next)

-- The match from the dictionary, where there is one and it may be longer.
unfoldable pub with_dict : Option Cdict → ℕ → List ℕ → ℕ → ℕ → Best → Best
with_dict none depth src pos limit best = best
with_dict (some d) depth src pos limit best =
    let dh = hash4 (read32 (drop pos src)) d.tables.hlog in
    let looked = dict_loop depth d src pos limit (d.tables.head dh) best in
    if leb lzb_min_match (length d.data_bytes) && ltb best.mlen limit then looked else best

-- `find_match`: the match, none for a length of 0. It is called with `pos` inside the source.
unfoldable pub find_match : Tables → Option Cdict → ℕ → List ℕ → ℕ → Option Best
find_match t d depth src pos =
    let left = length src - pos in
    let limit = if ltb 65535 left then 65535 else left in
    let h = hash4 (read32 (drop pos src)) t.hlog in
    let own = own_loop depth t.chain src pos limit (t.head h) (record { mlen = 0; dist = 0 }) in
    let best = with_dict d depth src pos limit own in
    if ltb left lzb_min_match
    then none
    else (if ltb best.mlen lzb_min_match then none else some best)
