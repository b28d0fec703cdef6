-- ===== src/Codec/Lzb/Match/Search.antt =====
-- The match that `find_match` of src/codec/xq_codec_lzb.c returns repeats the window, with tables of
-- any content for the source and tables of positions for the dictionary.
use xq.Base.{
  ℕ, zero, suc, ◌+◌, ◌-◌, ◌%◌, ◌^◌, ◌≤◌, ◌<◌, ◌≡◌, ap, sym, ◌∙◌, List, [], ◌++◌, Option, none, some,
  ltb, leb, ◌==◌, ◌&&◌, ◌||◌, if◌then◌else◌, length, length-drop, drop, get_or-drop,
  get_or-append_left, get_or-append_right, arith, Bool-cases, inl, inr, All, All-drop,
}
use xq.Common.Bytes.{IsByte, byte_at}
use xq.Codec.Lzb.Match.{
  Tables, Cdict, Best, hash4, read32, match_len, own_loop, dict_loop, with_dict, find_match,
}
use mathlib.Core.Path.{subst}
use xq.Codec.Lzb.Decode.{lzb_min_match}
use xq.Codec.Lzb.Match.Sound.{match_len_sound}

-- `m` bytes of the source from `pos` on are those `dist` before them in the window, which is the
-- dictionary followed by the source.
pub record Repeats (dict src : List ℕ) (pos m dist : ℕ) : Type 0 where
  pub forward : 1 ≤ dist
  pub inside : dist ≤ pos + length dict
  pub same :
      (i : ℕ)
      → i < m
      → byte_at (dict ++ src) (length dict + pos + i - dist)
        ≡ byte_at (dict ++ src) (length dict + pos + i)

-- A match as the search keeps it: nothing, or a repetition inside the limit.
pub record IsMatch (dict src : List ℕ) (pos limit : ℕ) (best : Best) : Type 0 where
  pub bounded : best.mlen ≤ limit
  pub repeats : 1 ≤ best.mlen → Repeats dict src pos best.mlen best.dist

-- The chains of a dictionary lead to positions with four bytes in it.
pub record IsIndexed (d : Cdict) : Type 0 where
  pub head_in : (h : ℕ) → d.tables.head h ≤ length d.data_bytes - 3
  pub chain_in : (i : ℕ) → i + 4 ≤ length d.data_bytes → d.tables.chain i ≤ length d.data_bytes - 3

module _ (src : List ℕ) (bytes : All IsByte src) (pos limit : ℕ)
    (room : pos + limit ≤ length src) where
  ahead_room : limit ≤ length (drop pos src)
  ahead_room = omega (arith, length-drop pos src)

  -- A match inside the source.
  own_IsMatch :
      (dict : List ℕ) (p : ℕ)
      → p < pos
      → IsMatch dict src pos limit
          (record { mlen = match_len (drop p src) (drop pos src) limit; dist = pos - p })
  own_IsMatch dict p before =
      let (fits, same) =
        match_len_sound (drop p src) (drop pos src) limit (All-drop IsByte p src bytes)
          (All-drop IsByte pos src bytes) (omega (arith, length-drop p src)) ahead_room in
      record {
        bounded = fits;
        repeats = λ h. record {
          forward = omega arith;
          inside = omega arith;
          same = λ i q.
              ap (byte_at (dict ++ src)) (omega arith)
              ∙ get_or-append_right dict src (p + i) 0
              ∙ sym (get_or-drop p i src 0)
              ∙ same i q
              ∙ get_or-drop pos i src 0
              ∙ sym (get_or-append_right dict src (pos + i) 0)
              ∙ ap (byte_at (dict ++ src)) (omega arith);
        };
      }

  own_loop-IsMatch :
      (dict : List ℕ) (tries : ℕ) (chain : ℕ → ℕ) (cand : ℕ) (best : Best)
      → IsMatch dict src pos limit best
      → IsMatch dict src pos limit (own_loop tries chain src pos limit cand best)
  unfolding own_loop
  own_loop-IsMatch dict zero chain cand best v = v
  own_loop-IsMatch dict (suc tries) chain cand best v =
      elim (Bool-cases ((cand == 0) || leb pos (cand - 1))) [
        | inl e ↦ rw e v
        | inr e ↦
            elim (Bool-cases
              (ltb best.mlen (match_len (drop (cand - 1) src) (drop pos src) limit))) [
                | inr worse ↦
                    rw (e, worse) (own_loop-IsMatch dict tries chain (chain (cand - 1)) best v)
                | inl better ↦
                    elim (Bool-cases
                      (match_len (drop (cand - 1) src) (drop pos src) limit == limit)) [
                        | inl full ↦
                            rw (e, better, full) (own_IsMatch dict (cand - 1) (ground arith))
                        | inr more ↦
                            rw (e, better, more)
                              (own_loop-IsMatch dict tries chain (chain (cand - 1)) _
                                (own_IsMatch dict (cand - 1) (ground arith)))
                      ]
              ]
      ]

  module _ (d : Cdict) (d_bytes : All IsByte d.data_bytes) (indexed : IsIndexed d)
      (word : length d.data_bytes < 2 ^ 63) where
    -- A match that starts at byte `p` of the dictionary and ends in it.
    dict_IsMatch :
        (p left dlimit : ℕ)
        → p < length d.data_bytes
        → left ≡ length d.data_bytes - p
        → dlimit ≤ left
        → dlimit ≤ limit
        → IsMatch d.data_bytes src pos limit (record {
          mlen = match_len (drop p d.data_bytes) (drop pos src) dlimit;
          dist = pos + left;
        })
    dict_IsMatch p left dlimit before e in_dict in_limit =
        let (fits, same) =
          match_len_sound (drop p d.data_bytes) (drop pos src) dlimit
            (All-drop IsByte p d.data_bytes d_bytes) (All-drop IsByte pos src bytes)
            (omega (arith, length-drop p d.data_bytes)) (omega (arith, ahead_room)) in
        record {
          bounded = omega arith;
          repeats = λ h. record {
            forward = omega arith;
            inside = omega arith;
            same = λ i q.
                ap (byte_at (d.data_bytes ++ src)) (omega arith)
                ∙ get_or-append_left d.data_bytes src (p + i) 0 (omega arith)
                ∙ sym (get_or-drop p i d.data_bytes 0)
                ∙ same i q
                ∙ get_or-drop pos i src 0
                ∙ sym (get_or-append_right d.data_bytes src (pos + i) 0)
                ∙ ap (byte_at (d.data_bytes ++ src)) (omega arith);
          };
        }

    -- What is left of the dictionary behind byte `p`, as the code computes it.
    abbrev left_of : ℕ → ℕ
    left_of p = (length d.data_bytes + 2 ^ 64 - p) % 2 ^ 64

    abbrev dlimit_of : ℕ → ℕ
    dlimit_of p = if ltb limit (left_of p) then limit else left_of p

    cand_IsMatch :
        (dc : ℕ)
        → 1 ≤ dc
        → dc ≤ length d.data_bytes - 3
        → IsMatch d.data_bytes src pos limit (record {
          mlen = match_len (drop (dc - 1) d.data_bytes) (drop pos src) (dlimit_of (dc - 1));
          dist = pos + left_of (dc - 1);
        })
    cand_IsMatch dc some_cand in_dict =
        let e : left_of (dc - 1) ≡ length d.data_bytes - (dc - 1) = omega arith in
        dict_IsMatch (dc - 1) (left_of (dc - 1)) (dlimit_of (dc - 1)) (omega arith) e (ground arith)
          (ground arith)

    dict_loop-IsMatch :
        (tries dc : ℕ) (best : Best)
        → dc ≤ length d.data_bytes - 3
        → IsMatch d.data_bytes src pos limit best
        → IsMatch d.data_bytes src pos limit (dict_loop tries d src pos limit dc best)
    unfolding dict_loop
    dict_loop-IsMatch zero dc best h v = v
    dict_loop-IsMatch (suc tries) dc best h v = elim (Bool-cases (dc == 0)) [
      | inl e ↦ rw e v
      | inr e ↦
          let m = match_len (drop (dc - 1) d.data_bytes) (drop pos src) (dlimit_of (dc - 1)) in
          let found = cand_IsMatch dc (ground arith) h in
          let next = indexed.chain_in (dc - 1) (ground arith) in
          elim (Bool-cases (ltb best.mlen m)) [
            | inr worse ↦
                rw (e, worse) (dict_loop-IsMatch tries (d.tables.chain (dc - 1)) best next v)
            | inl better ↦ elim (Bool-cases (m == limit)) [
              | inl full ↦ rw (e, better, full) found
              | inr more ↦
                  rw (e, better, more)
                    (dict_loop-IsMatch tries (d.tables.chain (dc - 1)) _ next found)
            ]
          ]
    ]

-- The bytes of an optional dictionary, and what is asked of it.
abbrev pub dict_bytes : Option Cdict → List ℕ
dict_bytes none = []
dict_bytes (some d) = d.data_bytes

-- A dictionary of bytes whose tables point into it.
abbrev pub IsDict : Option Cdict → Type 0
IsDict none = Unit {0}
IsDict (some d) = All IsByte d.data_bytes × IsIndexed d

module _ (src : List ℕ) (bytes : All IsByte src) (pos limit : ℕ)
    (room : pos + limit ≤ length src) where
  with_dict-IsMatch :
      (d : Option Cdict) (depth : ℕ) (best : Best)
      → IsDict d
      → length (dict_bytes d) < 2 ^ 63
      → IsMatch (dict_bytes d) src pos limit best
      → IsMatch (dict_bytes d) src pos limit (with_dict d depth src pos limit best)
  unfolding with_dict
  with_dict-IsMatch none depth best h word v = v
  with_dict-IsMatch (some d) depth best (d_bytes, indexed) word v =
      elim (Bool-cases (leb lzb_min_match (length d.data_bytes) && ltb best.mlen limit)) [
        | inr e ↦ rw e v
        | inl e ↦ rw e (
            dict_loop-IsMatch src bytes pos limit room d d_bytes indexed word depth
              (d.tables.head (hash4 (read32 (drop pos src)) d.tables.hlog)) best (indexed.head_in _)
              v)
      ]

  no-IsMatch : (dict : List ℕ) → IsMatch dict src pos limit (record { mlen = 0; dist = 0 })
  no-IsMatch dict = record { bounded = omega arith; repeats = λ h. absurd (omega arith) }

-- Whatever the tables of the context hold, and with a dictionary whose tables point into it, a match
-- that `find_match` returns at a position of the source has four bytes or more, ends in the source,
-- and repeats the window of dictionary and source at its distance, which lies in that window.
pub find_match_sound :
    (t : Tables) (d : Option Cdict) (depth : ℕ) (src : List ℕ) (pos : ℕ) (best : Best)
    → All IsByte src
    → IsDict d
    → length (dict_bytes d) < 2 ^ 63
    → pos ≤ length src
    → find_match t d depth src pos ≡ some best
    → (4 ≤ best.mlen)
      × (pos + best.mlen ≤ length src)
      × Repeats (dict_bytes d) src pos best.mlen best.dist
find_match_sound t d depth src pos best bytes ok_dict word inside e =
    let (long, same) = found in
    let v' = subst (IsMatch (dict_bytes d) src pos limit) same valid in
    (long, omega (arith, v'.bounded, room), v'.repeats (omega arith))
  where
    limit : ℕ
    limit = if ltb 65535 (length src - pos) then 65535 else length src - pos

    room : pos + limit ≤ length src
    room = ground arith

    own : Best
    own =
        own_loop depth t.chain src pos limit (t.head (hash4 (read32 (drop pos src)) t.hlog))
          (record { mlen = 0; dist = 0 })

    looked : Best
    looked = with_dict d depth src pos limit own

    valid : IsMatch (dict_bytes d) src pos limit looked
    valid = with_dict-IsMatch src bytes pos limit room d depth own ok_dict word (
        own_loop-IsMatch src bytes pos limit room (dict_bytes d) depth t.chain _ _
          (no-IsMatch src bytes pos limit room (dict_bytes d)))

    found : (4 ≤ best.mlen) × (looked ≡ best)
    found = unfold find_match in ground arith
