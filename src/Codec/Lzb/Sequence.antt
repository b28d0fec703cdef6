-- ===== src/Codec/Lzb/Sequence.antt =====
-- The bytes of one sequence of src/codec/xq_codec_lzb.c: what `emit_seq` appends, and what one round
-- of the decoder makes of it.
pub mod Round
use mathlib.Core.Path.{subst}
use xq.Base.{
  ℕ, zero, suc, ◌+◌, ◌-◌, ◌*◌, ◌/◌, ◌%◌, ◌^◌, ◌≤◌, ◌<◌, ◌≡◌, refl, ap, sym, ◌∙◌, List, [], ◌∷◌,
  ◌++◌, append_assoc, append-nil, Option, none, some, true, false, Bool, ltb, leb, ◌==◌, ◌!=◌, ◌&&◌,
  ◌||◌, ◌>=>◌, if◌then◌else◌, length, length-append, drop, take, drop-append, take-append, bit_or,
  bit_and, arith, Bool-cases, inl, inr,
}
use native.Mathlib.Decide.{dec_lt}
use xq.Base.Bits.{bit_or_high, bit_and_mask}
use xq.Common.Checked.{IsU64}
use xq.Status.{err_corrupt_block, err_dst_too_small}
use xq.Codec.Exec.{Exec, ret, fail, ◌>>=◌, ◌>>◌, fail_if, read_bytes_ok, append_bytes_ok}
use xq.Codec.Varint.{put_byte, put_varint, get_varint}
use xq.Codec.Varint.RoundTrip.{varint, put_varint_exact, get_varint-varint}
use xq.Codec.Lzb.Decode.{
  lzb_min_match, decode_litlen, copy_literals, decode_mlen, decode_copy, decode_match,
  decode_literals,
}
use xq.Codec.Lzb.Decode.Window.{Extends, decode_copy-Extends}
use xq.Codec.Lzb.Encode.{put_varint_if, put_literals, match_code, emit_seq}

abbrev pub lit_code : ℕ → ℕ
lit_code litlen = if ltb litlen 15 then litlen else 15

abbrev pub token_of : ℕ → ℕ → ℕ
token_of litlen mlen = bit_or (lit_code litlen * 2 ^ 4) (match_code mlen) % 2 ^ 8

abbrev pub varint_if : Bool → ℕ → List ℕ
varint_if true v = varint v
varint_if false v = []

-- The bytes behind the literals.
abbrev pub match_part : ℕ → ℕ → List ℕ
match_part dist mlen =
    varint_if (mlen != 0) dist
    ++ varint_if ((mlen != 0) && (match_code mlen == 15)) (mlen - lzb_min_match - 14)

-- A sequence: token, literal count, literals, distance, match length.
abbrev pub sequence : List ℕ → ℕ → ℕ → List ℕ
sequence lits dist mlen =
    token_of (length lits) mlen
    ∷ (varint_if (lit_code (length lits) == 15) (length lits - 15)
        ++ (lits ++ match_part dist mlen))

>=>-some {ℓ κ} :
    {A : Type ℓ} {B : Type κ} (m : Option A) (f : A → Option B) {b : B}
    → m >=> f ≡ some b
    → (a : A) × (m ≡ some a) × (f a ≡ some b)
>=>-some none f e = cc
>=>-some (some a) f e = (a, refl, e)

module _ (dst_cap : ℕ) where
  put_byte-some :
      (out : List ℕ) (b : ℕ) (out' : List ℕ)
      → put_byte dst_cap out b ≡ some out'
      → out' ≡ out ++ (b ∷ [])
  unfolding put_byte
  put_byte-some out b out' e = ground arith

  put_varint-some :
      (out : List ℕ) (v : ℕ) (out' : List ℕ)
      → put_varint dst_cap out v ≡ some out'
      → out' ≡ out ++ varint v
  put_varint-some out v out' e = elim (dec_lt dst_cap (length out + length (varint v))) [
    | yes full ↦ let failed = (put_varint_exact dst_cap out v).1 full in cc
    | no room ↦ let done = (put_varint_exact dst_cap out v).0 (omega arith) in cc
  ]

  put_varint_if-some :
      (b : Bool) (out : List ℕ) (v : ℕ) (out' : List ℕ)
      → put_varint_if b dst_cap out v ≡ some out'
      → out' ≡ out ++ varint_if b v
  unfolding put_varint_if
  put_varint_if-some true out v out' e = put_varint-some out v out' e
  put_varint_if-some false out v out' e = sym (append-nil out ∙ cc)

  put_literals-some :
      (out lits out' : List ℕ) → put_literals dst_cap out lits ≡ some out' → out' ≡ out ++ lits
  unfolding put_literals
  put_literals-some out [] out' e = sym (append-nil out ∙ cc)
  put_literals-some out (l ∷ lits) out' e = ground arith

  -- What `emit_seq` appends where it succeeds.
  pub emit_seq-some :
      (out lits : List ℕ) (dist mlen : ℕ) (out' : List ℕ)
      → emit_seq dst_cap out lits dist mlen ≡ some out'
      → out' ≡ out ++ sequence lits dist mlen
  unfolding emit_seq
  emit_seq-some out lits dist mlen out' e =
      let (token, e1, f1) = >=>-some _ _ e in
      let (counted, e2, f2) = >=>-some _ _ f1 in
      let (copied, e3, f3) = >=>-some _ _ f2 in
      let (far, e4, e5) = >=>-some _ _ f3 in
      rw
        (
          put_varint_if-some _ far _ out' e5,
          put_varint_if-some _ copied _ far e4,
          put_literals-some counted lits copied e3,
          put_varint_if-some _ token _ counted e2,
          put_byte-some out _ token e1,
        )
        (simp append_assoc)

match_code-le : (mlen : ℕ) → match_code mlen ≤ 15
unfolding match_code
match_code-le mlen = ground arith

-- The two halves of a token.
token_halves :
    (l m : ℕ)
    → l ≤ 15
    → m ≤ 15
    → (bit_or (l * 2 ^ 4) m % 2 ^ 8 / 2 ^ 4 ≡ l) × (bit_and (bit_or (l * 2 ^ 4) m % 2 ^ 8) 0x0f ≡ m)
token_halves l m hl hm =
    omega (arith, bit_or_high 4 l m (omega arith), bit_and_mask 4 (bit_or (l * 2 ^ 4) m % 2 ^ 8))

pub token_of_codes :
    (litlen mlen : ℕ)
    → (token_of litlen mlen / 2 ^ 4 ≡ lit_code litlen)
      × (bit_and (token_of litlen mlen) 0x0f ≡ match_code mlen)
token_of_codes litlen mlen =
    token_halves (lit_code litlen) (match_code mlen) (ground arith) (match_code-le mlen)
