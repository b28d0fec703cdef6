-- ===== src/Decoder/Safety.antt =====
-- The decoder of src/core/xq_decoder.c on every stream, and its buffers.
pub mod Create
pub mod Read
use xq.Base.{
  ℕ, zero, suc, ◌+◌, ◌-◌, ◌≤◌, ◌<◌, ◌≡◌, refl, ap, sym, ◌∙◌, inl, inr, List, [], length-drop, Bool,
  true, false, Bool-cases, ◌==◌, ◌!=◌, ◌&&◌, bit_and, not, take, drop, ltb, length, arith, Option,
  none, some,
}
use native.Mathlib.Nat.{le_refl}
use xq.Dict.{DictInfo, dict_payload_header, dict_payload_parse}
use xq.Params.{dict_size_max}
use xq.Common.Xxh64.{xxh64}
use xq.Status.{Status, Result, ok, err, xq_ok, err_unsupported_codec}
use xq.Common.Bytes.{ld16le}
use xq.Format.Consts.{
  bflag_stored, bflag_uses_dict, block_magic, record_header_size, block_header_size,
}
use xq.Format.Block.{BlockHeader, block_parse}
use xq.Format.Record.{RecordHeader, record_parse, record_verify}
use xq.Codec.Exec.{
  Exec, ret, fail, ◌>>=◌, ◌>>◌, fail_if, Ends, returns, fails, Ends-bind, Ends-known, read_bytes_ok,
  append_bytes_ok, takes_ok, Ends-if, Ends-branch, Ends-mono, Ends-fail_if,
}
use xq.Codec.Table.{CodecVt, codec_get, codec_has_dict}
use xq.Dict.{dict_info_check}
use xq.Decoder.Input.{Source, Input, consume, run, need}
use xq.Decoder.Input.Stream.{Delivers, length-ahead}
use xq.Decoder.Input.Safety.{Within, need-Ends, read_exact-Ends, consume-Within, skip_loop-Ends}
use xq.Decoder.State.{Decoder, codec_or}
use xq.Decoder.Records.{
  codec_stored, rec_user_meta, rec_index, rec_end_of_blocks, rec_dict, rflag_critical, over_limit,
  is_some, read_payload, check, ddict_or, dict_bytes, read_dict_record, end_of_blocks, skip_record,
  by_tag, handle_record,
}
use xq.Decoder.Blocks.{
  checksum_differs, is_null, check_block, block_bytes, read_block, block_round, next_block,
}

-- A step that may only fail.
pub run-Ends : {A : Type 0} (r : Result A) → Ends (λ a. r ≡ ok a) (run r)
run-Ends (ok a) = returns refl
run-Ends (err st) = fails

run-Ends_any : {A : Type 0} (r : Result A) → Ends (λ a. Unit {0}) (run r)
run-Ends_any (ok a) = returns tt
run-Ends_any (err st) = fails

check-Ends : (st : Status) → Ends (λ done. Unit {0}) (check st)
check-Ends xq_ok = returns tt
check-Ends _ = fails

codec_or-Ends : (st : Status) (c : Option CodecVt) → Ends (λ vt. Unit {0}) (codec_or st c)
codec_or-Ends st none = fails
codec_or-Ends st (some c) = returns tt

-- The contract of the codecs in a decoder: with a context and a dictionary object that the codec
-- `owner` made, every codec that the table has gives at most as many bytes as there is room for, or
-- fails.
pub record Handles (codecs : List CodecVt) (owner : CodecVt) : Type 0 where
  pub inside :
      (k : ℕ) (c : CodecVt)
      → codec_get codecs k ≡ some c
      → (room : ℕ) (packed : List ℕ) (expected : ℕ) (dict : Option (List ℕ))
      → Ends (λ out. length out ≤ room) (c.decompress (owner.id) room packed expected dict)

-- A codec that is found is in the table.
pub found-Ends :
    (st : Status) (codecs : List CodecVt) (k : ℕ)
    → Ends (λ c. codec_get codecs k ≡ some c) (codec_or st (codec_get codecs k))
found-Ends st codecs k = of (codec_get codecs k)
  where
    of : (o : Option CodecVt) → Ends (λ c. o ≡ some c) (codec_or st o)
    of none = fails
    of (some c) = returns refl

dict_bytes-Ends :
    (codecs : List CodecVt) (owner : CodecVt) (info : DictInfo) (stored : List ℕ)
    → Handles codecs owner
    → info.stored_size ≤ length stored
    → Ends (λ raw. Unit {0}) (dict_bytes codecs (owner.id) info stored)
unfolding dict_bytes
dict_bytes-Ends codecs owner info stored contract there =
    Ends-if (info.stored_codec == codec_stored)
      (λ plain.
        Ends-fail_if (info.stored_size != info.raw_size) _
          (λ same. Ends-known (read_bytes_ok stored 0 (info.raw_size) (ground (arith, there))) tt))
      (λ packed. Ends-bind (found-Ends err_unsupported_codec codecs (info.stored_codec)) (λ c found.
        Ends-bind
          (Ends-known {P = λ packed. Unit {0}}
            (read_bytes_ok stored 0 (info.stored_size) (omega (arith, there))) tt)
          (λ packed u.
            Ends-bind
              (contract.inside (info.stored_codec) c found (info.raw_size) packed (info.raw_size)
                none)
              (λ raw done. Ends-fail_if (length raw != info.raw_size) _ (λ same. returns tt)))))

ddict_or-Ends : (dict : Option (List ℕ)) → Ends (λ d. Unit {0}) (ddict_or dict)
ddict_or-Ends none = fails
ddict_or-Ends (some d) = returns tt

block_bytes-Ends :
    (codecs : List CodecVt) (owner : CodecVt) (ddict : Option (List ℕ)) (raw_cap : ℕ)
    (b : BlockHeader) (stored : List ℕ)
    → Handles codecs owner
    → length stored ≡ b.stored_size
    → b.raw_size ≤ raw_cap
    → Ends (λ out. length out ≤ raw_cap) (block_bytes codecs (owner.id) ddict raw_cap b stored)
unfolding block_bytes
block_bytes-Ends codecs owner ddict raw_cap b stored contract sized room =
    Ends-if (bit_and (b.bflags) bflag_stored != 0)
      (λ plain. Ends-fail_if (b.stored_size != b.raw_size) _ (λ same.
        Ends-known (append_bytes_ok raw_cap [] stored (ground (arith, sized, room)))
          (ground (arith, sized, room))))
      (λ packed. Ends-bind (found-Ends err_unsupported_codec codecs (b.codec_id)) (λ c found.
        Ends-fail_if ((bit_and (b.bflags) bflag_uses_dict != 0) && is_null ddict) _
          (λ there. contract.inside (b.codec_id) c found raw_cap stored (b.raw_size) _)))

-- The stored bytes of a dictionary lie in the payload of its record.
inside_payload :
    (payload : List ℕ) (size : ℕ) (info : DictInfo)
    → dict_payload_parse (some payload) size ≡ ok info
    → length payload ≡ size
    → info.stored_size ≤ length (drop dict_payload_header payload)
unfolding dict_payload_parse dict_info_check
inside_payload payload size info parsed long =
    ground (arith, length-drop dict_payload_header payload, long)

module _ {S : Type 0} (src : Source S) (rest : S → List ℕ) (h : Delivers src rest)
    (codecs : List CodecVt) where
  -- The position lies in the block, a checksum fits its buffer of 8 bytes, and the codecs keep their
  -- contract with what the codec of the file header made.
  abbrev pub Sound : Decoder S → Type 0
  Sound d =
      (d.raw_pos ≤ length (d.raw))
      × (length (d.raw) ≤ d.raw_cap)
      × (d.checksum_len ≤ 8)
      × Handles codecs (d.codec)

  -- At most `m` bytes are left for the decoder to read.
  abbrev pub Left : ℕ → Decoder S → Type 0
  Left m d = Within src rest h m (d.input) × (Sound d)

  skip_record-Ends :
      (d : Decoder S) (r : RecordHeader) (m : ℕ)
      → Left m d
      → Ends (Left m) (skip_record src codecs d r)
  unfolding skip_record
  skip_record-Ends d r m w =
      Ends-fail_if
        ((r.tag != rec_user_meta)
          && (r.tag != rec_index)
          && (bit_and (r.rflags) rflag_critical != 0))
        _
        (λ known.
          Ends-bind
            (skip_loop-Ends src rest h (r.size) (d.input) (r.size) m (le_refl (r.size)) (w.0))
            (λ input w'. returns (w', w.1)))

  end_of_blocks-Ends :
      (d : Decoder S) (bytes : List ℕ) (r : RecordHeader) (m : ℕ)
      → Left m d
      → Ends (Left m) (end_of_blocks src codecs d bytes r)
  unfolding end_of_blocks
  end_of_blocks-Ends d bytes r m w = Ends-fail_if (r.size != 0) _ (λ zero_size.
      Ends-bind (check-Ends (record_verify (some bytes) none 0)) (λ done u. returns w))

  -- `read_dict_record` behind its tests of the size.
  dict_payload-Ends :
      (d : Decoder S) (bytes : List ℕ) (r : RecordHeader) (m : ℕ)
      → Left m d
      → Ends (Left m) (read_payload src codecs d bytes r)
  unfolding read_payload
  dict_payload-Ends d bytes r m w =
      Ends-bind (read_exact-Ends src rest h (d.input) (r.size) m (w.0))
        (λ (payload, input) (w', long).
          Ends-bind (check-Ends (record_verify (some bytes) (some payload) (r.size))) (λ done u.
            Ends-bind (run-Ends (dict_payload_parse (some payload) (r.size))) (λ info parsed.
              Ends-fail_if (over_limit (d.p) (info.raw_size)) _ (λ q.
                Ends-bind
                  (dict_bytes-Ends codecs (d.codec) info (drop dict_payload_header payload) (w.1.3)
                    (inside_payload payload (r.size) info parsed long))
                  (λ raw v. Ends-fail_if (xxh64 raw 0 != info.xxh64) _ (λ same.
                    Ends-fail_if (not (codec_has_dict (some (d.codec)))) _ (λ able.
                      Ends-bind (ddict_or-Ends ((d.codec).ddict_new raw))
                        (λ dict x. returns (w', w.1)))))))))

  read_dict_record-Ends :
      (d : Decoder S) (bytes : List ℕ) (r : RecordHeader) (m : ℕ)
      → Left m d
      → Ends (Left m) (read_dict_record src codecs d bytes r)
  unfolding read_dict_record
  read_dict_record-Ends d bytes r m w = Ends-fail_if (is_some (d.ddict)) _ (λ q1.
      Ends-fail_if (ltb (r.size) dict_payload_header) _ (λ q2.
        Ends-fail_if (ltb (dict_size_max + dict_payload_header) (r.size)) _ (λ q3.
          Ends-fail_if (over_limit (d.p) (r.size)) _ (λ q4. dict_payload-Ends d bytes r m w))))

  by_tag-Ends :
      (d : Decoder S) (bytes : List ℕ) (r : RecordHeader) (m : ℕ)
      → Left m d
      → Ends (Left m) (by_tag src codecs d bytes r)
  unfolding by_tag
  by_tag-Ends d bytes r m w =
      Ends-if (r.tag == rec_end_of_blocks) (λ eob. end_of_blocks-Ends d bytes r m w)
        (λ other.
          Ends-if (r.tag == rec_dict) (λ dict. read_dict_record-Ends d bytes r m w)
            (λ skipped. skip_record-Ends d r m w))

  -- A record takes at least the 14 bytes of its header.
  handle_record-Ends :
      (d : Decoder S) (bytes : List ℕ) (m : ℕ)
      → Left m d
      → record_header_size ≤ length ((d.input).rbuf) - (d.input).rpos
      → Ends (Left (m - record_header_size)) (handle_record src codecs d bytes)
  unfolding handle_record
  handle_record-Ends d bytes m w there =
      Ends-bind (run-Ends (record_parse (some bytes) record_header_size)) (λ r parsed.
        by_tag-Ends (record d { input = consume src (d.input) record_header_size }) bytes r
          (m - record_header_size)
          (consume-Within src rest h (d.input) record_header_size m (w.0) there, w.1))

  check_block-Ends :
      (d : Decoder S) (input : Input S) (stored : List ℕ) (m : ℕ)
      → d.checksum_len ≤ 8
      → Within src rest h m input
      → Ends (Within src rest h m) (check_block src codecs d input stored)
  unfolding check_block
  check_block-Ends d input stored m fits w =
      Ends-if (d.checksum_len != 0)
        (λ some_sum.
          Ends-bind (Ends-known {P = λ u. Unit {0}} (takes_ok 8 (d.checksum_len) fits) tt) (λ t u.
            Ends-bind (read_exact-Ends src rest h input (d.checksum_len) m w)
              (λ (ck, input') (w', long).
                Ends-fail_if (checksum_differs ((d.hdr).checksum_id) ck stored) _
                  (λ same. returns w'))))
        (λ no_sum. returns w)

  read_block-Ends : (d : Decoder S) (m : ℕ) → Left m d → Ends (Left m) (read_block src codecs d)
  unfolding read_block
  read_block-Ends d m w =
      Ends-bind (need-Ends src rest h (d.input) block_header_size m (omega arith) (w.0))
        (λ (bh, i1) (w1, there).
          Ends-bind (run-Ends (block_parse (some bh) block_header_size)) (λ b parsed.
            Ends-fail_if (b.raw_offset != d.raw_offset) _ (λ q1.
              Ends-fail_if (ltb (d.raw_cap) (b.raw_size)) _ (λ q2.
                Ends-fail_if (ltb (d.cbuf_cap) (b.stored_size)) _ (λ q3.
                  Ends-bind
                    (Ends-known {P = λ u. Unit {0}}
                      (takes_ok (d.cbuf_cap) (b.stored_size) (ground arith)) tt)
                    (λ t u.
                      Ends-bind
                        (read_exact-Ends src rest h (consume src i1 block_header_size)
                          (b.stored_size) (m - block_header_size)
                          (consume-Within src rest h i1 block_header_size m w1 there))
                        (λ (stored, i3) (w3, long).
                          Ends-bind
                            (check_block-Ends d i3 stored (m - block_header_size) (w.1.2) w3)
                            (λ i4 w4.
                              Ends-bind
                                (block_bytes-Ends codecs (d.codec) (d.ddict) (d.raw_cap) b stored
                                  (w.1.3) long (ground arith))
                                (λ out v. Ends-fail_if (length out != b.raw_size) _ (λ q4.
                                  returns (fewer i4 w4, (omega arith, v, w.1.2, w.1.3))))))))))))
    where
      fewer : (i : Input S) → Within src rest h (m - block_header_size) i → Within src rest h m i
      fewer i (k, few) = (k, omega arith)

  block_round-Ends :
      (again : Decoder S → Exec (Decoder S)) (d : Decoder S) (m : ℕ)
      → ((d' : Decoder S)
          → record_header_size ≤ m
          → Left (m - record_header_size) d'
          → Ends (Left m) (again d'))
      → Left m d
      → Ends (Left m) (block_round src codecs again d)
  unfolding block_round
  block_round-Ends again d m loop w =
      Ends-bind (need-Ends src rest h (d.input) 2 m (omega arith) (w.0)) (λ (p, i1) (w1, two).
        Ends-branch (ld16le p == block_magic)
          (λ magic. read_block-Ends (record d { input = i1 }) m (w1, w.1))
          (λ other.
            Ends-bind (need-Ends src rest h i1 record_header_size m (omega arith) w1)
              (λ (rh, i2) (w2, there).
                Ends-bind (handle_record-Ends (record d { input = i2 }) rh m (w2, w.1) there)
                  (λ d' w'. loop d' (at_least i2 w2 there) w'))))
    where
      at_least :
          (i : Input S)
          → Within src rest h m i
          → record_header_size ≤ length (i.rbuf) - i.rpos
          → record_header_size ≤ m
      at_least i (k, few) there = omega (arith, length-ahead src rest h i)

  -- From a source that keeps its promise, with one round more than there are bytes left, with a
  -- checksum of 8 bytes at most and a block inside its buffer, and where every codec of the table, with
  -- a context and a dictionary that the codec of the file header made, fails or gives no more than there
  -- is room for, `next_block` returns a decoder of which the same holds and that has no more bytes left
  -- to read, or fails; it copies and reads nothing into a buffer beyond its end.
  pub next_block-Ends :
      (fuel : ℕ) (d : Decoder S) (m : ℕ)
      → Left m d
      → m < fuel
      → Ends (Left m) (next_block src codecs fuel d)
  unfolding next_block
  next_block-Ends zero d m w enough = absurd (omega arith)
  next_block-Ends (suc fuel) d m w enough =
      Ends-branch (d.saw_eob) (λ seen. returns w)
        (λ unseen.
          block_round-Ends (next_block src codecs fuel) d m
            (λ d' long w'.
              Ends-mono wider (next_block-Ends fuel d' (m - record_header_size) w' (omega arith)))
            w)
    where
      wider : (d : Decoder S) → Left (m - record_header_size) d → Left m d
      wider d ((k, few), inside) = ((k, omega arith), inside)
