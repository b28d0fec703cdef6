-- ===== src/Decoder/Blocks.antt =====
-- src/core/xq_decoder.c: the blocks, and the calls that read their bytes.
use xq.Base.{
  ℕ, zero, suc, ◌+◌, ◌-◌, ◌^◌, ◌%◌, min, List, [], ◌++◌, Option, none, some, Bool, true, false, ltb,
  ◌==◌, ◌!=◌, ◌&&◌, if◌then◌else◌, take, drop, length, bit_and,
}
use xq.Status.{
  Status, Result, ok, err, xq_ok, err_corrupt_block, err_memlimit, err_unsupported_codec,
}
use xq.Common.Bytes.{ld16le, ld32le, ld64le}
use xq.Common.Crc32c.{crc32c}
use xq.Common.Xxh64.{xxh64, xxh64_update, Xxh64State}
use xq.Format.Consts.{
  record_header_size, block_header_size, block_magic, bflag_stored, bflag_uses_dict,
}
use xq.Format.Block.{BlockHeader, block_parse}
use xq.Format.Checksum.{checksum_none, checksum_crc32c}
use xq.Codec.Exec.{Exec, ret, fail, fault, out_of_fuel, ◌>>=◌, ◌>>◌, fail_if, append_bytes, takes}
use xq.Codec.Table.{CodecVt, codec_get}
use xq.Decoder.Input.{Source, Input, run, need, consume, read_exact}
use xq.Decoder.State.{Decoder, codec_or}
use xq.Decoder.Records.{handle_record}

abbrev pub is_null : Option (List ℕ) → Bool
is_null none = true
is_null (some dict) = false

-- The checksum `ck` of the stored bytes is not the one that the algorithm gives.
unfoldable pub checksum_differs : ℕ → List ℕ → List ℕ → Bool
checksum_differs checksum_id ck stored =
    if checksum_id == checksum_crc32c
    then ld32le ck != crc32c stored
    else ld64le ck != xxh64 stored 0

-- The bytes of a block from its stored bytes: copied into the buffer, or decompressed with the context
-- and the dictionary that the codec `made_by` of the file header made.
unfoldable pub block_bytes :
    List CodecVt → ℕ → Option (List ℕ) → ℕ → BlockHeader → List ℕ → Exec (List ℕ)
block_bytes codecs made_by ddict raw_cap b stored =
    if bit_and (b.bflags) bflag_stored != 0
    then (do
      fail_if (b.stored_size != b.raw_size) err_corrupt_block
      append_bytes raw_cap [] stored)
    else (do
      c ← codec_or err_unsupported_codec (codec_get codecs (b.codec_id))
      fail_if ((bit_and (b.bflags) bflag_uses_dict != 0) && is_null ddict) err_corrupt_block
      c.decompress made_by raw_cap stored (b.raw_size)
          (if bit_and (b.bflags) bflag_uses_dict != 0 then ddict else none))

-- The update of the stream's checksum, where there is one.
unfoldable pub stream_update : ℕ → Xxh64State → List ℕ → Xxh64State
stream_update checksum_id ck raw = if checksum_id != checksum_none then xxh64_update ck raw else ck

-- The count of a call that failed later is lost.
unfoldable pub prepend : List ℕ → Result (List ℕ) → Result (List ℕ)
prepend front (ok bytes) = ok (front ++ bytes)
prepend front (err st) = err st

module _ {S : Type 0} (src : Source S) (codecs : List CodecVt) where
  -- `if (d->checksum_len)`, with its buffer `ck` of 8 bytes
  unfoldable pub check_block : Decoder S → Input S → List ℕ → Exec (Input S)
  check_block d input stored =
      if d.checksum_len != 0
      then (do
        takes 8 (d.checksum_len)
        (ck, input') ← read_exact src input (d.checksum_len)
        fail_if (checksum_differs ((d.hdr).checksum_id) ck stored) err_corrupt_block
        ret input')
      else ret input

  -- `next_block` from a block's magic on.
  unfoldable pub read_block : Decoder S → Exec (Decoder S)
  read_block d = do
    (bh, i1) ← need src (d.input) block_header_size
    b ← run (block_parse (some bh) block_header_size)
    let i2 = consume src i1 block_header_size
    fail_if (b.raw_offset != d.raw_offset) err_corrupt_block
    fail_if (ltb (d.raw_cap) (b.raw_size)) err_memlimit
    fail_if (ltb (d.cbuf_cap) (b.stored_size)) err_corrupt_block
    takes (d.cbuf_cap) (b.stored_size)
    (stored, i3) ← read_exact src i2 (b.stored_size)
    i4 ← check_block d i3 stored
    out ← block_bytes codecs ((d.codec).id) (d.ddict) (d.raw_cap) b stored
    fail_if (length out != b.raw_size) err_corrupt_block
    ret (record d {
      input = i4;
      stream_ck = stream_update ((d.hdr).checksum_id) (d.stream_ck) out;
      raw = out;
      raw_pos = 0;
      raw_offset = (d.raw_offset + length out) % 2 ^ 64;
    })

  -- A round of the loop of `next_block`, where `again` is the rest of the loop.
  unfoldable pub block_round : (Decoder S → Exec (Decoder S)) → Decoder S → Exec (Decoder S)
  block_round again d = do
    (p, i1) ← need src (d.input) 2
    elim (ld16le p == block_magic) [
      | true ↦ read_block (record d { input = i1 })
      | false ↦ do
        (rh, i2) ← need src i1 record_header_size
        d' ← handle_record src codecs (record d { input = i2 }) rh
        again d'
    ]

  -- `next_block`
  unfoldable pub next_block : ℕ → Decoder S → Exec (Decoder S)
  next_block zero d = out_of_fuel
  next_block (suc fuel) d = elim (d.saw_eob) [
    | true ↦ ret d
    | false ↦ block_round (next_block fuel) d
  ]

  -- A refill of `raw` where the block is used up, if more is wanted; `none` ends the loop.
  unfoldable pub ready_block : ℕ → Decoder S → Exec (Bool × Decoder S)
  ready_block fuel d = elim (d.raw_pos == length (d.raw)) [
    | false ↦ ret (true, d)
    | true ↦ elim (d.saw_eob) [
      | true ↦ ret (false, d)
      | false ↦ do d' ← next_block fuel d; ret (d'.raw_pos != length (d'.raw), d')
    ]
  ]

  -- The `while` of `xq_decoder_read`: what it returns, and the decoder after it. `rounds` is the fuel of
  -- each call of `next_block`.
  unfoldable pub copy_loop : ℕ → ℕ → Decoder S → ℕ → Exec (Result (List ℕ) × Decoder S)
  copy_loop fuel rounds d zero = ret (ok [], d)
  copy_loop zero rounds d (suc n) = out_of_fuel
  copy_loop (suc fuel) rounds d (suc n) = elim (ready_block rounds d) [
    | fail st ↦ ret (err st, record d { sticky = st })
    | fault ↦ fault
    | out_of_fuel ↦ out_of_fuel
    | ret r ↦ elim (r.0) [
      | false ↦ ret (ok [], r.1)
      | true ↦ do
        let d' : Decoder S = r.1
        let taken = min (suc n) (length (d'.raw) - d'.raw_pos)
        (later, d'') ←
            copy_loop fuel rounds (record d' { raw_pos = d'.raw_pos + taken }) (suc n - taken)
        ret (prepend (take taken (drop (d'.raw_pos) (d'.raw))) later, d'')
    ]
  ]

  -- `xq_decoder_read` behind its test of `sticky`
  unfoldable pub read_open : ℕ → Status → Decoder S → ℕ → Exec (Result (List ℕ) × Decoder S)
  read_open rounds xq_ok d len = copy_loop len rounds d len
  read_open rounds st d len = ret (err st, d)

  -- `xq_decoder_read`: the bytes that it writes to `buf`, or the status whose negative it returns.
  unfoldable pub decoder_read : ℕ → Decoder S → ℕ → Exec (Result (List ℕ) × Decoder S)
  decoder_read rounds d len = read_open rounds (d.sticky) d len
