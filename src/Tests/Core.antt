-- ===== src/Tests/Core.antt =====
-- The encoder, the decoder and the calls around them in src/core on small inputs.
use xq.Base.{
  ℕ, ◌+◌, ◌*◌, ◌/◌, ◌≤◌, ◌<◌, ◌≡◌, ◌≢◌, ◌-◌, ◌⊎◌, refl, List, [], ◌∷◌, ◌++◌, none, some, Bool, leb,
  ◌==◌, if◌then◌else◌, true, false, length, take, drop, arith,
}
use xq.Status.{ok, xq_ok, err_truncated, err_dst_too_small}
use xq.Params.{Params, pos, params_default, dict_size_max, block_size_default}
use xq.Common.Checked.{add_u64_ok, mul_u64_ok}
use xq.Common.Xxh64.{xxh64, xxh64_init, xxh64_final}
use xq.Common.Xxh64.Stream.{updates, joined, xxh64_final-updates}
use xq.Format.Header.{FileHeader}
use xq.Format.Checksum.{checksum_size}
use xq.Format.Index.{IndexEntry, index_payload_size}
use xq.Format.Index.Payload.{index_entries_store}
use xq.Format.Record.{record_verify}
use xq.Format.Record.RoundTrip.{record_for}
use xq.Codec.Exec.{ret, fail, ◌>>=◌, Ends, returns, fails}
use xq.Codec.Table.{CodecVt, codec_get}
use xq.Dict.{Dict, dict_size_for, dict_payload_store, dict_payload_parse, dict_payload_size}
use xq.Dict.RoundTrip.{
  IsValidDict, info_of, dict_payload_parse-dict_payload_store, dict_size_for-bounds,
}
use xq.Decoder.Input.{Input, need, read_exact}
use xq.Decoder.Input.Stream.{IsReady, ahead, need-ahead, read_exact-ahead}
use xq.Decoder.State.{Decoder}
use xq.Decoder.Records.{rec_dict, rec_index, rflag_critical}
use xq.Decoder.Blocks.{next_block, decoder_read}
use mathlib.Core.Path.{subst}
use xq.Decoder.Safety.{Handles, Left, next_block-Ends}
use xq.Decoder.Safety.Read.{Given, decoder_read-Ends}
use xq.Encoder.State.{Encoder}
use xq.Encoder.Jobs.{encoder_write, while_ok}
use xq.Encoder.Jobs.Pieces.{encoder_write-append}
use xq.Encoder.Records.{dict_record_header, index_record_header}
use xq.Encoder.Records.Headers.{dict_record_header_whole, index_record_header_whole}
use xq.Encoder.Threads.{wanted_threads, thread_count, slot_count, thread_count-over_limit}
use xq.Api.Memory.{MemSink, MemSrc, mem_sink_write, mem_src_read, mem_src_read-Delivers}
use xq.Api.Bound.{block_count_for, bound_for, add_dict, bound_for-covers}

abbrev pub eight : List ℕ
eight = 1 ∷ 2 ∷ 3 ∷ 4 ∷ 5 ∷ 6 ∷ 7 ∷ 8 ∷ []

abbrev blank : List ℕ
blank = eight ++ (eight ++ (eight ++ eight))

abbrev pieces : List (List ℕ)
pieces = eight ∷ blank ∷ [] ∷ eight ∷ []

xxh64_final-updates_example :
    xxh64_final (updates (xxh64_init blank 7) pieces) ≡ xxh64 (joined pieces) 7
unfolding joined
xxh64_final-updates_example = xxh64_final-updates blank 7 pieces refl (omega arith)

abbrev prefix : Dict
prefix = record { bytes = eight; id = 1; kind = 1 }

prefix-IsValidDict : IsValidDict prefix
prefix-IsValidDict = record {
  id_positive = omega arith;
  id_fits = omega arith;
  kind_known = omega arith;
  not_empty = omega arith;
  size_bounded = omega arith;
}

dict_payload_parse-dict_payload_store_example :
    dict_payload_parse (some (dict_payload_store prefix 0 8 ++ eight)) (dict_payload_size 8)
    ≡ ok (info_of prefix 0 8)
dict_payload_parse-dict_payload_store_example =
    dict_payload_parse-dict_payload_store prefix 0 8 eight prefix-IsValidDict (omega arith)
      (omega arith) (omega arith)

dict_size_for-bounds_example :
    (dict_size_for 1_000_000 200_000 ≡ 0)
    ⊎ ((0x1_0000 ≤ dict_size_for 1_000_000 200_000)
        × (dict_size_for 1_000_000 200_000 ≤ 200_000)
        × (dict_size_for 1_000_000 200_000 ≤ dict_size_max)
        × (dict_size_for 1_000_000 200_000 ≤ 1_000_000 / 4))
dict_size_for-bounds_example = dict_size_for-bounds 1_000_000 200_000

abbrev pub left_in : MemSrc → List ℕ
left_in m = drop (m.pos) (m.src)

-- One byte is in the buffer, and seven are left in the source.
abbrev half_read : Input MemSrc
half_read = record {
  src_ctx = record { src = eight; pos = 1 };
  rbuf = 0 ∷ 1 ∷ [];
  rpos = 1;
  src_eof = false;
}

half_read-IsReady : IsReady mem_src_read left_in mem_src_read-Delivers half_read
half_read-IsReady = record { inside = omega arith; fits = omega arith; ended = λ e. cc }

need-ahead_example :
    ((p : List ℕ) × (d' : Input MemSrc) × (need mem_src_read half_read 3 ≡ ret (p, d'))
      × IsReady mem_src_read left_in mem_src_read-Delivers d'
      × (ahead mem_src_read left_in mem_src_read-Delivers d' ≡ eight)
      × (take 3 p ≡ 1 ∷ 2 ∷ 3 ∷ [])
      × (3 ≤ length (d'.rbuf) - d'.rpos))
    ⊎ ((need mem_src_read half_read 3 ≡ fail err_truncated) × (8 < 3))
need-ahead_example =
    need-ahead mem_src_read left_in mem_src_read-Delivers half_read 3 half_read-IsReady
      (omega arith)

read_exact-ahead_example :
    ((d' : Input MemSrc) × (read_exact mem_src_read half_read 3 ≡ ret (1 ∷ 2 ∷ 3 ∷ [], d'))
      × IsReady mem_src_read left_in mem_src_read-Delivers d'
      × (ahead mem_src_read left_in mem_src_read-Delivers d' ≡ 4 ∷ 5 ∷ 6 ∷ 7 ∷ 8 ∷ [])
      × (3 ≤ 8))
    ⊎ ((read_exact mem_src_read half_read 3 ≡ fail err_truncated) × (8 < 3))
read_exact-ahead_example =
    read_exact-ahead mem_src_read left_in mem_src_read-Delivers half_read 3 half_read-IsReady

-- A codec that stores.
abbrev pub copying : CodecVt
copying = record {
  id = 0;
  bound = λ n. n;
  has_cctx_new = false;
  has_cdict_new = false;
  has_ddict_new = false;
  cdict_new = λ bytes level bs. none;
  ddict_new = λ bytes. none;
  compress = λ dst_cap src level d. ok src;
  decompress = λ made_by room src expected d.
      if leb (length src) room then ret src else fail err_dst_too_small;
}

abbrev pub plain_header : FileHeader
plain_header = record {
  format_major = 1;
  format_minor = 0;
  header_size = 32;
  flags = 5;
  codec_id = 0;
  level = 6;
  checksum_id = 0;
  block_size_log = 12;
  raw_size = 8;
}

abbrev pub opened : Decoder MemSrc
opened = record {
  input = half_read;
  p = params_default;
  hdr = plain_header;
  codec = copying;
  ddict = none;
  checksum_len = 0;
  raw = eight;
  raw_cap = 4096;
  raw_pos = 5;
  cbuf_cap = 4096;
  raw_offset = 8;
  stream_ck = xxh64_init blank 0;
  saw_eob = false;
  sticky = xq_ok;
}

copying-Handles : Handles (copying ∷ []) copying
unfolding codec_get
copying-Handles = record {
  inside = λ k c found room packed expected dict.
      subst (λ v. Ends (λ out. length out ≤ room) (v.decompress 0 room packed expected dict))
        (is_copying k c (0 == k) found) (copied packed room (leb (length packed) room) refl);
}
  where
    is_copying :
        (k : ℕ) (c : CodecVt) (b : Bool)
        → elim b [ true ↦ some copying | false ↦ none ] ≡ some c
        → copying ≡ c
    is_copying k c true e = cc
    is_copying k c false e = cc

    copied :
        (packed : List ℕ) (room : ℕ) (b : Bool)
        → leb (length packed) room ≡ b
        → Ends (λ out. length out ≤ room) (if b then ret packed else fail err_dst_too_small)
    copied packed room true fits = returns (ground arith)
    copied packed room false long = fails

opened-Left : Left mem_src_read left_in mem_src_read-Delivers (copying ∷ []) 8 opened
opened-Left =
    ((half_read-IsReady, omega arith), (omega arith, omega arith, omega arith, copying-Handles))

next_block-Ends_example :
    Ends
      (Left mem_src_read left_in mem_src_read-Delivers (copying ∷ []) 8)
      (next_block mem_src_read (copying ∷ []) 9 opened)
next_block-Ends_example =
    next_block-Ends mem_src_read left_in mem_src_read-Delivers (copying ∷ []) 9 opened 8 opened-Left
      (omega arith)

decoder_read-Ends_example :
    Ends
      (Given mem_src_read left_in mem_src_read-Delivers (copying ∷ []) 8 4)
      (decoder_read mem_src_read (copying ∷ []) 9 opened 4)
decoder_read-Ends_example =
    decoder_read-Ends mem_src_read left_in mem_src_read-Delivers (copying ∷ []) 9 opened 8 4
      opened-Left (omega arith)

abbrev pub writing : Encoder MemSink
writing = record {
  sink_ctx = record { dst = []; dst_cap = 1000 };
  p = params_default;
  codec = copying;
  dict = none;
  cdict = none;
  block_size = 4;
  block_size_log = 2;
  checksum_len = 0;
  raw = 9 ∷ [];
  cbuf_cap = 4;
  raw_offset = 0;
  file_offset = 32;
  idx = [];
  idx_cap = 0;
  stream_ck = xxh64_init blank 0;
  header_written = true;
  finished = false;
  sticky = xq_ok;
}

encoder_write-append_example : encoder_write mem_sink_write writing (eight ++ eight) ≡ (
    encoder_write mem_sink_write writing eight >>= λ o.
    while_ok o (λ e'. encoder_write mem_sink_write e' eight))
encoder_write-append_example =
    encoder_write-append mem_sink_write writing eight eight (refl, omega arith) refl

abbrev two_entries : List IndexEntry
two_entries =
    record { file_offset = 32; raw_offset = 0 } ∷ record { file_offset = 64; raw_offset = 8 } ∷ []

abbrev preamble : List ℕ
preamble = eight ++ (eight ++ eight)

index_record_header_whole_example :
    (index_record_header (index_payload_size 1) preamble two_entries
      ≡ record_for rec_index 0 (preamble ++ index_entries_store two_entries))
    × (record_verify
          (some (index_record_header (index_payload_size 1) preamble two_entries))
          (some (preamble ++ index_entries_store two_entries))
          (index_payload_size 1)
        ≡ xq_ok)
index_record_header_whole_example =
    index_record_header_whole 1 preamble two_entries refl refl (omega arith)

dict_record_header_whole_example :
    dict_record_header (take 30 blank) eight
    ≡ record_for rec_dict rflag_critical (take 30 blank ++ eight)
dict_record_header_whole_example = dict_record_header_whole (take 30 blank) eight refl

-- Eight threads, of two slots of 20 bytes each, under a limit of 100 bytes.
abbrev limited : Params
limited = record params_default { threads = pos 8; mem_limit = 100 }

thread_count-over_limit_example : 100 < slot_count true (thread_count true 4 limited 10 10) * 20
thread_count-over_limit_example =
    thread_count-over_limit limited 4 10 10 (omega arith) (omega arith) in_31_bits over_100
  where
    in_31_bits : wanted_threads (pos 8) 4 * 2 * 20 < 0x8000_0000
    in_31_bits = unfold wanted_threads in omega arith

    over_100 : 100 < wanted_threads (pos 8) 4 * 2 * 20
    over_100 = unfold wanted_threads in omega arith

bound-positive : bound_for [] params_default 100_000 ≢ 0
unfolding bound_for block_count_for checksum_size index_payload_size add_u64_ok mul_u64_ok add_dict
    dict_size_for
bound-positive = λ e. absurd (omega (arith, e))

bound_for-covers_example :
    32 + 2 * (24 + checksum_size 1) + 100_000 + 14 + (14 + 24 + 16 * (2 + 1)) + 32
    ≤ bound_for [] params_default 100_000
bound_for-covers_example =
    bound_for-covers [] params_default 100_000 block_size_default 2 refl (omega arith) (omega arith)
      bound-positive
