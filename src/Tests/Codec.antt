-- ===== src/Tests/Codec.antt =====
-- The LZB codec on small inputs.
use xq.Base.{
  ap, All, true, ℕ, ◌+◌, ◌≤◌, ◌<◌, ◌≡◌, refl, List, [], ◌∷◌, ◌++◌, some, none, arith, length,
}
use xq.Common.Bytes.{IsByte, ld32le, ld64le}
use xq.Status.{err_oom}
use xq.Codec.Exec.{fail, fault, ret, Safe, read_bytes, append_bytes}
use xq.Codec.Varint.{put_varint, get_varint, get_loop, put_byte, put_loop}
use xq.Codec.Varint.RoundTrip.{varint, put_varint_exact, get_varint-varint}
use xq.Codec.Lzb.Decode.{
  decode_litlen, copy_literals, decode_mlen, copy_match, decode_copy, decode_match, decode_literals,
  decode_loop, lzb_decompress,
}
use xq.Codec.Lzb.Match.{
  Tables, Cdict, Best, cdict_new, hash4, read32, hlog_for, hlog_loop, depth_for, insert,
  insert_from, match_len, match_words, match_bytes, own_loop, with_dict, find_match,
}
use xq.Codec.Lzb.Encode.{
  encode_loop, emit_last, emit_seq, put_varint_if, put_literals, match_code, look_ahead, choose,
}
use xq.Codec.Lzb.Context.{
  Cctx, cctx_new, cctx_prepare, prepare_head, prepare_chain, compress_prepared, compress_with,
  lzb_compress,
}
use xq.Codec.Lzb.Context.Stale.{stale_chain_cap}
use xq.Codec.Lzb.Match.Search.{IsDict, dict_bytes, Repeats, find_match_sound}
use xq.Codec.Lzb.Match.Dict.{cdict_new-IsDict}
use xq.Codec.Lzb.Match.Chain.{chain_to_itself}
use xq.Codec.Lzb.RoundTrip.Whole.{lzb_decompress-lzb_compress}
use xq.Codec.Lzb.RoundTrip.Returns.{lzb_round_trip}
use xq.Codec.Lzb.Decode.Window.{Extends, decode_copy-Extends}
use xq.Codec.Lzb.Decode.Total.{lzb_decompress-Safe}

-- Two literals, then five bytes from the distance two.
abbrev short_block : List ℕ
short_block = 0x22 ∷ 7 ∷ 8 ∷ 2 ∷ []

decompress-short_block : lzb_decompress 16 [] short_block ≡ ret (7 ∷ 8 ∷ 7 ∷ 8 ∷ 7 ∷ 8 ∷ 7 ∷ [])
unfolding lzb_decompress decode_loop decode_literals decode_litlen copy_literals decode_match
    decode_mlen decode_copy copy_match get_varint get_loop read_bytes append_bytes
decompress-short_block = refl

-- A match that starts in the dictionary and goes on in the output.
decompress_across :
    lzb_decompress 16 (1 ∷ 2 ∷ 3 ∷ []) (0x12 ∷ 9 ∷ 3 ∷ []) ≡ ret (9 ∷ 2 ∷ 3 ∷ 9 ∷ 2 ∷ 3 ∷ [])
unfolding lzb_decompress decode_loop decode_literals decode_litlen copy_literals decode_match
    decode_mlen decode_copy copy_match get_varint get_loop read_bytes append_bytes
decompress_across = refl

abbrev one_byte : List ℕ
one_byte = 5 ∷ []

put_varint_exact_example :
    (length one_byte + length (varint 300) ≤ 2
      → put_varint 2 one_byte 300 ≡ some (one_byte ++ varint 300))
    × (2 < length one_byte + length (varint 300) → put_varint 2 one_byte 300 ≡ none)
put_varint_exact_example = put_varint_exact 2 one_byte 300

get_varint-varint_example : get_varint (varint 300 ++ (9 ∷ [])) ≡ some (300, 9 ∷ [])
get_varint-varint_example = get_varint-varint 300 (9 ∷ []) (omega arith)

get_300 : get_varint (0xac ∷ 2 ∷ 9 ∷ []) ≡ some (300, 9 ∷ [])
unfolding get_varint get_loop
get_300 = refl

decode_copy-Extends_example :
    Extends 16 (1 ∷ 2 ∷ 3 ∷ []) 5 3 (9 ∷ []) (decode_copy 16 (1 ∷ 2 ∷ 3 ∷ []) 3 5 (9 ∷ []))
decode_copy-Extends_example =
    decode_copy-Extends 16 (1 ∷ 2 ∷ 3 ∷ []) 5 3 (9 ∷ []) (omega arith) (omega arith) (omega arith)

lzb_decompress-Safe_example : Safe (lzb_decompress 4 [] (0x22 ∷ 7 ∷ 8 ∷ 2 ∷ [])) (λ o. length o ≤ 4)
lzb_decompress-Safe_example = lzb_decompress-Safe 4 [] (0x22 ∷ 7 ∷ 8 ∷ 2 ∷ [])

-- Compression of a repetitive source, by a new context.
abbrev source_bytes : List ℕ
source_bytes = 1 ∷ 2 ∷ 3 ∷ 4 ∷ 5 ∷ 1 ∷ 2 ∷ 3 ∷ 4 ∷ 5 ∷ 1 ∷ 2 ∷ 3 ∷ 4 ∷ 5 ∷ 1 ∷ 2 ∷ 3 ∷ 4 ∷ 9 ∷ []

abbrev zeros : ℕ → ℕ
zeros i = 0

compress-source_bytes :
    (lzb_compress (some zeros) (some zeros) cctx_new 64 none 6 source_bytes).0
    ≡ ret (0x5b ∷ 1 ∷ 2 ∷ 3 ∷ 4 ∷ 5 ∷ 5 ∷ 0x10 ∷ 9 ∷ [])
unfolding lzb_compress cctx_prepare prepare_head prepare_chain compress_prepared compress_with
    encode_loop emit_last emit_seq put_varint_if put_literals match_code put_byte put_varint
    put_loop find_match own_loop with_dict match_len match_words match_bytes look_ahead choose
    insert insert_from hash4 read32 hlog_for hlog_loop depth_for ld32le ld64le
compress-source_bytes = refl

source_bytes-IsByte : All IsByte source_bytes
source_bytes-IsByte = omega arith

lzb_round_trip_example :
    (written : List ℕ) × ((lzb_compress
        (some zeros)
        (some zeros)
        cctx_new
        256
        none
        6
        source_bytes).0
      ≡ ret written)
    × (lzb_decompress 20 [] written ≡ ret source_bytes)
lzb_round_trip_example =
    lzb_round_trip zeros zeros cctx_new 256 none 6 source_bytes 20 source_bytes-IsByte tt
      (omega arith) (omega arith) (λ e. refl) (omega arith)

lzb_decompress-lzb_compress_example :
    lzb_decompress 20 [] (0x5b ∷ 1 ∷ 2 ∷ 3 ∷ 4 ∷ 5 ∷ 5 ∷ 0x10 ∷ 9 ∷ []) ≡ ret source_bytes
lzb_decompress-lzb_compress_example =
    lzb_decompress-lzb_compress (some zeros) (some zeros) cctx_new 64 none 6 source_bytes
      (0x5b ∷ 1 ∷ 2 ∷ 3 ∷ 4 ∷ 5 ∷ 5 ∷ 0x10 ∷ 9 ∷ []) 20 source_bytes-IsByte tt (omega arith)
      (omega arith) compress-source_bytes

-- The tables after the first five bytes are inserted find the repetition at the sixth.
abbrev five_in : Tables
five_in = insert_from 5 source_bytes 0 (record { head = zeros; chain = zeros; hlog = 12 })

abbrev five_back : Best
five_back = record { mlen = 14; dist = 5 }

find-five_back : find_match five_in none 16 source_bytes 5 ≡ some five_back
unfolding find_match own_loop with_dict match_len match_words match_bytes insert_from insert hash4
    read32 ld32le ld64le
find-five_back = refl

find_match_sound_example :
    (4 ≤ 14) × (5 + 14 ≤ length source_bytes) × Repeats [] source_bytes 5 14 5
find_match_sound_example =
    find_match_sound five_in none 16 source_bytes 5 five_back source_bytes-IsByte tt (omega arith)
      (omega arith) find-five_back

abbrev dictionary : Cdict
dictionary = record {
  data_bytes = source_bytes;
  tables = insert_from 20 source_bytes 0 (record { head = zeros; chain = zeros; hlog = 12 });
}

cdict-dictionary : cdict_new true (some zeros) (some zeros) (some source_bytes) ≡ some dictionary
unfolding cdict_new hlog_for hlog_loop
cdict-dictionary = refl

cdict_new-IsDict_example : (dict_bytes (some dictionary) ≡ source_bytes) × IsDict (some dictionary)
cdict_new-IsDict_example =
    cdict_new-IsDict true (some zeros) (some zeros) source_bytes dictionary source_bytes-IsByte
      cdict-dictionary

-- A context for five bytes, then six, then five again.
abbrev five_bytes : Cctx
five_bytes = record { head = some zeros; chain = some zeros; chain_cap = 5; hlog = 12 }

stale_chain_cap_example :
    let first = lzb_compress (some zeros) none five_bytes 64 none 6 (1 ∷ 2 ∷ 3 ∷ 4 ∷ 5 ∷ 6 ∷ []) in
    (first.0 ≡ fail err_oom)
    × ((lzb_compress (some zeros) (some zeros) first.1 64 none 6 (1 ∷ 2 ∷ 3 ∷ 4 ∷ 5 ∷ [])).0
        ≡ fault)
stale_chain_cap_example =
    stale_chain_cap zeros zeros (some zeros) five_bytes 64 none 6 1 (2 ∷ 3 ∷ 4 ∷ 5 ∷ 6 ∷ []) 1
      (2 ∷ 3 ∷ 4 ∷ 5 ∷ []) (omega arith) (omega arith) (omega arith)

kept_at_five :
    look_ahead five_in none 16 source_bytes 5 five_back
    ≡ record { start = 5; best = five_back; tables = insert source_bytes five_in 5 }
unfolding look_ahead choose find_match own_loop with_dict match_len match_words match_bytes
    insert_from insert hash4 read32 ld32le ld64le
kept_at_five = refl

chain_to_itself_example :
    (insert_from
        ((look_ahead five_in none 16 source_bytes 5 five_back).best).mlen
        source_bytes
        ((look_ahead five_in none 16 source_bytes 5 five_back).start)
        (look_ahead five_in none 16 source_bytes 5 five_back).tables).chain
      5
    ≡ 6
chain_to_itself_example =
    chain_to_itself five_in none 16 source_bytes 5 five_back (omega arith) (omega arith)
      (ap (λ k. k.start) kept_at_five) (omega (arith, ap (λ k. (k.best).mlen) kept_at_five))
