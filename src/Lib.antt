-- ===== src/Lib.antt =====
-- xq is a C library for files of independently compressed blocks. It has a container format (a file
-- header, metadata records, blocks with headers of their own, an index of the blocks and a footer),
-- codecs for the blocks, and an encoder, a decoder, a random-access reader and a repair over them.
-- This library models the container's structures, the checksums and the arithmetic they rest on, the
-- parameters, two codecs, and the encoder and the decoder over them.
--
-- Files:
--   Base: library names passed on, and what the components share: Boolean tests (Base/Tests), lists
--   over the native numbers (Base/Lists), the bitwise operations (Base/Bits, Base/Xor).
--   Common: src/common. Checked is xq_checked.h (xq_add_u64_ok and its kin), Bytes is xq_bits.h (loads
--   and stores of little-endian numbers), Crc32c is xq_crc32c.c with its table in Crc32c/Table, Xxh64
--   is xq_xxh64.c, of a whole buffer and as a state that takes pieces.
--   Status: the status codes of include/xq.h and xq_status_is_corruption.
--   Params: include/xq.h and src/common/xq_common.c, xq_params_default and xq_params_check.
--   Format: src/format/xq_format.c, one module a structure: Header (xq_fmt_header_store and _parse),
--   Record, Block, Index (preamble, entries, search, validation), Footer, Checksum (the sizes of the
--   checksums). Consts has the constants of xq_format.h, Chunks the lemmas that put loaded fields back
--   together.
--   Codec: src/codec. Exec is what a run of a codec does, Varint the numbers in groups of seven bits,
--   Stored is xq_codec_stored.c. Lzb is xq_codec_lzb.c: Decode is xq_lzb_decompress, Match the hash
--   chains and find_match, Encode is emit_seq and the loop of xq_lzb_compress, Context is
--   cctx_prepare and the whole of xq_lzb_compress, Sequence the bytes of one sequence. Table is the
--   interface xq_codec_vt of xq_codec.h and the lookup of xq_codec.c.
--   Dict: src/core/xq_dict.c, the size and the payload of a dictionary.
--   Decoder: src/core/xq_decoder.c. Input is rbuf_fill, need, read_exact and the skip of a record over
--   a source xq_src_fn, State the decoder and read_file_header, Records handle_record and
--   read_dict_record, Blocks next_block and xq_decoder_read. Input/Stream, Safety and RoundTrip are proofs.
--   Encoder: src/core/xq_encoder.c on one thread, over a sink xq_sink_fn. State is the encoder, emit and
--   idx_push, Jobs a block from compress_job and emit_job to xq_encoder_write, with the proofs Kept, Pieces and
--   Written, Records the dictionary
--   record and xq_encoder_finish, Create xq_encoder_create, Threads the number of threads it starts.
--   Api: src/core/xq_api.c, the sink and the source in memory and xq_compress_bound.
--   Tests: runs on small inputs, and every theorem below at one.
--
-- Correspondence: a pointer with a length is the list of the bytes that it spans, a pointer that may
-- be null is an option, and a structure is a record with the names of its fields. A store returns the
-- bytes that it writes. What goes through an output parameter is returned: in a `Result` with the
-- status of a failure, in an option where the code returns a truth value, in an `Exec` where a read or
-- a write outside its buffer has to be told from a failure. A part of a loop body is a function of
-- its own where the loop has several. A number is an ℕ, the wrap of an unsigned sum or product is
-- written out where the code does not exclude it, and a subtraction is the code's where its guards
-- keep it from wrapping. Tables of a hash chain are functions from the index; the content that
-- `malloc` gives is a parameter, none where it fails. In src/core the source, the sink and the table of
-- codecs are parameters, and every allocation succeeds. A write into the decoder's buffers is tested
-- against their size and faults beyond it; what a codec writes is its own, and its contract says how
-- much that is. A codec's decompression is told which codec made the context and the dictionary object
-- that it is given, since the decoder has only those of the file header's codec. The calls of the encoder return a status and
-- the encoder after it; those of the decoder return the decoder after a success, and where one fails
-- xq_decoder_read goes on with the decoder before the failing step and the sticky status: what the
-- failed step has changed is read by no later call.
--
-- Fuel: the search of the index has a round for each entry of the range and ends with none left; the
-- decoder of LZB has one for each source byte, and running out is an outcome that is shown not to
-- happen; the encoder has one for each source byte and goes to its end with none left, where the
-- position has reached the end of the source; a varint of 64 bits takes nine rounds; the comparison
-- of bytes has a round for each byte. The loops of src/core over bytes have one round for each, those of
-- need two more for the last call of the source; next_block has as many rounds as its caller gives,
-- and one more than the bytes left in the source is shown to be enough.
--
-- Not modelled: the branches of the checksum on processor instructions, message texts, functions that
-- only free memory, failing allocations in src/core, the Huffman coder and the LZE codec, the zstd
-- codec (calls of an external library), dictionaries built from files, the threads of the encoder, the
-- reader and the repair of src/core, the one-shot calls, the platform layer (system calls) and the
-- command line tool.
pub mod Api
pub mod Base
pub mod Codec
pub mod Common
pub mod Decoder
pub mod Dict
pub mod Encoder
pub mod Format
pub mod Params
pub mod Status
pub mod Tests
