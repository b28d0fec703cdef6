-- ===== src/Decoder/Safety/Create.antt =====
-- The decoder that `xq_decoder_create` of src/core/xq_decoder.c makes is one that the reads can start from.
use xq.Base.{ℕ, zero, suc, ◌-◌, ◌≤◌, ◌≡◌, List, Option, none, some, ltb, ◌!=◌, ◌&&◌, length, arith}
use xq.Status.{ok, err_unsupported_codec}
use xq.Params.{Params, params_default}
use xq.Format.Consts.{file_header_size, block_size_max}
use xq.Format.Checksum.{checksum_size-lt}
use xq.Format.Header.{FileHeader, header_parse, header_check}
use xq.Codec.Exec.{returns, Ends, Ends-bind, Ends-fail_if}
use xq.Codec.Table.{CodecVt, codec_get}
use xq.Decoder.Input.{Source, Input, rbuf_size, consume}
use xq.Decoder.Input.Stream.{Delivers}
use xq.Decoder.Input.Safety.{Within, need-Ends, consume-Within}
use xq.Decoder.State.{announced_size, skip_extra, read_file_header, decoder_create}
use xq.Decoder.Safety.{Handles, Left, found-Ends, run-Ends}

-- A header that is accepted is at most 4096 bytes long.
header_size-le :
    (bytes : List ℕ) (hdr : FileHeader)
    → header_parse (some bytes) file_header_size ≡ ok hdr
    → hdr.header_size ≤ 4096
unfolding header_parse header_check
header_size-le bytes hdr parsed = ground arith

module _ {S : Type 0} (src : Source S) (rest : S → List ℕ) (h : Delivers src rest)
    (codecs : List CodecVt) where
  skip_extra-Ends :
      (d : Input S) (extra m : ℕ)
      → extra ≤ rbuf_size
      → Within src rest h m d
      → Ends (Within src rest h m) (skip_extra src codecs d extra)
  unfolding skip_extra
  skip_extra-Ends d zero m small w = returns w
  skip_extra-Ends d (suc extra) m small w =
      Ends-bind (need-Ends src rest h d (suc extra) m small w) (λ (skipped, d') (w', there).
        let (k, few) = consume-Within src rest h d' (suc extra) m w' there in
        returns (k, omega (arith, few)))

  read_file_header-Ends :
      (memory : List ℕ) (p : Params) (d : Input S) (m : ℕ)
      → ((k : ℕ) (c : CodecVt) → codec_get codecs k ≡ some c → Handles codecs c)
      → Within src rest h m d
      → Ends (Left src rest h codecs m) (read_file_header src codecs memory p d)
  unfolding read_file_header
  read_file_header-Ends memory p d m contract w =
      Ends-bind (need-Ends src rest h d file_header_size m (omega arith) w)
        (λ (bytes, d1) (w1, there).
          Ends-bind (run-Ends (header_parse (some bytes) file_header_size)) (λ hdr parsed.
            Ends-bind
              (skip_extra-Ends (consume src d1 file_header_size)
                (hdr.header_size - file_header_size) m
                (omega (arith, header_size-le bytes hdr parsed)) (further d1 w1 there))
              (λ d3 w3.
                Ends-bind (found-Ends err_unsupported_codec codecs (hdr.codec_id)) (λ c found.
                  Ends-fail_if ((p.mem_limit != 0) && ltb (p.mem_limit) (announced_size hdr)) _
                    (λ q1. Ends-fail_if (ltb block_size_max (announced_size hdr)) _ (λ q2. returns (
                      w3,
                      (
                        omega arith,
                        omega arith,
                        omega (arith, checksum_size-lt (hdr.checksum_id)),
                        contract (hdr.codec_id) c found,
                      ),
                    )))))))
    where
      further :
          (d1 : Input S)
          → Within src rest h m d1
          → file_header_size ≤ length (d1.rbuf) - d1.rpos
          → Within src rest h m (consume src d1 file_header_size)
      further d1 w1 there =
          let (k, few) = consume-Within src rest h d1 file_header_size m w1 there in
          (k, omega (arith, few))

  -- From a source that keeps its promise, with `m` bytes at most, and where the codecs of the table keep
  -- their contract whichever of them the file header names, `xq_decoder_create` fails or makes a decoder
  -- that `xq_decoder_read` can start from.
  pub decoder_create-Ends :
      (memory : List ℕ) (p : Option Params) (s : S) (m : ℕ)
      → ((k : ℕ) (c : CodecVt) → codec_get codecs k ≡ some c → Handles codecs c)
      → length (rest s) ≤ m
      → Ends (Left src rest h codecs m) (decoder_create src codecs memory p s)
  unfolding decoder_create
  decoder_create-Ends memory none s m contract few =
      read_file_header-Ends memory params_default _ m contract
        (record { inside = omega arith; fits = omega arith; ended = λ e. cc }, few)
  decoder_create-Ends memory (some p) s m contract few =
      read_file_header-Ends memory p _ m contract
        (record { inside = omega arith; fits = omega arith; ended = λ e. cc }, few)
