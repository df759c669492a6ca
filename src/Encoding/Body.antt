-- ===== src/Encoding/Body.antt =====
-- The framed bodies of internal/filexfer/encoding/body_frame.go: their writer and their reader. The
-- xxh3 hashes and the zstd codec are parameters, and so is the clock, by the offset of the frame that
-- reads it. Offsets count the bytes of one body. A writer's or a reader's state after an error is not
-- kept, and callbacks and the copy of the raw frames are left out.
pub mod Hashes
pub mod Lines
pub mod Reader
pub mod Safety
pub mod Streams
pub mod Writer
pub mod RoundTrip
use tx.Base.{
  ℕ, zero, suc, ◌+◌, ◌-◌, ◌^◌, Bool, true, false, ◌&&◌, ◌||◌, not, Option, none, some, List, [],
  ◌∷◌, ◌++◌, Result, ok, err, ◌>>=◌, ◌>>◌, guard, or_err, if◌then◌else◌, ◌==◌, leb, ltb, length,
  take, drop, map,
}
use tx.Base.Int.{ℤ, pos, sub_ℕ, pos_part, leb_ℤ}
use tx.Base.Bytes.{Bytes, codes, is_empty, cut, starts_with, bytes_eq, between}
use tx.Encoding.Hash.{format_xxh64_hash_token, format_xxh128_hash_token}
use tx.Encoding.Frame.{WriteArgs, write_frame, line_feed}
use tx.Encoding.Frame.Parse.{
  FrameError, FileFrameMeta, FrameTrailer, parse_fx_header, parse_fx_trailer,
}
use tx.Bufpool.{PoolError, new_growing, read_from}
use tx.Ftcp.Items.{trim_line_terminator}

pub data BodyError : Type 0 where
  closed_writer unsupported_comp codec_failed : BodyError
  line_too_large unexpected_eof server_error unexpected_status : BodyError
  bad_frame : FrameError → BodyError
  unexpected_file_id missing_header_hash offset_mismatch wire_too_large : BodyError
  logical_too_large body_too_large wsize_mismatch header_hash_mismatch : BodyError
  missing_trailer_hash trailer_hash_mismatch missing_next : BodyError
  buffer_error missing_file_hash file_hash_mismatch next_mismatch stray_file_hash : BodyError

-- The libraries that the encoding calls: the two xxh3 hashes, and zstd; and the frame ceiling, which
-- follows a limit of the system's sockets.
pub record Codecs : Type 0 where
  pub sum64 : Bytes → ℕ
  pub sum128 : Bytes → Bytes
  pub compress : Bytes → Option Bytes
  pub decompress : Bytes → Option Bytes
  pub frame_ceiling : ℕ

abbrev pub zstd_name : Bytes
zstd_name = codes "zstd"

abbrev pub none_name : Bytes
none_name = codes "none"

pub record FramedBodyWriter : Type 0 where
  pub comp : Bytes
  pub chunk_size : ℕ
  pub offset : ℕ
  pub buf : Bytes
  pub hashed : Bytes
  pub out : Bytes
  pub closed : Bool

pub encode_wire : Codecs → Bytes → Bytes → Result BodyError Bytes
encode_wire k comp chunk =
    if bytes_eq comp zstd_name
    then or_err (k.compress chunk) codec_failed
    else (if bytes_eq comp none_name then ok chunk else err unsupported_comp)

-- What flushChunk hands to WriteFrame.
pub chunk_args : Codecs → Bytes → ℕ → Bytes → Bytes → Bool → Bytes → ℕ → WriteArgs
chunk_args k comp offset hashed chunk terminal wire now = record {
  file_id = 0;
  offset = pos offset;
  size = pos (length chunk);
  wsize = pos (length wire);
  comp = comp;
  header_hash = format_xxh128_hash_token (k.sum128 chunk);
  max_wsize_hint = none;
  header_ts = pos now;
  payload = wire;
  trailer_ts = pos now;
  file_hashes = if terminal then format_xxh128_hash_token (k.sum128 (hashed ++ chunk)) ∷ [] else [];
  next = if terminal then pos 0 else pos (offset + length chunk);
  metadata = none;
}

pub flush_chunk : Codecs → (ℕ → ℕ) → FramedBodyWriter → ℕ → Bool → Result BodyError FramedBodyWriter
flush_chunk k clock w n terminal =
    let chunk = take n w.buf in
    encode_wire k w.comp chunk >>= λ wire. ok (record w {
      offset = w.offset + length chunk;
      buf = drop n w.buf;
      hashed = w.hashed ++ chunk;
      out =
          w.out
          ++ write_frame k.sum64
              (chunk_args k w.comp w.offset w.hashed chunk terminal wire (clock w.offset));
    })

-- The loop of Write: each round takes a chunk at least.
pub flush_full : Codecs → (ℕ → ℕ) → ℕ → FramedBodyWriter → Result BodyError FramedBodyWriter
flush_full k clock zero w = ok w
flush_full k clock (suc fuel) w = elim (leb w.chunk_size (length w.buf)) [
  | false ↦ ok w
  | true ↦ flush_chunk k clock w w.chunk_size false >>= λ v. flush_full k clock fuel v
]

-- A write to a writer that is not closed; `due` is whether a flush interval is set and has passed.
pub write_buffered :
    Codecs → (ℕ → ℕ) → Bool → FramedBodyWriter → Bytes → Result BodyError FramedBodyWriter
write_buffered k clock due w p =
    flush_full k clock (length (w.buf ++ p)) (record w { buf = w.buf ++ p }) >>= λ v.
    (if due && ltb 0 (length v.buf) then flush_chunk k clock v (length v.buf) false else ok v)

pub write : Codecs → (ℕ → ℕ) → Bool → FramedBodyWriter → Bytes → Result BodyError FramedBodyWriter
write k clock due w p = guard (not w.closed) closed_writer >> write_buffered k clock due w p

pub close : Codecs → (ℕ → ℕ) → FramedBodyWriter → Result BodyError FramedBodyWriter
close k clock w =
    if w.closed then ok w else flush_chunk k clock (record w { closed = true }) (length w.buf) true

-- NewFramedBodyWriter, given a chunk size and a codec.
abbrev pub new_writer : Bytes → ℕ → FramedBodyWriter
new_writer comp chunk_size = record {
  comp = if is_empty comp then none_name else comp;
  chunk_size = if chunk_size == 0 then 4194304 else chunk_size;
  offset = 0;
  buf = [];
  hashed = [];
  out = [];
  closed = false;
}

pub record FramedBodyReaderOpts : Type 0 where
  pub max_wire_size : ℕ
  pub max_frame_logical_bytes : ℕ
  pub max_logical_bytes : ℕ

pub record FramedBodyReader : Type 0 where
  pub input : Bytes
  pub hashed : Bytes
  pub buf : Bytes
  pub offset : ℕ
  pub frame_idx : ℕ
  pub done : Bool
  pub file_hash_token : Bytes

-- The options that NewFramedBodyReader keeps: a limit of zero or less, here 0, is the frame ceiling.
abbrev pub with_defaults : Codecs → FramedBodyReaderOpts → FramedBodyReaderOpts
with_defaults k opts = record opts {
  max_wire_size = if opts.max_wire_size == 0 then k.frame_ceiling else opts.max_wire_size;
  max_frame_logical_bytes =
      if opts.max_frame_logical_bytes == 0 then k.frame_ceiling else opts.max_frame_logical_bytes;
}

-- NewFramedBodyReader: the reader's own state; its options, with their defaults, are an argument of each call.
abbrev pub new_reader : Bytes → FramedBodyReader
new_reader input = record {
  input = input;
  hashed = [];
  buf = [];
  offset = 0;
  frame_idx = 0;
  done = false;
  file_hash_token = [];
}

abbrev pub max_frame_line_bytes : ℕ
max_frame_line_bytes = 4194304

pub line_of : Bytes → Option (Bytes × Bytes) → Result BodyError (Bytes × Bytes)
line_of s none =
    if ltb max_frame_line_bytes (length s) then err line_too_large else err unexpected_eof
line_of s (some (line, rest)) =
    if ltb max_frame_line_bytes (length line + 1)
    then err line_too_large
    else ok (trim_line_terminator (line ++ (line_feed ∷ [])), rest)

-- The line without its terminator, and the input behind it.
pub read_frame_line : Bytes → Result BodyError (Bytes × Bytes)
read_frame_line s = line_of s (cut line_feed s)

-- `strings.EqualFold`, as far as a comparison with a hash token sees it: its letters are ASCII, and
-- none of them is k or s, which other characters fold to.
abbrev pub lower : ℕ → ℕ
lower c = if between b'A' b'Z' c then c + 32 else c

pub equal_fold : Bytes → Bytes → Bool
equal_fold a b = bytes_eq (map lower a) (map lower b)

pub or_buffer {ℓ} : {A : Type ℓ} → Result PoolError A → Result BodyError A
or_buffer (ok a) = ok a
or_buffer (err e) = err buffer_error

pub filled_wire : ℕ → Bytes → Result BodyError Bytes
filled_wire n piece = or_buffer (new_growing (pos n)) >>= λ g.
    (or_buffer (read_from (n + 1) g (piece ∷ [])) >>= λ h.
    (if length h.buf == n then ok h.buf else err unexpected_eof))

-- The payload, which arrives in one piece and goes into a growing buffer.
pub read_wire : ℕ → Bytes → Result BodyError Bytes
read_wire n input = if n == 0 then ok [] else filled_wire n (take n input)

-- DecompressZstdN of codec.go: exactly so many bytes, and no more than the ceiling.
pub decompress_zstd_n : Codecs → Bytes → ℕ → Result BodyError Bytes
decompress_zstd_n k src n =
    if ltb k.frame_ceiling n
    then err codec_failed
    else (or_err (k.decompress src) codec_failed >>= λ out.
        (if length out == n then ok out else err codec_failed))

pub decode_wire : Codecs → Bytes → Bytes → ℕ → ℕ → Result BodyError Bytes
decode_wire k comp wire size wsize =
    if bytes_eq comp zstd_name
    then decompress_zstd_n k wire size
    else (if bytes_eq comp none_name
        then (if wsize == size then ok wire else err wsize_mismatch)
        else err unsupported_comp)

-- FrameHashToken, of a header without its line feed.
pub frame_hash_token : Codecs → Bytes → Bytes → Bytes → Bytes
frame_hash_token k header payload prefix =
    format_xxh64_hash_token (k.sum64 (header ++ (line_feed ∷ (payload ++ prefix))))

pub or_frame {ℓ} : {A : Type ℓ} → Result FrameError A → Result BodyError A
or_frame (ok a) = ok a
or_frame (err e) = err (bad_frame e)

-- The tests of what a frame's header says.
pub check_meta :
    FramedBodyReaderOpts → FramedBodyReader → FileFrameMeta → Result BodyError (Unit {0})
check_meta opts r m =
    guard (m.file_id == 0) unexpected_file_id
    >> (guard (not (is_empty m.hash_token)) missing_header_hash
        >> (guard (leb_ℤ m.offset (pos r.offset) && leb_ℤ (pos r.offset) m.offset) offset_mismatch
            >> (guard (leb_ℤ m.wire_size (pos opts.max_wire_size)) wire_too_large
                >> (guard (leb_ℤ m.size (pos opts.max_frame_logical_bytes)) logical_too_large
                    >> guard
                        (opts.max_logical_bytes == 0
                          || leb_ℤ m.size (sub_ℕ opts.max_logical_bytes r.offset))
                        body_too_large))))

-- A frame's header line, up to the limits.
pub check_header : FramedBodyReaderOpts → FramedBodyReader → Bytes → Result BodyError FileFrameMeta
check_header opts r line =
    guard (not (starts_with (codes "ERR ") line)) server_error
    >> (guard (not (bytes_eq line (codes "OK") || starts_with (codes "OK ") line)) unexpected_status
        >> (or_frame (parse_fx_header line) >>= λ m. (check_meta opts r m >> ok m)))

pub check_trailer_of : Codecs → Bytes → Bytes → FrameTrailer → Result BodyError (Unit {0})
check_trailer_of k header wire t =
    guard (t.file_id == 0) unexpected_file_id
    >> (guard (not (is_empty t.hash_token)) missing_trailer_hash
        >> guard (equal_fold t.hash_token (frame_hash_token k header wire t.checksum_prefix))
            trailer_hash_mismatch)

pub check_trailer : Codecs → Bytes → Bytes → Bytes → Result BodyError FrameTrailer
check_trailer k header wire line =
    or_frame (parse_fx_trailer line) >>= λ t. (check_trailer_of k header wire t >> ok t)

-- The end of a frame: the terminal one closes the body, any other continues at its `next`.
pub accept_next : Codecs → FramedBodyReader → FrameTrailer → ℤ → Result BodyError FramedBodyReader
accept_next k r t next =
    if leb_ℤ next (pos 0) && leb_ℤ (pos 0) next
    then (guard (not (is_empty t.file_hash_token)) missing_file_hash
        >> (guard (equal_fold t.file_hash_token (format_xxh128_hash_token (k.sum128 r.hashed)))
              file_hash_mismatch
            >> ok (record r {
              file_hash_token = t.file_hash_token;
              done = true;
              frame_idx = suc r.frame_idx;
            })))
    else (guard (leb_ℤ next (pos r.offset) && leb_ℤ (pos r.offset) next) next_mismatch
        >> (guard (is_empty t.file_hash_token) stray_file_hash
            >> ok (record r { frame_idx = suc r.frame_idx })))

pub read_next_frame :
    Codecs → FramedBodyReaderOpts → FramedBodyReader → Result BodyError FramedBodyReader
read_next_frame k opts r = read_frame_line r.input >>= λ h.
    (check_header opts r h.0 >>= λ m.
    (read_wire (pos_part m.wire_size) h.1 >>= λ wire.
    (decode_wire k m.comp wire (pos_part m.size) (pos_part m.wire_size) >>= λ chunk.
    (guard (equal_fold m.hash_token (format_xxh128_hash_token (k.sum128 chunk)))
        header_hash_mismatch
      >> (read_frame_line (drop (pos_part m.wire_size) h.1) >>= λ l.
          (check_trailer k h.0 wire l.0 >>= λ t.
          (or_err t.next missing_next >>= λ next.
          accept_next k
            (record r {
              input = l.1;
              hashed = r.hashed ++ chunk;
              buf = r.buf ++ chunk;
              offset = r.offset + pos_part m.size;
            })
            t next)))))))

-- `io.ReadAll`: frame after frame until the terminal one; a frame takes a byte at least.
pub read_all :
    Codecs → FramedBodyReaderOpts → ℕ → FramedBodyReader → Result BodyError FramedBodyReader
read_all k opts zero r = err unexpected_eof
read_all k opts (suc fuel) r =
    read_next_frame k opts r >>= λ s. elim s.done [ true ↦ ok s | false ↦ read_all k opts fuel s ]
