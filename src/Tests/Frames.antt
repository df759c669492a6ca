-- ===== src/Tests/Frames.antt =====
-- Frames, framed bodies and growing buffers at concrete inputs.
use tx.Base.{
  ℕ, ◌+◌, ◌≡◌, refl, inl, Bool, true, false, some, List, [], ◌∷◌, ◌++◌, ◌>>=◌, ok, length,
  replicate, arith,
}
use tx.Base.Int.{pos}
use tx.Base.Bytes.{Bytes, codes, cut}
use tx.Bufpool.{Growing}
use tx.Encoding.Hash.{valid_hash_token, format_xxh128_hash_token}
use tx.Encoding.Frame.{
  WriteArgs, FileFrameMetadata, frame_header, frame_trailer, trailer_prefix, line_feed,
}
use tx.Encoding.Frame.Parse.{parse_fx_header}
use tx.Encoding.Frame.Tokens.{is_word-Avoids}
use tx.Encoding.Frame.RoundTrip.{IsHeader, meta_of, parse_fx_header-frame_header}
use tx.Encoding.Frame.Trailer.{IsTrailer}
use tx.Client.Trailer.{parse_client_trailer, trim_line_end}
use tx.Client.Trailer.Reads.{client_trailer_sent}
use tx.Client.Trailer.Lines.{IsLine, line-Avoids}
use tx.Client.Trailer.RoundTrip.{parse_client_trailer-frame_trailer}
use tx.Encoding.Body.{
  Codecs, FramedBodyReader, FramedBodyReaderOpts, FramedBodyWriter, close, none_name, new_reader,
  new_writer, read_all, equal_fold, with_defaults,
}
use tx.Encoding.Body.Streams.{Ended}
use tx.Encoding.Body.Safety.{Within, read_all-hash}
use tx.Encoding.Body.RoundTrip.{Agreed, all_bytes, write_all, write_all-read_all}

abbrev metadata : FileFrameMetadata
metadata = record {
  size = pos 3;
  mtime_ns = pos 77;
  mode = codes "0644";
  uid = codes "1000";
  gid = codes "1000";
  user = codes "Ann Lee";
  group = codes "staff";
}

abbrev file_frame : WriteArgs
file_frame = record {
  file_id = 7;
  offset = pos 4096;
  size = pos 3;
  wsize = pos 3;
  comp = codes "none";
  header_hash = codes "xxh128:ab";
  max_wsize_hint = some (pos 65536);
  header_ts = pos 12;
  payload = codes "abc";
  trailer_ts = pos 13;
  file_hashes = codes "xxh128:cd" ∷ [];
  next = pos 4099;
  metadata = some metadata;
}

file_frame-IsHeader : IsHeader file_frame
unfolding valid_hash_token
file_frame-IsHeader = record {
  id = omega arith;
  offset = omega arith;
  size = omega arith;
  wsize = omega arith;
  hint = (omega arith, refl);
  ts = omega arith;
  comp = (is_word-Avoids (codes "none") refl, omega arith);
  hash_one = is_word-Avoids (codes "xxh128:ab") refl;
  hash_valid = refl;
}

file_frame-IsTrailer : IsTrailer file_frame
unfolding valid_hash_token
file_frame-IsTrailer = record {
  id = omega arith;
  ts = omega arith;
  next = omega arith;
  hashes = (((is_word-Avoids (codes "xxh128:cd") refl, omega arith), refl), tt);
  metadata = record {
    size = omega arith;
    mtime = omega arith;
    mode = is_word-Avoids (codes "0644") refl;
    uid = is_word-Avoids (codes "1000") refl;
    gid = is_word-Avoids (codes "1000") refl;
  };
}

parse_fx_header-frame_header_example :
    parse_fx_header (frame_header file_frame) ≡ ok (meta_of file_frame)
parse_fx_header-frame_header_example = parse_fx_header-frame_header file_frame file_frame-IsHeader

file_frame-IsLine : IsLine file_frame
file_frame-IsLine = (
  (line-Avoids (codes "xxh128:cd") refl, tt),
  (
    line-Avoids (codes "0644") refl,
    line-Avoids (codes "1000") refl,
    line-Avoids (codes "1000") refl,
    line-Avoids (codes "Ann Lee") refl,
    line-Avoids (codes "staff") refl,
  ),
)

parse_client_trailer-frame_trailer_example :
    (cut line_feed (frame_trailer length file_frame ++ (line_feed ∷ codes "OK"))
      ≡ some (frame_trailer length file_frame, codes "OK"))
    × (parse_client_trailer (trim_line_end (frame_trailer length file_frame ++ (line_feed ∷ [])))
        ≡ ok (
            client_trailer_sent file_frame (
              length (
                frame_header file_frame
                ++ (line_feed ∷ (codes "abc" ++ trailer_prefix file_frame))))))
parse_client_trailer-frame_trailer_example =
    parse_client_trailer-frame_trailer length file_frame (codes "OK") file_frame-IsTrailer
      file_frame-IsLine

abbrev pieces : List Bytes
pieces = codes "abc" ∷ [] ∷ codes "de" ∷ []

abbrev small_buffer : Growing
small_buffer = record { buf = []; capacity = 2 }

-- Stand-ins for the hashes and the codec.
abbrev stand_in : Codecs
stand_in = record {
  sum64 = length;
  sum128 = λ b. replicate 16 (length b);
  compress = λ c. some c;
  decompress = λ w. some w;
  frame_ceiling = 8388608;
}

abbrev reader_opts : FramedBodyReaderOpts
reader_opts =
    with_defaults stand_in
      (record { max_wire_size = 0; max_frame_logical_bytes = 0; max_logical_bytes = 0 })

agreed : Agreed stand_in reader_opts none_name 4 100
agreed = record {
  carrier = inl (refl, omega arith, omega arith);
  cut = omega arith;
  frames = omega arith;
  body = inl refl;
  range = omega arith;
}

abbrev ticks : ℕ → ℕ
ticks o = 1700

abbrev writes : List (Bool × Bytes)
writes = (false, codes "hello ") ∷ (true, codes "w") ∷ []

write_all-read_all_example :
    (w : FramedBodyWriter) × (s : FramedBodyReader) × ((write_all stand_in ticks
          (new_writer none_name 4)
          writes
        >>= λ v. close stand_in ticks v)
      ≡ ok w)
    × (read_all stand_in reader_opts (length w.out + 1) (new_reader (w.out ++ codes "OK")) ≡ ok s)
    × Ended stand_in ticks none_name reader_opts
        (new_reader (w.out ++ codes "OK"))
        s
        []
        (all_bytes writes)
        (codes "OK")
write_all-read_all_example =
    write_all-read_all stand_in ticks reader_opts none_name 4 100 agreed writes (codes "OK")
      (λ b. omega arith) (λ o. omega arith) (omega arith)

-- A body that was written is one that the reader accepts.
written :
    (w : FramedBodyWriter) × (s : FramedBodyReader) × ((write_all stand_in ticks
          (new_writer none_name 4)
          writes
        >>= λ v. close stand_in ticks v)
      ≡ ok w)
    × (read_all stand_in reader_opts (length w.out + 1) (new_reader (w.out ++ [])) ≡ ok s)
    × Ended stand_in ticks none_name reader_opts
        (new_reader (w.out ++ []))
        s
        []
        (all_bytes writes)
        []
written =
    write_all-read_all stand_in ticks reader_opts none_name 4 100 agreed writes []
      (λ b. omega arith) (λ o. omega arith) (omega arith)

read_all-hash_example :
    (equal_fold written.1.file_hash_token (format_xxh128_hash_token (stand_in.sum128 written.1.buf))
      ≡ true)
    × Within reader_opts (length written.1.buf)
read_all-hash_example =
    read_all-hash stand_in reader_opts (length written.0.out + 1) (written.0.out ++ []) written.1
      written.3
