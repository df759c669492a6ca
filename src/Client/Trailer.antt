-- ===== src/Client/Trailer.antt =====
-- parseFXTrailer of client.go: the trailer of a file's frame, with the file's metadata, and the line
-- that it stands on.
pub mod Reads
pub mod Lines
pub mod RoundTrip
use tx.Base.{
  ℕ, zero, suc, ◌&&◌, ◌||◌, not, Bool, true, false, Option, none, some, List, [], ◌∷◌, Result, ok,
  err, ◌>>=◌, ◌>>◌, guard, or_err, if◌then◌else◌, ◌==◌, length, drop,
}
use tx.Base.Int.{ℤ, pos, negsuc, is_neg}
use tx.Base.Bytes.{Bytes, codes, is_empty, cut, starts_with, bytes_eq}
use tx.Base.Decimal.{parse_uint}
use tx.Encoding.Hash.{valid_hash_token}
use tx.Encoding.Frame.Parse.{
  FrameError, invalid_trailer, invalid_trailer_id, invalid_trailer_ts, invalid_trailer_next,
  status_not_ok, missing_trailer_ts, invalid_file_hash, natural, value_of, skip_blanks,
  next_fx_token, split_trailer_prefix_and_hash,
}

pub record FileTrailerMetadata : Type 0 where
  pub size : ℤ
  pub mtime_ns : ℤ
  pub mode : Bytes
  pub uid : Bytes
  pub gid : Bytes
  pub user : Bytes
  pub group : Bytes

pub record ClientTrailer : Type 0 where
  pub file_id : ℕ
  pub ts : ℤ
  pub hash_token : Bytes
  pub file_hash_token : Bytes
  pub checksum_prefix : Bytes
  pub next : ℤ
  pub has_next : Bool
  pub metadata : Option FileTrailerMetadata

pub data TrailerError : Type 0 where
  frame_error : FrameError → TrailerError
  invalid_meta_size invalid_meta_mtime : TrailerError

-- The variables of the loop over the tokens.
pub record ReadState : Type 0 where
  pub status : Bytes
  pub file_hash : Bytes
  pub ts : ℤ
  pub next : ℤ
  pub has_next : Bool
  pub meta : FileTrailerMetadata
  pub has_meta : Bool

abbrev pub nothing_read : ReadState
nothing_read = record {
  status = [];
  file_hash = [];
  ts = negsuc 0;
  next = pos 0;
  has_next = false;
  meta = record {
    size = negsuc 0;
    mtime_ns = negsuc 0;
    mode = [];
    uid = [];
    gid = [];
    user = [];
    group = [];
  };
  has_meta = false;
}

abbrev pub or_frame : {A : Type 0} → Result FrameError A → Result TrailerError A
or_frame (ok a) = ok a
or_frame (err e) = err (frame_error e)

abbrev pub or_meta : TrailerError → Result FrameError ℤ → Result TrailerError ℤ
or_meta e (ok v) = ok v
or_meta e (err x) = err e

-- A number that is not negative, or the error.
abbrev pub meta_number : Bytes → TrailerError → Result TrailerError ℤ
meta_number raw e = or_meta e (natural raw invalid_trailer)

-- The first chain of tests of a token.
unfoldable pub read_plain : ReadState → Bytes → Result TrailerError ReadState
read_plain s token =
    if starts_with (codes "status=") token
    then ok (record s { status = value_of (codes "status=") token })
    else (if starts_with (codes "ts=") token
        then (or_frame (natural (value_of (codes "ts=") token) invalid_trailer_ts) >>= λ v.
            ok (record s { ts = v }))
        else (if starts_with (codes "file-hash=") token
            then ok (record s { file_hash = value_of (codes "file-hash=") token })
            else (if starts_with (codes "next=") token
                then (or_frame (natural (value_of (codes "next=") token) invalid_trailer_next)
                    >>= λ v. ok (record s { next = v; has_next = true }))
                else ok s)))

abbrev pub with_meta : ReadState → FileTrailerMetadata → ReadState
with_meta s m = record s { meta = m; has_meta = true }

-- The switch over a key of the metadata, without its `meta:`.
unfoldable pub read_key : ReadState → Bytes → Bytes → Result TrailerError ReadState
read_key s key val =
    if bytes_eq key (codes "size")
    then (meta_number val invalid_meta_size >>= λ v. ok (with_meta s (record s.meta { size = v })))
    else (if bytes_eq key (codes "mtime_ns")
        then (meta_number val invalid_meta_mtime >>= λ v.
            ok (with_meta s (record s.meta { mtime_ns = v })))
        else (if bytes_eq key (codes "mode")
            then ok (with_meta s (record s.meta { mode = val }))
            else (if bytes_eq key (codes "uid")
                then ok (with_meta s (record s.meta { uid = val }))
                else (if bytes_eq key (codes "gid")
                    then ok (with_meta s (record s.meta { gid = val }))
                    else (if bytes_eq key (codes "user")
                        then ok (with_meta s (record s.meta { user = val }))
                        else (if bytes_eq key (codes "group")
                            then ok (with_meta s (record s.meta { group = val }))
                            else ok s))))))

abbrev pub trim_meta : Bytes → Bytes
trim_meta key = if starts_with (codes "meta:") key then drop 5 key else key

unfoldable pub read_meta : ReadState → Bytes → Result TrailerError ReadState
read_meta s token =
    if starts_with (codes "meta:") token
    then elim (cut b'=' token) [ none ↦ ok s | some (key, val) ↦ read_key s (trim_meta key) val ]
    else ok s

-- The loop; each round takes a byte at least.
unfoldable pub read_tokens : ℕ → ReadState → Bytes → Result TrailerError ReadState
read_tokens zero s rest = ok s
read_tokens (suc fuel) s rest =
    let (token, more) = next_fx_token rest in
    elim (is_empty token) [
      | true ↦ ok s
      | false ↦ read_plain s token >>= λ t. (read_meta t token >>= λ u. read_tokens fuel u more)
    ]

abbrev pub at_least_zero : ℤ → ℤ
at_least_zero v = if is_neg v then pos 0 else v

unfoldable pub metadata_read : ReadState → Option FileTrailerMetadata
metadata_read s =
    if s.has_meta
    then some (record s.meta {
      size = at_least_zero s.meta.size;
      mtime_ns = at_least_zero s.meta.mtime_ns;
    })
    else none

unfoldable pub client_trailer_of : ℕ → Bytes → Bytes → ReadState → Result TrailerError ClientTrailer
client_trailer_of id prefix hash s =
    guard (bytes_eq s.status (codes "ok")) (frame_error status_not_ok)
    >> (guard (not (is_neg s.ts)) (frame_error missing_trailer_ts)
        >> (guard (is_empty s.file_hash || valid_hash_token s.file_hash)
              (frame_error invalid_file_hash)
            >> ok (record {
              file_id = id;
              ts = s.ts;
              hash_token = hash;
              file_hash_token = s.file_hash;
              checksum_prefix = prefix;
              next = s.next;
              has_next = s.has_next;
              metadata = metadata_read s;
            })))

-- What follows the split of the line.
unfoldable pub read_prefix : Bytes → Bytes → Result TrailerError ClientTrailer
read_prefix prefix hash =
    let (version, more) = next_fx_token prefix in
    let (raw_id, rest) = next_fx_token more in
    guard (bytes_eq version (codes "FXT/1") && not (is_empty (skip_blanks rest)))
      (frame_error invalid_trailer)
    >> (or_err (parse_uint raw_id) (frame_error invalid_trailer_id) >>= λ id.
        (read_tokens (suc (length rest)) nothing_read rest >>= λ s.
        client_trailer_of id prefix hash s))

unfoldable pub parse_client_trailer : Bytes → Result TrailerError ClientTrailer
parse_client_trailer line =
    or_frame (split_trailer_prefix_and_hash line) >>= λ r. read_prefix r.0 r.1

-- `strings.TrimRight(line, "\r\n")`
unfoldable pub trim_line_end : Bytes → Bytes
trim_line_end [] = []
trim_line_end (c ∷ s) =
    let rest = trim_line_end s in if is_empty rest && (c == 13 || c == 10) then [] else c ∷ rest
