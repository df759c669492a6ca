-- ===== src/Encoding/Frame/Parse.antt =====
-- ParseFXHeader and ParseFXTrailer of internal/filexfer/encoding/frame.go, and what they call.
use tx.Base.{
  ℕ, zero, suc, ◌||◌, not, Option, none, some, List, [], ◌∷◌, Result, ok, err, ◌>>=◌, ◌>>◌, guard,
  or_err, if◌then◌else◌, ◌==◌, length, drop,
}
use tx.Base.Int.{ℤ, pos, negsuc, is_neg, leb_ℤ}
use tx.Base.Bytes.{Bytes, codes, is_empty, cut, starts_with, trim_space, bytes_eq}
use tx.Base.Decimal.{parse_uint, parse_int}
use tx.Encoding.Hash.{valid_hash_token}
use tx.Ftcp.Params.{Params, get, put}

pub data FrameError : Type 0 where
  invalid_header invalid_header_id missing_property invalid_property : FrameError
  invalid_max_wsize negative_header missing_properties invalid_header_hash : FrameError
  invalid_trailer_hash invalid_trailer invalid_trailer_id invalid_trailer_ts : FrameError
  invalid_trailer_next status_not_ok missing_trailer_ts invalid_file_hash : FrameError

pub record FileFrameMeta : Type 0 where
  pub file_id : ℕ
  pub comp : Bytes
  pub offset : ℤ
  pub size : ℤ
  pub wire_size : ℤ
  pub max_wire_size_hint : ℤ
  pub header_ts : ℤ
  pub hash_token : Bytes

pub record FrameTrailer : Type 0 where
  pub file_id : ℕ
  pub ts : ℤ
  pub hash_token : Bytes
  pub file_hash_token : Bytes
  pub checksum_prefix : Bytes
  pub next : Option ℤ

unfoldable pub skip_blanks : Bytes → Bytes
skip_blanks [] = []
skip_blanks (c ∷ s) = let rest = skip_blanks s in if c == b' ' then rest else c ∷ s

unfoldable pub token_of : Bytes → Bytes × Bytes
token_of s = elim (cut b' ' s) [ none ↦ (s, []) | some (tok, rest) ↦ (tok, rest) ]

unfoldable pub next_fx_token : Bytes → Bytes × Bytes
next_fx_token s = token_of (skip_blanks s)

-- Each round takes a byte at least.
unfoldable pub fields_loop : ℕ → Bytes → List Bytes
fields_loop zero s = []
fields_loop (suc f) s =
    let more = fields_loop f (next_fx_token s).1 in
    if is_empty (next_fx_token s).0 then [] else (next_fx_token s).0 ∷ more

unfoldable pub fx_fields : Bytes → List Bytes
fx_fields line = fields_loop (suc (length line)) line

unfoldable pub parse_header_int : Bytes → Result FrameError ℤ
parse_header_int raw =
    if is_empty raw then err missing_property else or_err (parse_int raw) invalid_property

abbrev pub header_props : Params → List Bytes → Params
header_props props [] = props
header_props props (token ∷ tokens) = elim (cut b'=' token) [
  | none ↦ header_props props tokens
  | some (key, val) ↦ header_props (put key val props) tokens
]

-- `raw, ok := m[key]`
unfoldable pub lookup : Bytes → Params → Option Bytes
lookup key [] = none
lookup key ((k, v) ∷ m) = if bytes_eq k key then some v else lookup key m

unfoldable pub header_hint : Params → Result FrameError ℤ
header_hint props = elim (lookup (codes "max-wsize") props) [
  | none ↦ ok (pos 0)
  | some raw ↦ parse_header_int raw >>= λ hint.
      (if leb_ℤ hint (pos 0) then err invalid_max_wsize else ok hint)
]

unfoldable pub header_of : ℕ → Params → Result FrameError FileFrameMeta
header_of id props = parse_header_int (get (codes "offset") props) >>= λ offset.
    (parse_header_int (get (codes "size") props) >>= λ size.
    (parse_header_int (get (codes "wsize") props) >>= λ wsize.
    (parse_header_int (get (codes "ts") props) >>= λ ts.
    (header_hint props >>= λ hint.
    (guard (not (is_neg offset)) negative_header
      >> (guard (not (is_neg size)) negative_header
          >> (guard (not (is_neg wsize)) negative_header
              >> (guard (not (is_neg ts)) negative_header
                  >> (guard (not (is_empty (get (codes "comp") props))) missing_properties
                      >> (guard
                            (is_empty (get (codes "hash") props)
                              || valid_hash_token (get (codes "hash") props))
                            invalid_header_hash
                          >> ok (record {
                            file_id = id;
                            comp = get (codes "comp") props;
                            offset = offset;
                            size = size;
                            wire_size = wsize;
                            max_wire_size_hint = hint;
                            header_ts = ts;
                            hash_token = get (codes "hash") props;
                          })))))))))))

unfoldable pub header_fields : List Bytes → Result FrameError FileFrameMeta
header_fields [] = err invalid_header
header_fields (f ∷ []) = err invalid_header
header_fields (f ∷ g ∷ []) = err invalid_header
header_fields (f ∷ g ∷ h ∷ fields) =
    guard (bytes_eq f (codes "FX/1")) invalid_header
    >> (or_err (parse_uint g) invalid_header_id >>= λ id.
        header_of id (header_props [] (h ∷ fields)))

unfoldable pub parse_fx_header : Bytes → Result FrameError FileFrameMeta
parse_fx_header line = header_fields (fx_fields line)

-- `strings.LastIndex`: what stands before and behind the last occurrence.
unfoldable pub cut_last : Bytes → Bytes → Option (Bytes × Bytes)
cut_last sep [] = none
cut_last sep (c ∷ s) = elim (cut_last sep s) [
  | some (before, after) ↦ some (c ∷ before, after)
  | none ↦ if starts_with sep (c ∷ s) then some ([], drop (length sep) (c ∷ s)) else none
]

abbrev pub hash_key : Bytes
hash_key = codes " hash="

unfoldable pub split_of : Bytes → Option (Bytes × Bytes) → Result FrameError (Bytes × Bytes)
split_of line none = ok (trim_space line, [])
split_of line (some (prefix, raw)) =
    if is_empty prefix
    then ok (trim_space line, [])
    else guard (valid_hash_token (trim_space raw)) invalid_trailer_hash
      >> ok (prefix, trim_space raw)

unfoldable pub split_trailer_prefix_and_hash : Bytes → Result FrameError (Bytes × Bytes)
split_trailer_prefix_and_hash line = split_of line (cut_last hash_key line)

-- What the loop over a trailer's tokens keeps.
pub record TrailerState : Type 0 where
  pub status : Bytes
  pub ts : ℤ
  pub file_hash : Bytes
  pub next : Option ℤ

abbrev pub no_trailer : TrailerState
no_trailer = record { status = []; ts = negsuc 0; file_hash = []; next = none }

-- A number that is not negative.
abbrev pub natural : Bytes → FrameError → Result FrameError ℤ
natural raw e = or_err (parse_int raw) e >>= λ v. (if is_neg v then err e else ok v)

abbrev pub value_of : Bytes → Bytes → Bytes
value_of key token = drop (length key) token

unfoldable pub trailer_ts : TrailerState → Bytes → Result FrameError TrailerState
trailer_ts s token =
    if starts_with (codes "ts=") token
    then (natural (value_of (codes "ts=") token) invalid_trailer_ts >>= λ v.
        ok (record s { ts = v }))
    else ok s

unfoldable pub trailer_next : TrailerState → Bytes → Result FrameError TrailerState
trailer_next s token =
    if starts_with (codes "next=") token
    then (natural (value_of (codes "next=") token) invalid_trailer_next >>= λ v.
        ok (record s { next = some v }))
    else ok s

abbrev pub trailer_status : TrailerState → Bytes → TrailerState
trailer_status s token =
    if starts_with (codes "status=") token
    then record s { status = value_of (codes "status=") token }
    else s

abbrev pub trailer_file_hash : TrailerState → Bytes → TrailerState
trailer_file_hash s token =
    if starts_with (codes "file-hash=") token
    then record s { file_hash = value_of (codes "file-hash=") token }
    else s

unfoldable pub trailer_token : TrailerState → Bytes → Result FrameError TrailerState
trailer_token s token = trailer_ts (trailer_status s token) token >>= λ t.
    trailer_next (trailer_file_hash t token) token

unfoldable pub trailer_loop : TrailerState → List Bytes → Result FrameError TrailerState
trailer_loop s [] = ok s
trailer_loop s (token ∷ tokens) = trailer_token s token >>= λ t. trailer_loop t tokens

unfoldable pub trailer_of : ℕ → Bytes → Bytes → TrailerState → Result FrameError FrameTrailer
trailer_of id prefix hash s =
    guard (bytes_eq s.status (codes "ok")) status_not_ok
    >> (guard (not (is_neg s.ts)) missing_trailer_ts
        >> (guard (is_empty s.file_hash || valid_hash_token s.file_hash) invalid_file_hash
            >> ok (record {
              file_id = id;
              ts = s.ts;
              hash_token = hash;
              file_hash_token = s.file_hash;
              checksum_prefix = prefix;
              next = s.next;
            })))

unfoldable pub trailer_fields : Bytes → Bytes → List Bytes → Result FrameError FrameTrailer
trailer_fields prefix hash [] = err invalid_trailer
trailer_fields prefix hash (f ∷ []) = err invalid_trailer
trailer_fields prefix hash (f ∷ g ∷ []) = err invalid_trailer
trailer_fields prefix hash (f ∷ g ∷ h ∷ fields) =
    guard (bytes_eq f (codes "FXT/1")) invalid_trailer
    >> (or_err (parse_uint g) invalid_trailer_id >>= λ id.
        (trailer_loop no_trailer (h ∷ fields) >>= λ s. trailer_of id prefix hash s))

unfoldable pub parse_fx_trailer : Bytes → Result FrameError FrameTrailer
parse_fx_trailer line =
    split_trailer_prefix_and_hash line >>= λ r. trailer_fields r.0 r.1 (fx_fields r.0)
