-- ===== src/Client/AckRoundTrip.antt =====
-- What a client acknowledges, as it is written by client_requests.go and client.go and as the
-- server's AckRecord should hold it.
pub mod Parse
pub mod Body
use tx.Base.{
  ℕ, zero, suc, ◌+◌, ◌^◌, ◌≤◌, ◌<◌, ◌≡◌, ◌≢◌, refl, sym, ap, ◌∙◌, Bool, true, false, not, ◌||◌,
  none, some, List, [], ◌∷◌, ◌++◌, Result, ok, err, ◌>>=◌, ◌==◌, if◌then◌else◌, length, All,
  All-append, arith, length-append, Bool-cases, inl, inr, ◌⊎◌, map,
}
use tx.Base.Int.{ℤ, pos, negsuc}
use tx.Base.Bytes.{Bytes, codes, bytes_eq, is_empty, trim_space, Avoids, cut, cut-append}
use tx.Base.Decimal.{
  itoa, itoa_int, itoa-IsDigit, IsDigit, IsDigit-Avoids, length-itoa, parse_int-itoa,
  parse_uint-itoa, parse_int, parse_uint,
}
use tx.Encoding.Hash.{valid_hash_token}
use tx.Encoding.Path.{non_negative}
use tx.Ftcp.Verb.{Failure}
use tx.Ftcp.Params.{Params, get, put}
use tx.Ftcp.Request.{is_blank}
use tx.Ftcp.Items.{
  newline, carriage, contains_line_break, max_item_line_bytes, ack_item_keys, parse_item_line,
  parse_request_item_records, key_path, key_fid,
}
use tx.Ftcp.Items.RoundTrip.{
  IsGraphic, IsField, render, store, item_line, parse_item_line-item_line, trim_space-graphic,
  IsDigit-IsGraphic,
}
use tx.Ftcp.Items.Lines.{IsLine, body_of, made_of, AllParsed, parse_request_item_records-lines}
use tx.Ftcp.Ack.{
  AckRecord, AckToken, telemetry_field, parse_ack_telemetry_fields, parse_ack_rest,
  parse_ack_fields, parse_ack_token, parse_ack_item, ack_record_of,
}
use tx.Client.Items.{
  ItemError, AckRequest, AckCommand, build_ack_token, build_ack_command, acknowledge_item_bytes,
  begin, field, field_int, bytes, new_item_writer,
}
use mathlib.Core.List.{append_assoc, append-nil}

-- What the client has to say of one file: it is missing, or so many bytes of it arrived.
pub data Outcome : Type 0 where
  missing : Outcome
  received : (count ts : ℕ) → (hash : Bytes) → (delta recv sync : ℕ) → Outcome

pub record Progress : Type 0 where
  pub file_id : ℕ
  pub path : Bytes
  pub outcome : Outcome

abbrev pub request_for : Bytes → ℕ → Bytes → Outcome → AckRequest
request_for id fid path missing = record {
  transfer_id = id;
  file_id = fid;
  full_path = path;
  ack_bytes = negsuc 0;
  server_ts = pos 0;
  hash_token = [];
  delta_bytes = pos 0;
  recv_ms = pos 0;
  sync_ms = pos 0;
}
request_for id fid path (received n ts hash d r s) = record {
  transfer_id = id;
  file_id = fid;
  full_path = path;
  ack_bytes = pos n;
  server_ts = pos ts;
  hash_token = hash;
  delta_bytes = pos d;
  recv_ms = pos r;
  sync_ms = pos s;
}

-- The record that the server should hold.
abbrev pub record_for : ℕ → Bytes → Outcome → AckRecord
record_for fid path missing = record {
  file_id = fid;
  ack_bytes = negsuc 0;
  delta_bytes = 0;
  path = path;
  hash_token = [];
}
record_for fid path (received n ts hash d r s) = record {
  file_id = fid;
  ack_bytes = pos n;
  delta_bytes = d;
  path = path;
  hash_token = hash;
}

abbrev pub token_for : Outcome → Bytes
token_for missing = codes "-1"
token_for (received n ts hash d r s) =
    itoa n ++ (b'@' ∷ (itoa ts ++ (if is_empty hash then [] else b'@' ∷ hash)))

abbrev pub fields_for : Outcome → List (Bytes × Bytes)
fields_for missing = (codes "ack-token", codes "-1") ∷ []
fields_for (received n ts hash d r s) =
    (codes "ack-token", token_for (received n ts hash d r s))
    ∷ (codes "delta-bytes", itoa d)
    ∷ (codes "recv-ms", itoa r)
    ∷ (codes "sync-ms", itoa s)
    ∷ []

-- Go's ranges, and a hash token of visible text or none.
abbrev pub InRange : Outcome → Type 0
InRange missing = Unit
InRange (received n ts hash d r s) =
    (n < 2 ^ 63)
    × (ts < 2 ^ 63)
    × (d < 2 ^ 63)
    × (r < 2 ^ 63)
    × (s < 2 ^ 63)
    × All IsGraphic hash
    × ((hash ≡ []) ⊎ (valid_hash_token hash ≡ true))

pub record IsSendable (fid : ℕ) (path : Bytes) (o : Outcome) : Type 0 where
  pub id_fits : fid < 2 ^ 64
  pub not_blank : is_empty (trim_space path) ≡ false
  pub no_break : contains_line_break path ≡ false
  pub short : length (item_line fid path (fields_for o)) + 1 ≤ max_item_line_bytes
  pub in_range : InRange o

pub not_empty_path : (path : Bytes) → is_empty (trim_space path) ≡ false → is_empty path ≡ false
unfolding trim_space
not_empty_path [] h = cc
not_empty_path (c ∷ path) h = refl

hash_allowed :
    (hash : Bytes)
    → (hash ≡ []) ⊎ (valid_hash_token hash ≡ true)
    → is_empty hash || valid_hash_token hash ≡ true
hash_allowed [] h = refl
hash_allowed (c ∷ hash) (inl e) = cc
hash_allowed (c ∷ hash) (inr e) = e

pub build_ack_command-request :
    (id : Bytes) (fid : ℕ) (path : Bytes) (o : Outcome)
    → is_empty id ≡ false
    → IsSendable fid path o
    → build_ack_command (request_for id fid path o)
      ≡ ok (record { request = request_for id fid path o; ack_token = token_for o })
unfolding build_ack_command itoa_int
build_ack_command-request id fid path missing ne h = rw (ne, not_empty_path path h.not_blank)
build_ack_command-request id fid path (received n ts hash d r s) ne h =
    rw (ne, not_empty_path path h.not_blank, hash_allowed hash h.in_range.6)

pub acknowledge_item_bytes-line :
    (id : Bytes) (fid : ℕ) (path : Bytes) (o : Outcome)
    → IsSendable fid path o
    → acknowledge_item_bytes
        (record { request = request_for id fid path o; ack_token = token_for o })
      ≡ ok (item_line fid path (fields_for o) ++ (newline ∷ []))
unfolding acknowledge_item_bytes itoa_int
acknowledge_item_bytes-line id fid path missing h = rw (h.not_blank, h.no_break) (simp append_assoc)
acknowledge_item_bytes-line id fid path (received n ts hash d r s) h =
    rw (h.not_blank, h.no_break) (simp append_assoc)

pub itoa-IsGraphic : (n : ℕ) → All IsGraphic (itoa n)
itoa-IsGraphic n = IsDigit-IsGraphic (itoa n) (itoa-IsDigit n)

pub hash_suffix-IsGraphic :
    (hash : Bytes) → All IsGraphic hash → All IsGraphic (if is_empty hash then [] else b'@' ∷ hash)
hash_suffix-IsGraphic [] g = tt
hash_suffix-IsGraphic (c ∷ hash) g = (omega arith, g)

pub token_for-IsGraphic : (o : Outcome) → InRange o → All IsGraphic (token_for o)
token_for-IsGraphic missing h = omega arith
token_for-IsGraphic (received n ts hash d r s) h =
    All-append IsGraphic (itoa n) _ (itoa-IsGraphic n) (
      omega arith,
      All-append IsGraphic (itoa ts) _ (itoa-IsGraphic ts) (hash_suffix-IsGraphic hash h.5),
    )

pub fields_for-IsField : (o : Outcome) → InRange o → All IsField (fields_for o)
fields_for-IsField missing h = ((omega arith, omega arith, omega arith, omega arith), tt)
fields_for-IsField (received n ts hash d r s) h = (
  (omega arith, omega arith, omega arith, token_for-IsGraphic (received n ts hash d r s) h),
  (
    (omega arith, omega arith, omega arith, itoa-IsGraphic d),
    (
      (omega arith, omega arith, omega arith, itoa-IsGraphic r),
      ((omega arith, omega arith, omega arith, itoa-IsGraphic s), tt),
    ),
  ),
)
