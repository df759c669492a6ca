-- ===== src/Ftcp/Ack.antt =====
-- internal/filexfer/ftcp/ack.go: the ACK request. The store and the events are parameters.
pub mod Handle
use tx.Base.{
  ℕ, Bool, true, false, not, Option, none, some, List, [], ◌∷◌, Result, ok, err, ◌>>=◌, ◌>>◌, guard,
  or_err, if◌then◌else◌,
}
use tx.Base.Int.{ℤ, pos, negsuc}
use tx.Base.Bytes.{Bytes, codes, bytes_eq, is_empty, trim_space, cut}
use tx.Base.Decimal.{parse_uint, parse_int}
use tx.Encoding.Path.{non_negative}
use tx.Encoding.Hash.{valid_hash_token}
use tx.Ftcp.Verb.{Verb, ack, Failure, bad_command, bad_request}
use tx.Ftcp.Params.{Params, get}
use tx.Ftcp.Request.{Request, is_blank, key_txferid}
use tx.Ftcp.Items.{key_fid, key_path}

pub record AckItem : Type 0 where
  pub transfer_id : Bytes
  pub file_id : ℕ
  pub ack_token : Bytes
  pub path : Bytes
  pub delta_bytes : ℕ
  pub recv_ms : ℕ
  pub sync_ms : ℕ

-- An absent field is 0; a negative or malformed one is an error.
unfoldable pub telemetry_field : Bytes → Option ℕ
telemetry_field raw =
    let s = trim_space raw in if is_empty s then some 0 else non_negative (parse_int s)

unfoldable pub parse_ack_telemetry_fields : Bytes → Bytes → Bytes → Option (ℕ × ℕ × ℕ)
parse_ack_telemetry_fields delta recv sync = elim (telemetry_field delta) [
  | none ↦ none
  | some d ↦ elim (telemetry_field recv) [
    | none ↦ none
    | some r ↦ elim (telemetry_field sync) [ none ↦ none | some s ↦ some (d, r, s) ]
  ]
]

abbrev pub key_ack_token : Bytes
key_ack_token = codes "ack-token"

unfoldable pub parse_ack_item : Params → Bytes → Result Failure AckItem
parse_ack_item p txfer_id = do
  fid ← or_err (parse_uint (get key_fid p)) (bad_request "invalid file id")
  guard (not (is_blank (get key_ack_token p))) (bad_request "missing ack token")
  (delta, recv, sync) ←
      or_err
        (parse_ack_telemetry_fields (get (codes "delta-bytes") p) (get (codes "recv-ms") p)
          (get (codes "sync-ms") p))
        (bad_request "invalid ACK telemetry")
  guard (not (is_empty (get key_path p))) (bad_request "missing path")
  ok (record {
    transfer_id = txfer_id;
    file_id = fid;
    ack_token = get key_ack_token p;
    path = get key_path p;
    delta_bytes = delta;
    recv_ms = recv;
    sync_ms = sync;
  })

abbrev pub single_txferid : List Params → Result Failure Bytes
single_txferid [] = err (bad_request "invalid ACK arguments")
single_txferid (p ∷ []) =
    let id = trim_space (get key_txferid p) in
    if is_empty id then err (bad_request "missing transfer id") else ok id
single_txferid (p ∷ q ∷ ps) = err (bad_request "invalid ACK arguments")

abbrev pub is_ack : Verb → Bool
is_ack ack = true
is_ack v = false

unfoldable pub ack_transfer_id : Request → Result Failure Bytes
ack_transfer_id req =
    if is_ack req.verb then single_txferid req.params else err (bad_command "not ACK")

-- What `parseAckToken` returns: nothing was given, or the parts of the token. An error is `none`.
pub record AckToken : Type 0 where
  pub ack_bytes : ℤ
  pub ack_ts : ℕ
  pub hash_token : Bytes
  pub provided : Bool

abbrev pub hash_part : Bytes → Option Bytes
hash_part raw = let s = trim_space raw in if valid_hash_token s then some s else none

-- The timestamp and the hash behind the first separator.
unfoldable pub parse_ack_rest : ℕ → Bytes → Option AckToken
parse_ack_rest n rest = elim (cut b'@' rest) [
  | none ↦ elim (non_negative (parse_int rest)) [
    | none ↦ none
    | some ts ↦ some (record { ack_bytes = pos n; ack_ts = ts; hash_token = []; provided = true })
  ]
  | some (ts_raw, hash_raw) ↦ elim (non_negative (parse_int ts_raw)) [
    | none ↦ none
    | some ts ↦ elim (hash_part hash_raw) [
      | none ↦ none
      | some h ↦ some (record { ack_bytes = pos n; ack_ts = ts; hash_token = h; provided = true })
    ]
  ]
]

-- The part behind the tests for an empty token and for "-1".
pub parse_ack_fields : Bytes → Option AckToken
unfolding parse_ack_rest
parse_ack_fields s = elim (cut b'@' s) [
  | none ↦ none
  | some (bytes_raw, rest) ↦ elim (non_negative (parse_int bytes_raw)) [
    | none ↦ none
    | some n ↦ parse_ack_rest n rest
  ]
]

unfoldable pub parse_ack_token : Bytes → Option AckToken
unfolding parse_ack_fields
parse_ack_token raw =
    let s = trim_space raw in
    if is_empty s
    then some (record { ack_bytes = pos 0; ack_ts = 0; hash_token = []; provided = false })
    else (if bytes_eq s (codes "-1")
        then some (record { ack_bytes = negsuc 0; ack_ts = 0; hash_token = []; provided = true })
        else parse_ack_fields s)

pub record AckRecord : Type 0 where
  pub file_id : ℕ
  pub ack_bytes : ℤ
  pub delta_bytes : ℕ
  pub path : Bytes
  pub hash_token : Bytes

abbrev pub provided_token : Option AckToken → Option AckToken
provided_token none = none
provided_token (some t) = if t.provided then some t else none

-- The function that `handleACKWithInput` gives to `parseRequestItemRecords`.
unfoldable pub ack_record_of : Bytes → Params → Result Failure AckRecord
ack_record_of txfer_id raw = do
  item ← parse_ack_item raw txfer_id
  token ← or_err (provided_token (parse_ack_token item.ack_token)) (bad_request "invalid ack token")
  ok (record {
    file_id = item.file_id;
    ack_bytes = token.ack_bytes;
    delta_bytes = item.delta_bytes;
    path = item.path;
    hash_token = token.hash_token;
  })
