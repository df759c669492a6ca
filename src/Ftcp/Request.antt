-- ===== src/Ftcp/Request.antt =====
-- ParseRequest of internal/filexfer/ftcp/request.go.
pub mod Shape
pub mod Fields
use tx.Base.{
  ℕ, zero, suc, ◌+◌, ◌≡◌, Bool, true, false, ◌&&◌, ◌||◌, not, Option, none, some, List, [], ◌∷◌,
  Result, ok, err, ◌>>=◌, ◌>>◌, guard, or_err, if◌then◌else◌, length,
}
use tx.Base.Bytes.{Bytes, codes, bytes_eq, is_empty, trim_space, cut}
use tx.Ftcp.Verb.{
  Verb, unknown, auth, txfer, send, ack, cxsum, status, probe, sync, parse_verb, Failure, stuck,
  bad_command, bad_request,
}
use tx.Ftcp.Cursor.{CursorError, eof, read_token, read_path_value}
use tx.Ftcp.Params.{Params, get, put}
use Prim.Native.String.{String}

pub record Request : Type 0 where
  pub verb : Verb
  pub params : List Params

-- An error of the cursor is reported as the caller's own error.
abbrev pub relabel {ℓ} : {A : Type ℓ} → Result CursorError A → Failure → Result Failure A
relabel (ok a) e = ok a
relabel (err x) e = err e

-- `for !c.eof()`: each round reads one `key=value` token. `keep` says which keys are stored.
unfoldable pub options_loop : (Bytes → Bool) → Failure → ℕ → Bytes → Params → Result Failure Params
options_loop keep bad zero c param = err stuck
options_loop keep bad (suc fuel) c param = elim (eof c) [
  | true ↦ ok param
  | false ↦ do
    (tok, rest) ← relabel (read_token c) bad
    (key, val) ← or_err (cut b'=' tok) bad
    options_loop keep bad fuel rest (if keep key then put key val param else param)
]

-- A token takes a byte at least, so one round more than there are bytes is enough.
unfoldable pub options : (Bytes → Bool) → Failure → Bytes → Params → Result Failure Params
unfolding options_loop
options keep bad c param = options_loop keep bad (suc (length c)) c param

abbrev pub key_directory : Bytes
key_directory = codes "directory"

abbrev pub key_txferid : Bytes
key_txferid = codes "txferid"

abbrev pub any_key : Bytes → Bool
any_key key = true

abbrev pub send_key : Bytes → Bool
send_key key = bytes_eq key (codes "mode")

abbrev pub one_of : List Bytes → Bytes → Bool
one_of [] key = false
one_of (k ∷ ks) key = bytes_eq key k || one_of ks key

abbrev pub probe_keys : List Bytes
probe_keys =
    codes "cpu"
    ∷ codes "io-depth"
    ∷ codes "probe-bytes"
    ∷ codes "cts0"
    ∷ codes "sts0"
    ∷ codes "sts1"
    ∷ codes "wmem"
    ∷ codes "txferid"
    ∷ codes "obs-link-mbps"
    ∷ codes "gentle-cpu-pct"
    ∷ codes "gentle-bw-pct"
    ∷ codes "keep-alive"
    ∷ codes "keep-alive-ms"
    ∷ codes "target-request-bytes"
    ∷ codes "max-request-bytes"
    ∷ codes "max-sync-request-bytes"
    ∷ []

abbrev pub request_of : Verb → Params → Request
request_of v param = record { verb = v; params = param ∷ [] }

-- The cases TXFER and SYNC.
pub parse_directory : Verb → Failure → Failure → Bytes → Result Failure Request
unfolding options
parse_directory v bad_dir bad c = do
  (directory, rest) ← relabel (read_path_value c) bad_dir
  param ← options any_key bad rest (put key_directory directory [])
  ok (request_of v param)

-- The cases ACK, CXSUM and STATUS: one transfer id and nothing behind it.
unfoldable pub parse_txferid : Verb → Failure → Failure → Bytes → Result Failure Request
parse_txferid v missing extra c = do
  (txferid, rest) ← relabel (read_token c) missing
  guard (not (is_empty txferid)) missing
  guard (eof rest) extra
  ok (request_of v (put key_txferid txferid []))

unfoldable pub parse_send : Bytes → Result Failure Request
unfolding options
parse_send c = do
  (txferid, rest) ← relabel (read_token c) (bad_request "missing transfer id")
  guard (not (is_empty txferid)) (bad_request "missing transfer id")
  header ← options send_key (bad_request "invalid SEND option") rest (put key_txferid txferid [])
  ok (request_of send header)

abbrev pub is_blank : Bytes → Bool
is_blank s = is_empty (trim_space s)

pub parse_probe : Bytes → Result Failure Request
unfolding options
parse_probe c = do
  param ← options (one_of probe_keys) (bad_request "invalid PROBE arguments") c []
  guard
      (not (
        is_blank (get (codes "cpu") param)
        || (is_blank (get (codes "probe-bytes") param) || is_blank (get (codes "cts0") param))))
      (bad_request "invalid PROBE arguments")
  ok (request_of probe param)

-- The `switch` on the verb, behind the test for missing arguments.
unfoldable pub parse_args : Verb → Bytes → Result Failure Request
unfolding parse_directory parse_txferid parse_send parse_probe
parse_args unknown c = err (bad_command "unknown command")
parse_args auth c = ok (record { verb = auth; params = [] })
parse_args txfer c =
    parse_directory txfer (bad_request "invalid TXFER directory")
      (bad_request "invalid TXFER option") c
parse_args sync c =
    parse_directory sync (bad_request "invalid SYNC directory") (bad_request "invalid SYNC option")
      c
parse_args send c = parse_send c
parse_args ack c =
    parse_txferid ack (bad_request "invalid ACK arguments") (bad_request "unexpected ACK arguments")
      c
parse_args cxsum c =
    parse_txferid cxsum (bad_request "missing transfer id")
      (bad_request "unexpected CXSUM arguments") c
parse_args status c =
    if eof c
    then ok (request_of status [])
    else parse_txferid status (bad_request "missing transfer id")
        (bad_request "unexpected STATUS arguments") c
parse_args probe c = parse_probe c

abbrev pub may_be_bare : Verb → Bool
may_be_bare auth = true
may_be_bare status = true
may_be_bare v = false

unfoldable pub parse_request : Bytes → Result Failure Request
unfolding parse_args
parse_request payload = do
  (cmd, c) ← relabel (read_token payload) (bad_command "empty command")
  verb ← or_err (parse_verb cmd) (bad_command "unknown command")
  guard (not (eof c && not (may_be_bare verb))) (bad_request "missing command arguments")
  parse_args verb c
