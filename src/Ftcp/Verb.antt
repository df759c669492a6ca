-- ===== src/Ftcp/Verb.antt =====
-- internal/filexfer/ftcp/verb.go, and the protocol errors of errors.go.
use tx.Base.{◌≡◌, refl, ◌≢◌, Option, none, some, if◌then◌else◌, Bool}
use tx.Base.Bytes.{Bytes, codes, bytes_eq, trim_space, to_upper}
use Prim.Native.String.{String}

pub data Verb : Type 0 where
  unknown auth txfer send ack cxsum status probe sync : Verb

abbrev pub is_verb : String → Bytes → Bool
is_verb name s = bytes_eq s (codes name)

-- `none` is the error that `ParseVerb` returns beside `VerbUnknown`.
unfoldable pub parse_verb : Bytes → Option Verb
parse_verb token =
    let s = to_upper (trim_space token) in
    if is_verb "AUTH" s
    then some auth
    else (if is_verb "TXFER" s
        then some txfer
        else (if is_verb "SEND" s
            then some send
            else (if is_verb "ACK" s
                then some ack
                else (if is_verb "CXSUM" s
                    then some cxsum
                    else (if is_verb "STATUS" s
                        then some status
                        else (if is_verb "PROBE" s
                            then some probe
                            else (if is_verb "SYNC" s then some sync else none)))))))

pub verb_string : Verb → Bytes
verb_string unknown = codes "UNKNOWN"
verb_string auth = codes "AUTH"
verb_string txfer = codes "TXFER"
verb_string send = codes "SEND"
verb_string ack = codes "ACK"
verb_string cxsum = codes "CXSUM"
verb_string status = codes "STATUS"
verb_string probe = codes "PROBE"
verb_string sync = codes "SYNC"

-- A `protocolErr`. `stuck` is no Go value: a loop of the model ran out of fuel.
pub data Failure : Type 0 where
  protocol_err : String → String → Failure
  stuck : Failure

abbrev pub bad_command : String → Failure
bad_command = protocol_err "BAD_COMMAND"

abbrev pub bad_request : String → Failure
bad_request = protocol_err "BAD_REQUEST"

-- Every verb but the unknown one is read back from its wire spelling.
pub parse_verb-verb_string : (v : Verb) → v ≢ unknown → parse_verb (verb_string v) ≡ some v
unfolding parse_verb verb_string trim_space to_upper
parse_verb-verb_string unknown h = absurd (h refl)
parse_verb-verb_string auth h = refl
parse_verb-verb_string txfer h = refl
parse_verb-verb_string send h = refl
parse_verb-verb_string ack h = refl
parse_verb-verb_string cxsum h = refl
parse_verb-verb_string status h = refl
parse_verb-verb_string probe h = refl
parse_verb-verb_string sync h = refl
