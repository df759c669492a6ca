-- ===== src/Ftcp/Request/Shape.antt =====
-- The loops of ParseRequest in internal/filexfer/ftcp/request.go.
use tx.Base.{
  ℕ, zero, suc, ◌<◌, ◌≡◌, ◌≢◌, Bool, true, false, not, Option, none, some, [], Result, ok, err,
  ◌>>=◌, guard, or_err, if◌then◌else◌, length, arith, Bool-cases, Option-cases, Result-cases, inl,
  inr,
}
use tx.Base.Bytes.{Bytes, is_empty, cut}
use tx.Ftcp.Verb.{
  Verb, unknown, auth, txfer, send, ack, cxsum, status, probe, sync, parse_verb, Failure, stuck,
  bad_request, protocol_err,
}
use tx.Ftcp.Cursor.{CursorError, eof, read_token, read_path_value}
use tx.Ftcp.Cursor.Bounds.{read_token-shortens}
use tx.Ftcp.Params.{Params, put}
use tx.Ftcp.Request.{
  relabel, options_loop, options, parse_directory, parse_txferid, parse_send, parse_probe,
  parse_args, parse_request, request_of, any_key, send_key, one_of, probe_keys,
}
use Prim.Native.String.{String}

options_loop-ne-stuck :
    (keep : Bytes → Bool) (bad : Failure) (fuel : ℕ) (c : Bytes) (param : Params)
    → bad ≢ stuck
    → length c < fuel
    → options_loop keep bad fuel c param ≢ err stuck
unfolding options_loop
options_loop-ne-stuck keep bad zero c param nb h = absurd (omega arith)
options_loop-ne-stuck keep bad (suc fuel) c param nb h = elim (Bool-cases (eof c)) [
  | inl e ↦ rw (e, options_loop) (λ p. cc)
  | inr e ↦
      rw (e, options_loop)
        (elim (Result-cases (read_token c)) [
          | inr (x, r) ↦ rw r (λ p. nb (cc))
          | inl ((tok, rest), r) ↦ rw r (elim (Option-cases (cut b'=' tok)) [
            | inl n ↦ rw n (λ p. nb (cc))
            | inr ((key, val), s) ↦ rw s (
                options_loop-ne-stuck keep bad fuel rest
                  (if keep key then put key val param else param) nb
                  (omega (arith, read_token-shortens c tok rest r)))
          ])
        ])
]

options-ne-stuck :
    (keep : Bytes → Bool) (bad : Failure) (c : Bytes) (param : Params)
    → bad ≢ stuck
    → options keep bad c param ≢ err stuck
unfolding options
options-ne-stuck keep bad c param nb =
    options_loop-ne-stuck keep bad (suc (length c)) c param nb (omega arith)

-- A chain is not stuck if no step of it is.
bind-ne-stuck {ℓ κ} :
    {A : Type ℓ} {B : Type κ} (m : Result Failure A) (f : A → Result Failure B)
    → m ≢ err stuck
    → ((a : A) → f a ≢ err stuck)
    → (m >>= f) ≢ err stuck
bind-ne-stuck (ok a) f h k = k a
bind-ne-stuck (err e) f h k = λ p. h (cc)

relabel-ne-stuck {ℓ} :
    {A : Type ℓ} (r : Result CursorError A) (code text : String)
    → relabel r (protocol_err code text) ≢ err stuck
relabel-ne-stuck (ok a) code text p = cc
relabel-ne-stuck (err e) code text p = cc

guard-ne-stuck : (b : Bool) (code text : String) → guard b (protocol_err code text) ≢ err stuck
guard-ne-stuck true code text p = cc
guard-ne-stuck false code text p = cc

or_err-ne-stuck {ℓ} :
    {A : Type ℓ} (o : Option A) (code text : String) → or_err o (protocol_err code text) ≢ err stuck
or_err-ne-stuck none code text p = cc
or_err-ne-stuck (some a) code text p = cc

parse_directory-ne-stuck :
    (v : Verb) (a b : String) (c : Bytes)
    → parse_directory v (bad_request a) (bad_request b) c ≢ err stuck
unfolding parse_directory
parse_directory-ne-stuck v a b c =
    bind-ne-stuck _ _ (relabel-ne-stuck (read_path_value c) "BAD_REQUEST" a) (λ p.
      bind-ne-stuck _ _ (options-ne-stuck any_key (bad_request b) p.1 _ (λ q. cc)) (λ param q. cc))

parse_txferid-ne-stuck :
    (v : Verb) (a b : String) (c : Bytes)
    → parse_txferid v (bad_request a) (bad_request b) c ≢ err stuck
unfolding parse_txferid
parse_txferid-ne-stuck v a b c =
    bind-ne-stuck _ _ (relabel-ne-stuck (read_token c) "BAD_REQUEST" a) (λ p.
      bind-ne-stuck _ _ (guard-ne-stuck (not (is_empty p.0)) "BAD_REQUEST" a)
        (λ u. bind-ne-stuck _ _ (guard-ne-stuck (eof p.1) "BAD_REQUEST" b) (λ w q. cc)))

parse_send-ne-stuck : (c : Bytes) → parse_send c ≢ err stuck
unfolding parse_send
parse_send-ne-stuck c =
    bind-ne-stuck _ _ (relabel-ne-stuck (read_token c) "BAD_REQUEST" "missing transfer id") (λ p.
      bind-ne-stuck _ _ (guard-ne-stuck (not (is_empty p.0)) "BAD_REQUEST" "missing transfer id")
        (λ u.
          bind-ne-stuck _ _
            (options-ne-stuck send_key (bad_request "invalid SEND option") p.1 _ (λ q. cc))
            (λ w q. cc)))

parse_probe-ne-stuck : (c : Bytes) → parse_probe c ≢ err stuck
unfolding parse_probe
parse_probe-ne-stuck c =
    bind-ne-stuck _ _
      (options-ne-stuck (one_of probe_keys) (bad_request "invalid PROBE arguments") c [] (λ q. cc))
      (λ p.
        bind-ne-stuck _ _ (guard-ne-stuck _ "BAD_REQUEST" "invalid PROBE arguments")
          (λ w (q : ok (request_of probe p) ≡ err stuck). cc))

parse_args-ne-stuck : (v : Verb) (c : Bytes) → parse_args v c ≢ err stuck
unfolding parse_args
parse_args-ne-stuck unknown c = λ p. cc
parse_args-ne-stuck auth c = λ p. cc
parse_args-ne-stuck txfer c = parse_directory-ne-stuck txfer _ _ c
parse_args-ne-stuck sync c = parse_directory-ne-stuck sync _ _ c
parse_args-ne-stuck send c = parse_send-ne-stuck c
parse_args-ne-stuck ack c = parse_txferid-ne-stuck ack _ _ c
parse_args-ne-stuck cxsum c = parse_txferid-ne-stuck cxsum _ _ c
parse_args-ne-stuck status c = elim (Bool-cases (eof c)) [
  | inl e ↦ rw e (λ p. cc)
  | inr e ↦ rw e (parse_txferid-ne-stuck status _ _ c)
]
parse_args-ne-stuck probe c = parse_probe-ne-stuck c

-- ParseRequest answers every line: none of its loops runs out of rounds.
pub parse_request-ne-stuck : (payload : Bytes) → parse_request payload ≢ err stuck
unfolding parse_request
parse_request-ne-stuck payload =
    bind-ne-stuck _ _ (relabel-ne-stuck (read_token payload) "BAD_COMMAND" "empty command") (λ p.
      bind-ne-stuck _ _ (or_err-ne-stuck (parse_verb p.0) "BAD_COMMAND" "unknown command") (λ v.
        bind-ne-stuck _ _ (guard-ne-stuck _ "BAD_REQUEST" "missing command arguments")
          (λ w. parse_args-ne-stuck v p.1)))
