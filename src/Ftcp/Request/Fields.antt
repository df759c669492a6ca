-- ===== src/Ftcp/Request/Fields.antt =====
-- The requests that ParseRequest of internal/filexfer/ftcp/request.go accepts.
use tx.Base.{
  ℕ, zero, suc, ◌≡◌, ◌≢◌, refl, sym, subst, ◌∙◌, Bool, true, false, not, ◌&&◌, [], ◌∷◌, ok,
  if◌then◌else◌, length, arith, Bool-cases, Option-cases, Result-cases, inl, inr, ◌⊎◌,
}
use tx.Base.Bytes.{Bytes, bytes_eq, bytes_eq→eq, is_empty, cut}
use tx.Ftcp.Verb.{
  Verb, unknown, auth, txfer, send, ack, cxsum, status, probe, sync, parse_verb, Failure,
  bad_request,
}
use tx.Ftcp.Cursor.{eof, read_token, read_path_value}
use tx.Ftcp.Params.{Params, get, put, get-put_ne}
use tx.Ftcp.Request.{
  Request, options_loop, options, parse_directory, parse_txferid, parse_send, parse_probe,
  parse_args, parse_request, request_of, key_txferid, key_directory, any_key, send_key, one_of,
  probe_keys, may_be_bare,
}

-- A key that is stored is not one that is left out.
kept_differs :
    (keep : Bytes → Bool) (k key : Bytes)
    → keep k ≡ true
    → keep key ≡ false
    → bytes_eq k key ≡ false
kept_differs keep k key h n = elim (Bool-cases (bytes_eq k key)) [
  | inl e ↦ cc (h, n, bytes_eq→eq k key e)
  | inr e ↦ e
]

put_kept :
    (keep : Bytes → Bool) (k val key : Bytes) (param : Params)
    → keep key ≡ false
    → get key (if keep k then put k val param else param) ≡ get key param
put_kept keep k val key param n = elim (Bool-cases (keep k)) [
  | inl h ↦ rw h (get-put_ne k key val param (kept_differs keep k key h n))
  | inr h ↦ rw h
]

-- The options loop leaves a key that it does not keep as it was.
options_loop-keeps :
    (keep : Bytes → Bool) (bad : Failure) (fuel : ℕ) (c : Bytes) (param out : Params) (key : Bytes)
    → keep key ≡ false
    → options_loop keep bad fuel c param ≡ ok out
    → get key out ≡ get key param
unfolding options_loop
options_loop-keeps keep bad zero c param out key n e = cc
options_loop-keeps keep bad (suc fuel) c param out key n e = elim (Bool-cases (eof c)) [
  | inl end ↦ cc (rw (end, options_loop) at e)
  | inr more ↦ elim (Result-cases (read_token c)) [
    | inr (x, p) ↦ cc (rw p at (rw (more, options_loop) at e))
    | inl (tok, p) ↦ elim (Option-cases (cut b'=' tok.0)) [
      | inl q ↦ cc (rw q at (rw p at (rw (more, options_loop) at e)))
      | inr (kv, q) ↦
          options_loop-keeps keep bad fuel tok.1 (if keep kv.0 then put kv.0 kv.1 param else param)
            out key n (rw q at (rw p at (rw (more, options_loop) at e)))
          ∙ put_kept keep kv.0 kv.1 key param n
    ]
  ]
]

-- An AUTH without parameters, or one map of parameters of another known verb.
abbrev pub IsShaped : Request → Type 0
IsShaped r =
    ((r.verb ≡ auth) × (r.params ≡ []))
    ⊎ ((r.verb ≢ auth) × (r.verb ≢ unknown) × ((p : Params) × (r.params ≡ p ∷ [])))

request_of-IsShaped : (v : Verb) (p : Params) → v ≢ unknown → v ≢ auth → IsShaped (request_of v p)
request_of-IsShaped v p k b = inr (b, k, (p, refl))

parse_directory-fields :
    (v : Verb) (a b : Failure) (c : Bytes) (r : Request)
    → parse_directory v a b c ≡ ok r
    → (p : Params) × (r ≡ request_of v p)
unfolding parse_directory
parse_directory-fields v a b c r e = elim (Result-cases (read_path_value c)) [
  | inr (x, p) ↦ cc (rw p at e)
  | inl (d, p) ↦ elim (Result-cases (options any_key b d.1 (put key_directory d.0 []))) [
    | inr (x, q) ↦ cc (rw q at (rw p at e))
    | inl (m, q) ↦ (m, sym (cc (rw q at (rw p at e))))
  ]
]

-- The id that a request of one argument holds is the token that was read, and is not empty.
parse_txferid-fields :
    (v : Verb) (a b : Failure) (c : Bytes) (r : Request)
    → parse_txferid v a b c ≡ ok r
    → (id : Bytes) × (r ≡ request_of v (put key_txferid id [])) × (is_empty id ≡ false)
unfolding parse_txferid
parse_txferid-fields v a b c r e = elim (Result-cases (read_token c)) [
  | inr (x, p) ↦ cc (rw p at e)
  | inl (tok, p) ↦ let e' = rw p at e in (tok.0, ground arith, ground arith)
]

get-nil : (key : Bytes) → get key [] ≡ []
unfolding get
get-nil key = refl

-- A SEND holds the id, and no other key but the mode.
parse_send-fields :
    (c : Bytes) (r : Request)
    → parse_send c ≡ ok r
    → (p : Params) × (r ≡ request_of send p)
      × ((key : Bytes) → send_key key ≡ false → bytes_eq key_txferid key ≡ false → get key p ≡ [])
unfolding parse_send options
parse_send-fields c r e = elim (Result-cases (read_token c)) [
  | inr (x, h) ↦ cc (rw h at e)
  | inl (tok, h) ↦ elim (Bool-cases (is_empty tok.0)) [
    | inl g ↦ cc (rw g at (rw h at e))
    | inr g ↦
        elim (Result-cases (
          options_loop send_key (bad_request "invalid SEND option") (suc (length tok.1)) tok.1
            (put key_txferid tok.0 []))) [
              | inr (x, o) ↦ cc (rw o at (rw g at (rw h at e)))
              | inl (p, o) ↦ (
                p,
                sym (cc (rw o at (rw g at (rw h at e)))),
                λ key n t.
                    options_loop-keeps send_key (bad_request "invalid SEND option")
                      (suc (length tok.1)) tok.1 (put key_txferid tok.0 []) p key n o
                    ∙ (get-put_ne key_txferid key tok.0 [] t ∙ get-nil key),
              )
            ]
  ]
]

parse_probe-fields :
    (c : Bytes) (r : Request)
    → parse_probe c ≡ ok r
    → (p : Params) × (r ≡ request_of probe p)
      × ((key : Bytes) → one_of probe_keys key ≡ false → get key p ≡ [])
unfolding parse_probe options
parse_probe-fields c r e =
    elim (Result-cases (
      options_loop (one_of probe_keys) (bad_request "invalid PROBE arguments") (suc (length c)) c
        [])) [
          | inr (x, o) ↦ cc (rw o at e)
          | inl (p, o) ↦
              let e' = rw o at e in
              (
                p,
                ground arith,
                λ key n.
                    options_loop-keeps (one_of probe_keys) (bad_request "invalid PROBE arguments")
                      (suc (length c)) c [] p key n o
                    ∙ get-nil key,
              )
        ]

-- Whatever the verb, the request carries it, and one map unless it is AUTH.
parse_args-fields :
    (v : Verb) (c : Bytes) (r : Request)
    → parse_args v c ≡ ok r
    → (v ≢ unknown)
      × ((v ≡ auth) × (r ≡ record { verb = auth; params = [] })
          ⊎ (v ≢ auth) × ((p : Params) × (r ≡ request_of v p)))
unfolding parse_args
parse_args-fields unknown c r e = cc
parse_args-fields auth c r e = (λ p. cc, inl (refl, sym (cc)))
parse_args-fields txfer c r e = (λ p. cc, inr (λ p. cc, parse_directory-fields txfer _ _ c r e))
parse_args-fields sync c r e = (λ p. cc, inr (λ p. cc, parse_directory-fields sync _ _ c r e))
parse_args-fields send c r e =
    let (p, q, _) = parse_send-fields c r e in (λ p. cc, inr (λ p. cc, (p, q)))
parse_args-fields ack c r e =
    let (id, q, _) = parse_txferid-fields ack _ _ c r e in
    (λ p. cc, inr (λ p. cc, (put key_txferid id [], q)))
parse_args-fields cxsum c r e =
    let (id, q, _) = parse_txferid-fields cxsum _ _ c r e in
    (λ p. cc, inr (λ p. cc, (put key_txferid id [], q)))
parse_args-fields status c r e = elim (Bool-cases (eof c)) [
  | inl h ↦ (λ p. cc, inr (λ p. cc, ([], sym (cc (rw h at e)))))
  | inr h ↦
      let (id, q, _) = parse_txferid-fields status _ _ c r (rw h at e) in
      (λ p. cc, inr (λ p. cc, (put key_txferid id [], q)))
]
parse_args-fields probe c r e =
    let (p, q, _) = parse_probe-fields c r e in (λ p. cc, inr (λ p. cc, (p, q)))

parse_request-inv :
    (payload : Bytes) (r : Request)
    → parse_request payload ≡ ok r
    → (v : Verb) × (c : Bytes) × (parse_args v c ≡ ok r)
unfolding parse_request
parse_request-inv payload r e = elim (Result-cases (read_token payload)) [
  | inr (x, p) ↦ cc (rw p at e)
  | inl (tok, p) ↦ elim (Option-cases (parse_verb tok.0)) [
    | inl q ↦ cc (rw q at (rw p at e))
    | inr (v, q) ↦ elim (Bool-cases (not (eof tok.1 && not (may_be_bare v)))) [
      | inl g ↦ (v, tok.1, rw g at (rw q at (rw p at e)))
      | inr g ↦ cc (rw g at (rw q at (rw p at e)))
    ]
  ]
]

-- A request that ParseRequest accepts has a known verb; an AUTH has no parameters, and any other
-- verb has exactly one map of them.
pub parse_request-IsShaped :
    (payload : Bytes) (r : Request) → parse_request payload ≡ ok r → IsShaped r
parse_request-IsShaped payload r e =
    let (v, c, p) = parse_request-inv payload r e in
    let (known, shape) = parse_args-fields v c r p in
    elim shape [
      | inl (_, q) ↦ subst IsShaped (sym q) (inl (refl, refl))
      | inr (n, (m, q)) ↦ subst IsShaped (sym q) (request_of-IsShaped v m known n)
    ]

parse_args-send : (c : Bytes) (r : Request) → parse_args send c ≡ ok r → parse_send c ≡ ok r
unfolding parse_args
parse_args-send c r e = e

parse_args-ack :
    (c : Bytes) (r : Request)
    → parse_args ack c ≡ ok r
    → (id : Bytes) × (r ≡ request_of ack (put key_txferid id [])) × (is_empty id ≡ false)
unfolding parse_args
parse_args-ack c r e = parse_txferid-fields ack _ _ c r e

parse_args-cxsum :
    (c : Bytes) (r : Request)
    → parse_args cxsum c ≡ ok r
    → (id : Bytes) × (r ≡ request_of cxsum (put key_txferid id [])) × (is_empty id ≡ false)
unfolding parse_args
parse_args-cxsum c r e = parse_txferid-fields cxsum _ _ c r e

parse_args-verb : (v : Verb) (c : Bytes) (r : Request) → parse_args v c ≡ ok r → r.verb ≡ v
parse_args-verb v c r e = elim (parse_args-fields v c r e).1 [
  | inl (a, q) ↦ cc
  | inr (n, (m, q)) ↦ cc
]

-- An accepted SEND has one map of parameters, in which any key but the transfer id and the mode
-- reads as empty, whatever options the line has.
pub parse_request-send_keys :
    (payload : Bytes) (r : Request) (key : Bytes)
    → parse_request payload ≡ ok r
    → r.verb ≡ send
    → send_key key ≡ false
    → bytes_eq key_txferid key ≡ false
    → (p : Params) × (r.params ≡ p ∷ []) × (get key p ≡ [])
parse_request-send_keys payload r key e s m t =
    let (v, c, a) = parse_request-inv payload r e in
    let v_eq : v ≡ send = cc (parse_args-verb v c r a) in
    let (p, q, k) = parse_send-fields c r (parse_args-send c r (rw v_eq at a)) in (p, cc, k key m t)

-- An ACK or a CXSUM holds a transfer id that is not empty.
pub parse_request-txferid :
    (payload : Bytes) (r : Request)
    → parse_request payload ≡ ok r
    → (r.verb ≡ ack) ⊎ (r.verb ≡ cxsum)
    → (id : Bytes) × (r.params ≡ put key_txferid id [] ∷ []) × (is_empty id ≡ false)
parse_request-txferid payload r e s =
    let (v, c, a) = parse_request-inv payload r e in
    elim s [
      | inl h ↦
          let v_eq : v ≡ ack = cc (parse_args-verb v c r a) in
          let (id, q, k) = parse_args-ack c r (rw v_eq at a) in (id, cc, k)
      | inr h ↦
          let v_eq : v ≡ cxsum = cc (parse_args-verb v c r a) in
          let (id, q, k) = parse_args-cxsum c r (rw v_eq at a) in (id, cc, k)
    ]
