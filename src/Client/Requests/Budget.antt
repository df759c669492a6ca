-- ===== src/Client/Requests/Budget.antt =====
-- `encodeRequest` of client_requests.go against its byte budget.
use tx.Base.{
  ℕ, ◌+◌, ◌≤◌, ◌≡◌, refl, sym, ◌∙◌, List, [], ◌∷◌, ◌++◌, Result, ok, length, leb, leb→le,
  length-append, arith, Bool-cases, Result-cases, inl, inr,
}
use tx.Base.Bytes.{Bytes}
use tx.Client.Requests.{encode_loop, encode_request}
use tx.Client.Requests.Chunks.{encode_all}
use mathlib.Core.List.{append-nil, append_assoc}

module _ {ℓ} {T : Type ℓ} {E : Type 0} (encode : T → Result E Bytes) (max_bytes : ℕ) where
  encode_loop-fits :
      (xs : List T) (body out : Bytes)
      → length body ≤ max_bytes
      → encode_loop encode max_bytes xs body ≡ ok out
      → (rest : Bytes) × (encode_all encode xs ≡ ok rest)
        × (out ≡ body ++ rest)
        × (length out ≤ max_bytes)
  unfolding encode_loop
  encode_loop-fits [] body out h e =
      let q : out ≡ body = cc in ([], refl, q ∙ sym (append-nil body), rw q h)
  encode_loop-fits (x ∷ xs) body out h e = elim (Result-cases (encode x)) [
    | inr (f, p) ↦ cc (rw p at e)
    | inl (b, p) ↦ elim (Bool-cases (leb (length b + length body) max_bytes)) [
      | inr g ↦ cc (rw g at (rw p at e))
      | inl g ↦
          let (rest, all, q, l) =
            encode_loop-fits xs (body ++ b) out
              (omega (arith, length-append body b, leb→le (length b + length body) max_bytes g))
              (rw g at (rw p at e)) in
          (b ++ rest, rw (p, all) refl, q ∙ append_assoc body b rest, l)
    ]
  ]

  -- A request that is encoded within a budget holds the encodings of all its items, joined in order,
  -- and is no longer than the budget.
  pub encode_request-fits :
      (xs : List T) (out : Bytes)
      → encode_request encode max_bytes xs ≡ ok out
      → (encode_all encode xs ≡ ok out) × (length out ≤ max_bytes)
  unfolding encode_request
  encode_request-fits [] out e = cc
  encode_request-fits (x ∷ xs) out e =
      let (rest, all, q, l) = encode_loop-fits (x ∷ xs) [] out (omega arith) e in (rw q all, l)
