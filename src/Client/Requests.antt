-- ===== src/Client/Requests.antt =====
-- Request bodies of client_requests.go: `encodeRequest` for one request, and
-- `visitEncodedRequests`, which cuts a list of items into bounded requests. Byte budgets are
-- positive int64s; a sum of two lengths stands for a comparison with a difference.
pub mod Chunks
pub mod Budget
use tx.Base.{
  ℕ, zero, suc, ◌+◌, Bool, true, false, ◌&&◌, not, List, [], ◌∷◌, ◌++◌, Result, ok, err, ◌>>=◌,
  ◌>>◌, guard, if◌then◌else◌, length, ltb, leb,
}
use tx.Base.Bytes.{Bytes, is_empty}

pub data RequestError (E : Type 0) : Type 0 where
  no_request_items item_too_large over_budget : RequestError E
  encode_failed visit_failed : E → RequestError E

pub record RequestChunk : Type 0 where
  pub lo : ℕ
  pub hi : ℕ
  pub body : Bytes
  pub max_bytes : ℕ

pub record RequestLimits : Type 0 where
  pub target : ℕ
  pub max_size : ℕ

abbrev encoded_or : {E : Type 0} → Result E Bytes → Result (RequestError E) Bytes
encoded_or (ok b) = ok b
encoded_or (err e) = err (encode_failed e)

abbrev visited_or {ℓ} : {E : Type 0} {S : Type ℓ} → Result E S → Result (RequestError E) S
visited_or (ok s) = ok s
visited_or (err e) = err (visit_failed e)

module _ {ℓ} {T : Type ℓ} {E : Type 0} (encode : T → Result E Bytes) where
  -- The loop of `encodeRequest`.
  unfoldable pub encode_loop : ℕ → List T → Bytes → Result (RequestError E) Bytes
  encode_loop max_bytes [] body = ok body
  encode_loop max_bytes (x ∷ xs) body = do
    encoded ← encoded_or (encode x)
    guard (leb (length encoded + length body) max_bytes) over_budget
    encode_loop max_bytes xs (body ++ encoded)

  unfoldable pub encode_request : ℕ → List T → Result (RequestError E) Bytes
  unfolding encode_loop
  encode_request max_bytes [] = err no_request_items
  encode_request max_bytes (x ∷ xs) = encode_loop max_bytes (x ∷ xs) []

-- The captured variables of `visitEncodedRequests`, with the visitor's own state.
pub record Batch {κ} (S : Type κ) : Type κ where
  pub body : Bytes
  pub lo : ℕ
  pub state : S

module _ {ℓ κ} {T : Type ℓ} {S : Type κ} {E : Type 0} (limits : RequestLimits)
    (encode : T → Result E Bytes) (visit : S → RequestChunk → Result E S) where
  -- `flush(hi)`
  pub flush : ℕ → Batch S → Result (RequestError E) (Batch S)
  flush hi b = do
    s ←
        visited_or (
          visit b.state (record { lo = b.lo; hi = hi; body = b.body; max_bytes = limits.max_size }))
    ok (record { body = []; lo = hi; state = s })

  -- One round of the loop, for the item at index `i`.
  pub add_item : ℕ → T → Batch S → Result (RequestError E) (Batch S)
  unfolding flush
  add_item i x b = do
    encoded ← encoded_or (encode x)
    guard (leb (length encoded) limits.max_size) item_too_large
    b' ←
        (if not (is_empty b.body) && ltb limits.max_size (length encoded + length b.body)
          then flush i b
          else ok b)
    let grown = record b' { body = b'.body ++ encoded }
    if leb limits.target (length grown.body) then flush (i + 1) grown else ok grown

  pub visit_loop : ℕ → List T → Batch S → Result (RequestError E) (Batch S)
  unfolding add_item
  visit_loop i [] b = if is_empty b.body then ok b else flush i b
  visit_loop i (x ∷ xs) b = do b' ← add_item i x b; visit_loop (i + 1) xs b'

  pub visit_encoded_requests : List T → S → Result (RequestError E) S
  unfolding visit_loop
  visit_encoded_requests [] s = err no_request_items
  visit_encoded_requests (x ∷ xs) s = do
    b ← visit_loop 0 (x ∷ xs) (record { body = []; lo = 0; state = s })
    ok b.state
