-- ===== src/Ftcp/Ack/Handle.antt =====
-- `validateACKRecords` and `handleACKWithInput` of ack.go. The store is reached through the calls
-- of `Deps`, which the section takes; a lookup's error is the one that `mapLookupError` gives.
use tx.Base.{
  ℕ, ◌≡◌, refl, sym, ◌⊎◌, inl, inr, Bool, true, false, ◌&&◌, ◌||◌, not, List, [], ◌∷◌, Result, ok,
  err, ◌>>=◌, ◌>>◌, guard, if◌then◌else◌, map, min, Bool-cases, Result-cases,
}
use tx.Base.Int.{ℤ, pos, is_neg, pos_part}
use tx.Base.Bytes.{Bytes, is_empty}
use tx.Ftcp.Verb.{Failure, protocol_err, stuck, bad_request}
use tx.Ftcp.Request.{Request}
use tx.Ftcp.Items.{ack_item_keys, parse_request_item_records}
use tx.Ftcp.Ack.{AckRecord, ack_transfer_id, ack_record_of}
use tx.Store.{WindowHash}

-- A file's size, or why it cannot be resolved.
abbrev pub Ref : Type 0
Ref = Result Failure ℤ

abbrev pub window_hash : AckRecord → ℤ → WindowHash
window_hash r size = record {
  file_id = r.file_id;
  end_bytes = pos (min (pos_part r.ack_bytes) (pos_part size));
  hash_token = r.hash_token;
}

-- The hashes that `validateACKRecords` asks the store to verify.
pub collect_hashes : List AckRecord → List Ref → List WindowHash
collect_hashes [] refs = []
collect_hashes (r ∷ rs) [] = []
collect_hashes (r ∷ rs) (err e ∷ refs) = collect_hashes rs refs
collect_hashes (r ∷ rs) (ok size ∷ refs) =
    let rest = collect_hashes rs refs in
    if not (is_neg r.ack_bytes) && not (is_empty r.hash_token)
    then window_hash r size ∷ rest
    else rest

-- The second loop; `verified` is what is left from `next` on. `stuck` stands for an index that is
-- out of range.
pub check_records : List AckRecord → List Ref → List Bool → Result Failure (Unit {0})
check_records [] refs verified = ok tt
check_records (r ∷ rs) [] verified = err stuck
check_records (r ∷ rs) (err e ∷ refs) verified = err e
check_records (r ∷ rs) (ok size ∷ refs) verified =
    let skipped = check_records rs refs verified in
    if is_neg r.ack_bytes
    then skipped
    else (if is_empty r.hash_token
        then err (bad_request "missing window ack hash token")
        else elim verified [
          | [] ↦ err stuck
          | v ∷ vs ↦
              let rest = check_records rs refs vs in
              if v then rest else err (protocol_err "CONFLICT" "window ack hash token mismatch")
        ])

-- A record that may be applied: a missing file, or received bytes whose window hash verifies.
abbrev pub Accepted : (WindowHash → Bool) → AckRecord → Ref → Type 0
Accepted verify r ref =
    (size : ℤ) × (ref ≡ ok size)
    × ((is_neg r.ack_bytes ≡ true)
        ⊎ ((is_empty r.hash_token ≡ false) × (verify (window_hash r size) ≡ true)))

abbrev pub AllAccepted : (WindowHash → Bool) → List AckRecord → List Ref → Type 0
AllAccepted verify [] refs = Unit
AllAccepted verify (r ∷ rs) [] = ⊥
AllAccepted verify (r ∷ rs) (ref ∷ refs) = Accepted verify r ref × AllAccepted verify rs refs

-- Where the hashes that the first loop collects are verified one by one, the second loop accepts the
-- records only if each of them names a file that resolves and has a window hash that verifies or
-- reports the file missing.
pub check_records-AllAccepted :
    (verify : WindowHash → Bool) (rs : List AckRecord) (refs : List Ref)
    → check_records rs refs (map verify (collect_hashes rs refs)) ≡ ok tt
    → AllAccepted verify rs refs
unfolding check_records collect_hashes
check_records-AllAccepted verify [] refs h = tt
check_records-AllAccepted verify (r ∷ rs) [] h = cc
check_records-AllAccepted verify (r ∷ rs) (err e ∷ refs) h = cc
check_records-AllAccepted verify (r ∷ rs) (ok size ∷ refs) h =
    elim (Bool-cases (is_neg r.ack_bytes)) [
      | inl n ↦ ((size, refl, inl n), check_records-AllAccepted verify rs refs (rw n at h))
      | inr n ↦ elim (Bool-cases (is_empty r.hash_token)) [
        | inl e ↦ cc (rw (n, e) at h)
        | inr e ↦ elim (Bool-cases (verify (window_hash r size))) [
          | inl v ↦ (
            (size, refl, inr (e, v)),
            check_records-AllAccepted verify rs refs (rw (n, e, v) at h),
          )
          | inr v ↦ cc (rw (n, e, v) at h)
        ]
      ]
    ]

-- What `validateACKRecords` asks of the store.
abbrev pub lookups : List AckRecord → List (ℕ × Bytes)
lookups [] = []
lookups (r ∷ rs) = (r.file_id, r.path) ∷ lookups rs

abbrev pub ack_entries : List AckRecord → List (ℕ × ℤ)
ack_entries [] = []
ack_entries (r ∷ rs) = (r.file_id, r.ack_bytes) ∷ ack_entries rs

abbrev pub has_none : List AckRecord → Bool
has_none [] = true
has_none (r ∷ rs) = false

abbrev pub any_progress : List AckRecord → Bool
any_progress [] = false
any_progress (r ∷ rs) = not (is_neg r.ack_bytes) || any_progress rs

-- The calls of `Deps` that the handler makes; those that change the store return the new one.
pub record Deps (S : Type 0) : Type 0 where
  pub get_file_refs : S → Bytes → List (ℕ × Bytes) → List Ref
  pub verify_hashes : S → Bytes → List WindowHash → List Bool
  pub acknowledge : S → Bytes → List (ℕ × ℤ) → Bool × S
  pub log_progress : S → Bytes → S
  pub log_complete : S → Bytes → Bool × S

module _ {S : Type 0} (deps : Deps S) where
  pub validate_ack_records : S → Bytes → List AckRecord → Result Failure (Unit {0})
  validate_ack_records s id records =
      let refs = deps.get_file_refs s id (lookups records) in
      check_records records refs (deps.verify_hashes s id (collect_hashes records refs))

  -- Everything before the store is changed: the records to apply.
  pub checked_records : S → Request → Bytes → Result Failure (Bytes × List AckRecord)
  unfolding validate_ack_records
  checked_records s req body = do
    id ← ack_transfer_id req
    records ← parse_request_item_records ack_item_keys (ack_record_of id) body
    guard (not (has_none records)) (bad_request "ACK requires at least one item")
    _ ← validate_ack_records s id records
    ok (id, records)

  -- `handleACKWithInput` up to its events: the reply and the store after it.
  pub handle_ack : S → Request → Bytes → Result Failure (Unit {0}) × S
  unfolding checked_records
  handle_ack s req body = elim (checked_records s req body) [
    | err e ↦ (err e, s)
    | ok (id, records) ↦
        let (all, s₁) = deps.acknowledge s id (ack_entries records) in
        let s₂ = if any_progress records then deps.log_progress s₁ id else s₁ in
        let (complete, s₃) = deps.log_complete s₂ id in
        (guard all (protocol_err "INTERNAL" "failed to acknowledge file progress"), s₃)
  ]

  checked_records-eq-ok :
      (s : S) (req : Request) (body id : Bytes) (records : List AckRecord)
      → checked_records s req body ≡ ok (id, records)
      → (ack_transfer_id req ≡ ok id)
        × (parse_request_item_records ack_item_keys (ack_record_of id) body ≡ ok records)
        × (validate_ack_records s id records ≡ ok tt)
  unfolding checked_records
  checked_records-eq-ok s req body id records h = elim (Result-cases (ack_transfer_id req)) [
    | inr (e, p) ↦ cc (rw p at h)
    | inl (id', p) ↦
        elim (Result-cases (parse_request_item_records ack_item_keys (ack_record_of id') body)) [
          | inr (e, q) ↦ cc (rw q at (rw p at h))
          | inl (rs, q) ↦ elim (Bool-cases (has_none rs)) [
            | inl n ↦ cc (rw n at (rw q at (rw p at h)))
            | inr n ↦ elim (Result-cases (validate_ack_records s id' rs)) [
              | inr (e, v) ↦ cc (rw v at (rw n at (rw q at (rw p at h))))
              | inl (u, v) ↦
                  let same : ok (id', rs) ≡ ok (id, records) =
                    (rw v at (rw n at (rw q at (rw p at h)))) in
                  let i : id' ≡ id = cc in let r : rs ≡ records = cc in rw (sym i, sym r) (p, q, v)
            ]
          ]
        ]
  ]

  -- Where the store verifies hashes one by one, an ACK changes the store only if its body parses and
  -- every record in it was accepted against the store as it was before: its file resolves, and it
  -- reports the file missing or has a window hash that verifies.
  pub handle_ack-AllAccepted :
      (s : S) (req : Request) (body : Bytes) (verify : Bytes → WindowHash → Bool)
      → ((id : Bytes) (hs : List WindowHash) → deps.verify_hashes s id hs ≡ map (verify id) hs)
      → ((handle_ack s req body).1 ≡ s)
        ⊎ ((id : Bytes) × (records : List AckRecord) × (ack_transfer_id req ≡ ok id)
            × (parse_request_item_records ack_item_keys (ack_record_of id) body ≡ ok records)
            × AllAccepted (verify id) records (deps.get_file_refs s id (lookups records)))
  unfolding handle_ack validate_ack_records
  handle_ack-AllAccepted s req body verify law = elim (Result-cases (checked_records s req body)) [
    | inr (e, p) ↦ inl (rw (p, handle_ack) refl)
    | inl ((id, records), p) ↦
        let (a, b, c) = checked_records-eq-ok s req body id records p in
        let refs = deps.get_file_refs s id (lookups records) in
        inr (
          id,
          records,
          a,
          b,
          check_records-AllAccepted (verify id) records refs
              (rw (law id (collect_hashes records refs)) at c),
        )
  ]
