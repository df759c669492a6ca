-- ===== src/Store/Windows.antt =====
-- Window hashes: `SetTransferFileWindowHashes` and `VerifyTransferFileWindowHashes` of store.go. The
-- map of a transfer's hashes is an association list with one entry for a key.
use tx.Base.{
  ℕ, ◌+◌, ◌≤◌, ◌<◌, ◌≡◌, ◌≢◌, ◌⊎◌, ◌↔◌, refl, ap, ◌∙◌, All, ==→eq, Bool, true, false, ◌&&◌, not,
  Option, none, some, List, [], ◌∷◌, if◌then◌else◌, ◌==◌, ltb, length, map, arith, ==-self,
  Bool-cases, inl, inr, get_elem?, min,
}
use tx.Base.Int.{ℤ, pos, negsuc, is_neg}
use tx.Base.Bytes.{Bytes, is_empty, trim_space, cut, bytes_eq}
use tx.Store.{
  Entry, Managed, WindowHash, WindowState, Store, get_managed_transfer, replace, missing_state,
}
use tx.Store.Padding.{
  IsWord, Padded, SameLetters, lower_byte, trim_space-Padded, SameLetters→eq, eq→SameLetters,
}
use tx.Ftcp.Items.RoundTrip.{IsGraphic}
use tx.Store.Acknowledge.{int_eq, delete_window, acknowledge_file_locked, clamp}

-- `validHashToken` of the store: a text with something on both sides of its first colon.
unfoldable pub valid_window_token : Bytes → Bool
valid_window_token raw =
    let token = trim_space raw in
    if is_empty token then false else elim (cut b':' token) [
      | none ↦ false
      | some (algo, digest) ↦ not (is_empty (trim_space algo)) && not (is_empty (trim_space digest))
    ]

abbrev pub has_key : ℕ → ℤ → WindowState → Bool
has_key file_id end_bytes w = (w.file_id == file_id) && int_eq w.end_bytes end_bytes

abbrev pub get_window : ℕ → ℤ → List WindowState → Option WindowState
get_window file_id end_bytes [] = none
get_window file_id end_bytes (w ∷ ws) =
    if has_key file_id end_bytes w then some w else get_window file_id end_bytes ws

abbrev pub put_window : WindowState → List WindowState → List WindowState
put_window v [] = v ∷ []
put_window v (w ∷ ws) = if has_key v.file_id v.end_bytes w then v ∷ ws else w ∷ put_window v ws

abbrev pub is_recordable : Managed → WindowHash → Bool
is_recordable m h =
    valid_window_token h.hash_token
    && (ltb h.file_id (length m.transfer.entries) && not (is_neg h.end_bytes))

-- `strings.ToLower` of Go's library is the argument.
module _ (to_lower : Bytes → Bytes) where
  unfoldable pub normalize_hash_token : Bytes → Bytes
  normalize_hash_token raw = to_lower (trim_space raw)

  abbrev pub window_of : ℕ → WindowHash → WindowState
  window_of expires_at h = record {
    file_id = h.file_id;
    end_bytes = h.end_bytes;
    token = normalize_hash_token h.hash_token;
    window_expires = expires_at;
  }

  -- The loop of `SetTransferFileWindowHashes`, with the hashes' expiry.
  pub record_hashes : ℕ → Managed → List WindowHash → Bool × Managed
  record_hashes expires_at m [] = (true, m)
  record_hashes expires_at m (h ∷ hs) =
      let m₁ =
        if is_recordable m h
        then record m { window_hashes = put_window (window_of expires_at h) m.window_hashes }
        else m in
      let (all, m₂) = record_hashes expires_at m₁ hs in (is_recordable m h && all, m₂)

  pub set_transfer_file_window_hashes :
      (ttl now : ℕ) → Store → Bytes → List WindowHash → Bool × Store
  set_transfer_file_window_hashes ttl now s id hs = elim (get_managed_transfer s id) [
    | none ↦ (false, s)
    | some m ↦ let (all, m₁) = record_hashes (now + ttl) m hs in (all, replace s id m₁)
  ]

  pub verify_hash : Managed → WindowHash → Bool
  verify_hash m h =
      if is_neg h.end_bytes
      then false
      else elim (get_window h.file_id h.end_bytes m.window_hashes) [
        | none ↦ false
        | some w ↦ bytes_eq w.token (normalize_hash_token h.hash_token)
      ]

  pub verify_transfer_file_window_hashes : Store → Bytes → List WindowHash → List Bool
  unfolding verify_hash
  verify_transfer_file_window_hashes s id hs = elim (get_managed_transfer s id) [
    | none ↦ map (λ _. false) hs
    | some m ↦ map (verify_hash m) hs
  ]

int_eq_self : (z : ℤ) → int_eq z z ≡ true
int_eq_self (pos n) = ==-self n
int_eq_self (negsuc n) = ==-self n

get_window-put_window :
    (v : WindowState) (ws : List WindowState)
    → get_window v.file_id v.end_bytes (put_window v ws) ≡ some v
get_window-put_window v [] = rw (==-self v.file_id, int_eq_self v.end_bytes) refl
get_window-put_window v (w ∷ ws) = elim (Bool-cases (has_key v.file_id v.end_bytes w)) [
  | inl k ↦ rw (k, ==-self v.file_id, int_eq_self v.end_bytes) refl
  | inr k ↦ rw (k, k) (get_window-put_window v ws)
]

get_window-delete_window :
    (file_id : ℕ) (end_bytes : ℤ) (ws : List WindowState)
    → get_window file_id end_bytes (delete_window file_id end_bytes ws) ≡ none
get_window-delete_window file_id end_bytes [] = refl
get_window-delete_window file_id end_bytes (w ∷ ws) =
    elim (Bool-cases (has_key file_id end_bytes w)) [
      | inl k ↦ rw k (get_window-delete_window file_id end_bytes ws)
      | inr k ↦ rw (k, k) (get_window-delete_window file_id end_bytes ws)
    ]

not_neg : (m : Managed) (h : WindowHash) → is_recordable m h ≡ true → is_neg h.end_bytes ≡ false
not_neg m h r = ground arith

target_eq : (n size : ℕ) → n ≤ size → min n size ≡ n
target_eq n size l = omega arith

acknowledge_file_locked-windows :
    (ttl now : ℕ) (m : Managed) (file_id : ℕ) (e : Entry) (n : ℕ)
    → m.deleted ≡ false
    → get_elem? m.transfer.entries file_id ≡ some e
    → (e.state == missing_state) ≡ false
    → (acknowledge_file_locked ttl now m file_id (pos n)).1.window_hashes
      ≡ delete_window file_id (pos (min n (clamp e.file_size))) m.window_hashes
unfolding acknowledge_file_locked
acknowledge_file_locked-windows ttl now m file_id e n d g s = rw (d, g, s) refl

-- What Go documents of ToLower on ASCII text.
abbrev pub LowersAscii : (Bytes → Bytes) → Type 0
LowersAscii to_lower = (s : Bytes) → All (λ c. c < 128) s → to_lower s ≡ map lower_byte s

-- A hash of another window.
abbrev pub IsOther : WindowHash → WindowHash → Type 0
IsOther h g = (g.file_id ≢ h.file_id) ⊎ (g.end_bytes ≢ h.end_bytes)

int_eq→eq : (a b : ℤ) → int_eq a b ≡ true → a ≡ b
int_eq→eq (pos a) (pos b) h = ap pos (==→eq a b h)
int_eq→eq (negsuc a) (negsuc b) h = ap negsuc (==→eq a b h)
int_eq→eq (pos a) (negsuc b) h = absurd (cc)
int_eq→eq (negsuc a) (pos b) h = absurd (cc)

has_key-same :
    (file_id : ℕ) (end_bytes : ℤ) (w : WindowState)
    → has_key file_id end_bytes w ≡ true
    → (w.file_id ≡ file_id) × (w.end_bytes ≡ end_bytes)
has_key-same file_id end_bytes w h = elim (Bool-cases (w.file_id == file_id)) [
  | inl e ↦ (==→eq w.file_id file_id e, int_eq→eq w.end_bytes end_bytes ((rw e at h)))
  | inr e ↦ absurd (let k : false ≡ true = (rw e at h) in cc)
]

get_window-put_other :
    (file_id : ℕ) (end_bytes : ℤ) (v : WindowState) (ws : List WindowState)
    → has_key file_id end_bytes v ≡ false
    → get_window file_id end_bytes (put_window v ws) ≡ get_window file_id end_bytes ws
get_window-put_other file_id end_bytes v [] h = rw h refl
get_window-put_other file_id end_bytes v (w ∷ ws) h =
    elim (Bool-cases (has_key v.file_id v.end_bytes w)) [
      | inl k ↦
          let (p, q) = has_key-same v.file_id v.end_bytes w k in
          let o : has_key file_id end_bytes w ≡ false = rw (p, q) h in rw k (rw (h, o) refl)
      | inr k ↦ rw k (elim (Bool-cases (has_key file_id end_bytes w)) [
        | inl o ↦ rw o refl
        | inr o ↦ rw o (get_window-put_other file_id end_bytes v ws h)
      ])
    ]

graphic-ascii : (s : Bytes) → All IsGraphic s → All (λ c. c < 128) s
graphic-ascii [] h = tt
graphic-ascii (c ∷ s) (g, h) = (omega arith, graphic-ascii s h)

module _ (to_lower : Bytes → Bytes) where
  window_of-other :
      (expires_at : ℕ) (h g : WindowHash)
      → IsOther h g
      → has_key h.file_id h.end_bytes (window_of to_lower expires_at g) ≡ false
  window_of-other expires_at h g o =
      elim (Bool-cases (has_key h.file_id h.end_bytes (window_of to_lower expires_at g))) [
        | inr e ↦ e
        | inl e ↦
            let (p, q) = has_key-same h.file_id h.end_bytes (window_of to_lower expires_at g) e in
            absurd (elim o [ inl n ↦ n p | inr n ↦ n q ])
      ]

  record_hashes-other :
      (expires_at : ℕ) (m : Managed) (h : WindowHash) (gs : List WindowHash)
      → All (IsOther h) gs
      → get_window h.file_id h.end_bytes (record_hashes to_lower expires_at m gs).1.window_hashes
        ≡ get_window h.file_id h.end_bytes m.window_hashes
  unfolding record_hashes
  record_hashes-other expires_at m h [] a = refl
  record_hashes-other expires_at m h (g ∷ gs) (o, a) = elim (Bool-cases (is_recordable m g)) [
    | inl r ↦ rw r (
        record_hashes-other expires_at
          (record m {
            window_hashes = put_window (window_of to_lower expires_at g) m.window_hashes;
          })
          h gs a
        ∙ get_window-put_other h.file_id h.end_bytes (window_of to_lower expires_at g)
            m.window_hashes (window_of-other expires_at h g o))
    | inr r ↦ rw r (record_hashes-other expires_at m h gs a)
  ]

  normalize-Padded :
      LowersAscii to_lower
      → (word raw : Bytes) → IsWord word
      → Padded word raw
      → normalize_hash_token to_lower raw ≡ map lower_byte word
  unfolding normalize_hash_token
  normalize-Padded l word raw w p =
      ap to_lower (trim_space-Padded word raw w p) ∙ l word (graphic-ascii word w.0)

  verify_hash-recorded :
      (expires_at : ℕ) (m : Managed) (h : WindowHash) (gs : List WindowHash) (token : Bytes)
      → is_recordable m h ≡ true
      → All (IsOther h) gs
      → verify_hash to_lower
          (record_hashes to_lower expires_at m (h ∷ gs)).1
          (record h { hash_token = token })
        ≡ bytes_eq
            (normalize_hash_token to_lower h.hash_token)
            (normalize_hash_token to_lower token)
  unfolding verify_hash record_hashes
  verify_hash-recorded expires_at m h gs token r o =
      let v = window_of to_lower expires_at h in
      let m₁ = record m { window_hashes = put_window v m.window_hashes } in
      let k = record_hashes-other expires_at m₁ h gs o in
      rw (r, not_neg m h r, k, get_window-put_window v m.window_hashes) refl

  -- Where ToLower lowers the letters of ASCII text: a window hash that the store records, in one call with
  -- hashes of other windows behind it, verifies afterwards at the same end with exactly the tokens
  -- that are the same letter for letter, whatever their case and the white space around either of
  -- them, when both are words of visible ASCII.
  pub verify_hash-record_hashes :
      LowersAscii to_lower
      → (expires_at : ℕ) (m : Managed) (h : WindowHash) (gs : List WindowHash) (token : Bytes)
        (recorded given : Bytes)
      → is_recordable m h ≡ true
      → All (IsOther h) gs
      → IsWord recorded
      → IsWord given
      → Padded recorded h.hash_token
      → Padded given token
      → (verify_hash to_lower
            (record_hashes to_lower expires_at m (h ∷ gs)).1
            (record h { hash_token = token })
          ≡ true)
        ↔ SameLetters recorded given
  verify_hash-record_hashes l expires_at m h gs token recorded given r o v w p q =
      rw
        (
          verify_hash-recorded expires_at m h gs token r o,
          normalize-Padded l recorded h.hash_token v p,
          normalize-Padded l given token w q,
        )
        (eq→SameLetters recorded given, SameLetters→eq recorded given)

  verify_hash-none :
      (m : Managed) (h : WindowHash)
      → get_window h.file_id h.end_bytes m.window_hashes ≡ none
      → verify_hash to_lower m h ≡ false
  unfolding verify_hash
  verify_hash-none m h g = elim (Bool-cases (is_neg h.end_bytes)) [
    | inl p ↦ rw p refl
    | inr p ↦ rw (p, g) refl
  ]

  -- In a transfer that is not deleted, an ACK of no more bytes than the size of a file that is not
  -- missing uses up its window: no token verifies for that end afterwards.
  pub verify_hash-acknowledge_file_locked :
      (ttl now : ℕ) (m : Managed) (h : WindowHash) (e : Entry) (n : ℕ)
      → m.deleted ≡ false
      → get_elem? m.transfer.entries h.file_id ≡ some e
      → (e.state == missing_state) ≡ false
      → n ≤ clamp e.file_size
      → h.end_bytes ≡ pos n
      → verify_hash to_lower (acknowledge_file_locked ttl now m h.file_id (pos n)).1 h ≡ false
  verify_hash-acknowledge_file_locked ttl now m h e n d g s l p =
      verify_hash-none (acknowledge_file_locked ttl now m h.file_id (pos n)).1 h (
        rw
          (
            p,
            acknowledge_file_locked-windows ttl now m h.file_id e n d g s,
            target_eq n (clamp e.file_size) l,
          )
          (get_window-delete_window h.file_id (pos n) m.window_hashes))
