-- ===== src/Store/Acknowledge.antt =====
-- Acknowledgements, state advances and completion: `AcknowledgeTransferFiles`,
-- `acknowledgeFileLocked`, `SetTransferFilesState` and `MaybeLogTransferComplete` of store.go.
use tx.Base.{
  ℕ, ◌+◌, ◌-◌, ◌^◌, ◌%◌, Bool, true, false, ◌&&◌, ◌||◌, not, none, some, List, [], ◌∷◌, ◌++◌,
  if◌then◌else◌, ◌==◌, ltb, leb, get_elem?, set, min,
}
use tx.Base.Int.{ℤ, pos, negsuc, ◌+ℤ◌, leb_ℤ}
use tx.Base.Bytes.{Bytes, bytes_eq}
use tx.Client.Items.{is_minus_one}
use tx.Store.{
  running, done_state, missing_state, Entry, Transfer, Managed, WindowState, Store, wrap_int64,
  should_advance_state, is_regular_file_entry_type, set_state, touch_locked, get_managed_transfer,
  replace,
}

-- A negative size or count of bytes counts as zero.
abbrev pub clamp : ℤ → ℕ
clamp (pos n) = n
clamp (negsuc n) = 0

abbrev pub int_eq : ℤ → ℤ → Bool
int_eq (pos a) (pos b) = a == b
int_eq (negsuc a) (negsuc b) = a == b
int_eq (pos a) (negsuc b) = false
int_eq (negsuc a) (pos b) = false

abbrev pub delete_window : ℕ → ℤ → List WindowState → List WindowState
delete_window file_id end_bytes [] = []
delete_window file_id end_bytes (w ∷ ws) =
    if (w.file_id == file_id) && int_eq w.end_bytes end_bytes
    then delete_window file_id end_bytes ws
    else w ∷ delete_window file_id end_bytes ws

abbrev pub plus_one : ℕ → ℕ
plus_one n = (n + 1) % 2 ^ 64

-- A file that was acknowledged missing is running again.
unfoldable pub revive : Transfer → ℕ → Entry → Transfer
revive t idx e =
    let t₁ = set_state t idx e running in
    if ltb 0 t₁.done then record t₁ { done = t₁.done - 1 } else t₁

abbrev pub grown : Entry → ℕ → Entry
grown e target = if ltb e.acked_size target then record e { acked_size = target } else e

-- One file of `SetTransferFilesState`: was its id in range, did it advance, and what is left.
unfoldable pub advance_file : Transfer → ℕ → ℕ → Bool × Bool × Transfer
advance_file t state file_id = elim (get_elem? t.entries file_id) [
  | none ↦ (false, false, t)
  | some e ↦
      if not (should_advance_state e.state state) || (e.state == state)
      then (true, false, t)
      else (true, true, set_state t file_id e state)
]

unfoldable pub advance_files : Transfer → ℕ → List ℕ → Bool × Bool × Transfer
advance_files t state [] = (true, false, t)
advance_files t state (file_id ∷ ids) =
    let (in_range, moved, t₁) = advance_file t state file_id in
    let (all, any, t₂) = advance_files t₁ state ids in (in_range && all, moved || any, t₂)

pub record AckEntry : Type 0 where
  pub txfer_id : Bytes
  pub file_id : ℕ
  pub ack_bytes : ℤ

abbrev pub member : Bytes → List Bytes → Bool
member id [] = false
member id (x ∷ xs) = bytes_eq x id || member id xs

-- `order`: the ids of the transfers as they first appear.
abbrev pub first_ids : List Bytes → List AckEntry → List Bytes
first_ids order [] = order
first_ids order (e ∷ es) =
    first_ids (if member e.txfer_id order then order else order ++ (e.txfer_id ∷ [])) es

-- `grouped[id]`
abbrev pub group : Bytes → List AckEntry → List (ℕ × ℤ)
group id [] = []
group id (e ∷ es) =
    let rest = group id es in
    if bytes_eq e.txfer_id id then (e.file_id, e.ack_bytes) ∷ rest else rest

module _ (ttl now : ℕ) where
  unfoldable pub acknowledge_missing : Transfer → ℕ → Entry → Transfer
  acknowledge_missing t idx e =
      if should_advance_state e.state missing_state
      then (let t₁ = set_state t idx e missing_state in
          if not ((e.state == done_state) || (e.state == missing_state))
            && is_regular_file_entry_type e.entry_type
          then touch_locked ttl now (record t₁ { done = plus_one t₁.done })
          else t₁)
      else t

  -- The acknowledged bytes grow to `target`.
  unfoldable pub grow_acked : Transfer → ℕ → Entry → ℕ → Transfer
  grow_acked t idx e target =
      if ltb e.acked_size target
      then touch_locked ttl now (record t {
        entries = set t.entries idx (record e { acked_size = target });
        done_size = wrap_int64 (t.done_size +ℤ pos (target - e.acked_size));
      })
      else t

  -- The completion rule, for the entry that `grow_acked` left.
  unfoldable pub complete_entry : Transfer → ℕ → Entry → Transfer
  complete_entry t idx e =
      if leb (clamp e.file_size) e.acked_size
        && (ltb e.state done_state && is_regular_file_entry_type e.entry_type)
      then (let t₁ = set_state t idx e done_state in
          touch_locked ttl now (record t₁ { done = plus_one t₁.done }))
      else t

  unfoldable pub acknowledge_received : Transfer → ℕ → Entry → ℕ → Transfer
  acknowledge_received t idx e target =
      complete_entry (grow_acked t idx e target) idx (grown e target)

  unfoldable pub acknowledge_file_locked : Managed → ℕ → ℤ → Bool × Managed
  acknowledge_file_locked m file_id ack_bytes =
      if m.deleted then (false, m) else elim (get_elem? m.transfer.entries file_id) [
        | none ↦ (false, m)
        | some e ↦
            let is_missing = e.state == missing_state in
            if is_missing
              && (is_minus_one ack_bytes || not (is_regular_file_entry_type e.entry_type))
            then (true, m)
            else (let t = if is_missing then revive m.transfer file_id e else m.transfer in
                let e₁ = if is_missing then record e { state = running } else e in
                let target = min (clamp ack_bytes) (clamp e.file_size) in
                if is_minus_one ack_bytes
                then (true, record m { transfer = acknowledge_missing t file_id e₁ })
                else (
                  true,
                  record m {
                    transfer = acknowledge_received t file_id e₁ target;
                    window_hashes = delete_window file_id (pos target) m.window_hashes;
                  },
                ))
      ]

  -- The entries of one transfer, in order.
  unfoldable pub acknowledge_entries : Managed → List (ℕ × ℤ) → Bool × Managed
  acknowledge_entries m [] = (true, m)
  acknowledge_entries m ((file_id, ack_bytes) ∷ es) =
      let (one, m₁) = acknowledge_file_locked m file_id ack_bytes in
      let (rest, m₂) = acknowledge_entries m₁ es in (one && rest, m₂)

  -- The entries of one transfer, where the store has it.
  unfoldable pub acknowledge_group : Store → Bytes → List (ℕ × ℤ) → Bool × Store
  acknowledge_group s id es = elim (get_managed_transfer s id) [
    | none ↦ (false, s)
    | some m ↦ let (all, m₁) = acknowledge_entries m es in (all, replace s id m₁)
  ]

  -- The groups in the order of their ids.
  unfoldable pub acknowledge_groups : Store → List Bytes → List AckEntry → Bool × Store
  acknowledge_groups s [] es = (true, s)
  acknowledge_groups s (id ∷ ids) es =
      let (one, s₁) = acknowledge_group s id (group id es) in
      let (rest, s₂) = acknowledge_groups s₁ ids es in (one && rest, s₂)

  unfoldable pub acknowledge_transfer_files : Store → List AckEntry → Bool × Store
  acknowledge_transfer_files s es = acknowledge_groups s (first_ids [] es) es

  unfoldable pub set_transfer_files_state : Store → Bytes → List ℕ → ℕ → Bool × Store
  set_transfer_files_state s id ids state = elim (get_managed_transfer s id) [
    | none ↦ (false, s)
    | some m ↦
        let (all, any, t) = advance_files m.transfer state ids in
        (all, replace s id (record m { transfer = (if any then touch_locked ttl now t else t) }))
  ]

-- `MaybeLogTransferComplete`: is the transfer complete, and the store after it is logged.
unfoldable maybe_log_transfer_complete : Store → Bytes → Bool × Store
maybe_log_transfer_complete s id = elim (get_managed_transfer s id) [
  | none ↦ (false, s)
  | some m ↦
      let t = m.transfer in
      if t.complete_logged
      then (true, s)
      else (if leb_ℤ t.num_files (pos 0) || not (int_eq t.num_files (pos t.done))
          then (false, s)
          else (true, replace s id (record m { transfer = record t { complete_logged = true } })))
]
