-- ===== src/Store/Register.antt =====
-- `RegisterTransferFileStates` of store.go. Optional page-cache hints are left out.
use tx.Base.{
  ℕ, zero, suc, ◌+◌, ◌-◌, Bool, true, false, ◌&&◌, ◌||◌, not, none, some, List, [], ◌∷◌, ◌++◌,
  if◌then◌else◌, ◌==◌, ltb, leb, length, get_elem?,
}
use tx.Base.Int.{ℤ, pos, negsuc, ◌+ℤ◌}
use tx.Base.Bytes.{Bytes}
use tx.Store.{
  started, root_file_id, Entry, Transfer, Store, wrap_int64, should_advance_state,
  is_regular_file_entry_type, count_entry, with_entry, touch_locked, get_managed_transfer, replace,
}

pub record FileStateUpdate : Type 0 where
  pub file_id : ℕ
  pub entry_type : ℕ
  pub path_hash : ℕ
  pub file_size : ℤ

-- The zero entry that a slice grows by, in the state Started.
abbrev pub gap_entry : Entry
gap_entry = record {
  state = started;
  entry_type = 0;
  path_hash = 0;
  file_size = pos 0;
  acked_size = 0;
}

-- `ensureLen`, for the number of entries to add.
unfoldable pub grow : ℕ → Transfer → Transfer
grow zero t = t
grow (suc n) t =
    grow n (count_entry (record t { entries = t.entries ++ (gap_entry ∷ []) }) gap_entry (pos 1))

abbrev pub negate : ℤ → ℤ
negate (pos zero) = pos zero
negate (pos (suc n)) = negsuc n
negate (negsuc n) = pos (suc n)

abbrev pub registered : ℕ → FileStateUpdate → Entry → Entry
registered state u e = record {
  state = (if should_advance_state e.state state then state else e.state);
  entry_type = u.entry_type;
  path_hash = u.path_hash;
  file_size = u.file_size;
  acked_size = e.acked_size;
}

-- The change of `NumFiles`.
abbrev pub files_delta : Bool → Bool → ℤ
files_delta false true = pos 1
files_delta true false = negsuc 0
files_delta a b = pos 0

-- The update of the entry `e` that stands at its index, with the length before it was made to fit.
unfoldable pub register_entry : Transfer → ℕ → ℕ → FileStateUpdate → Entry → Transfer
register_entry t old_len state u e =
    let was_regular = ltb u.file_id old_len && is_regular_file_entry_type e.entry_type in
    let is_new = not (u.file_id == root_file_id) && leb old_len u.file_id in
    let e₁ = registered state u e in
    let t₁ = count_entry (with_entry (count_entry t e (negsuc 0)) u.file_id e₁) e₁ (pos 1) in
    record t₁ {
      num_entries = (if is_new then t₁.num_entries +ℤ pos 1 else t₁.num_entries);
      num_files = t₁.num_files +ℤ files_delta was_regular (is_regular_file_entry_type u.entry_type);
      total_size = wrap_int64 (t₁.total_size +ℤ wrap_int64 (u.file_size +ℤ negate e.file_size));
    }

-- One round of the loop: was an entry added, and the transfer after it. `int(update.FileID)` is the id
-- itself below 2^63; the panic of the code on a larger id, or one for which memory runs out, is left out.
unfoldable pub register_one : ℕ → Transfer → FileStateUpdate → Bool × Transfer
unfolding register_entry grow
register_one state t u =
    let old_len = length t.entries in
    let t₁ = grow (u.file_id + 1 - old_len) t in
    elim (get_elem? t₁.entries u.file_id) [
      | none ↦ (false, t₁)
      | some e ↦ (leb old_len u.file_id, register_entry t₁ old_len state u e)
    ]

unfoldable pub register_all : ℕ → Transfer → List FileStateUpdate → Bool × Transfer
register_all state t [] = (false, t)
register_all state t (u ∷ us) =
    let (one, t₁) = register_one state t u in
    let (rest, t₂) = register_all state t₁ us in (one || rest, t₂)

unfoldable register_transfer_file_states :
    (ttl now : ℕ) → Store → Bytes → List FileStateUpdate → ℕ → Store
register_transfer_file_states ttl now s id [] state = s
register_transfer_file_states ttl now s id (u ∷ us) state = elim (get_managed_transfer s id) [
  | none ↦ s
  | some m ↦
      let (added, t) = register_all state m.transfer (u ∷ us) in
      replace s id (record m { transfer = (if added then touch_locked ttl now t else t) })
]
