-- ===== src/Store.antt =====
-- The transfer store, internal/filexfer/store/store.go: a transfer's per-file state, its counters,
-- and the entry points that change them. Each call holds the transfer's lock from its lookup on, so
-- it is one step here; `now` is the time it reads and `ttl` the store's. The parallel slices of a
-- transfer, which always grow together, are one list of entries.
pub mod Acknowledge
pub mod Padding
pub mod Windows
pub mod Register
pub mod Weights
pub mod Consistent
use tx.Base.{
  ℕ, zero, suc, ◌+◌, ◌-◌, ◌^◌, ◌%◌, ◌≡◌, Bool, true, false, ◌&&◌, ◌||◌, not, Option, none, some,
  List, [], ◌∷◌, ◌++◌, if◌then◌else◌, ◌==◌, ltb, leb, length, get_elem?, set,
}
use tx.Base.Int.{ℤ, pos, negsuc, ◌+ℤ◌}
use tx.Base.Bytes.{Bytes, bytes_eq}

-- The lifecycle states: the block's first line takes iota 0.
abbrev pub started : ℕ
started = 1

abbrev pub running : ℕ
running = 2

abbrev pub done_state : ℕ
done_state = 3

abbrev pub missing_state : ℕ
missing_state = 4

abbrev pub entry_type_file : ℕ
entry_type_file = b'F'

abbrev pub root_file_id : ℕ
root_file_id = 0

pub record Entry : Type 0 where
  pub state : ℕ
  pub entry_type : ℕ
  pub path_hash : ℕ
  pub file_size : ℤ
  pub acked_size : ℕ

-- `state_counts s` is the slot of state `s` in `StateCounts`.
pub record Transfer : Type 0 where
  pub id : Bytes
  pub directory : Bytes
  pub num_entries : ℤ
  pub num_files : ℤ
  pub total_size : ℤ
  pub done : ℕ
  pub done_size : ℤ
  pub entries : List Entry
  pub state_counts : ℕ → ℤ
  pub expires_at : ℕ
  pub complete_logged : Bool

pub record WindowHash : Type 0 where
  pub file_id : ℕ
  pub end_bytes : ℤ
  pub hash_token : Bytes

pub record WindowState : Type 0 where
  pub file_id : ℕ
  pub end_bytes : ℤ
  pub token : Bytes
  pub window_expires : ℕ

pub record Managed : Type 0 where
  pub deleted : Bool
  pub transfer : Transfer
  pub window_hashes : List WindowState

-- An int64 sum wraps.
abbrev pub wrap_int64 : ℤ → ℤ
wrap_int64 (pos n) = let r = n % 2 ^ 64 in if ltb r (2 ^ 63) then pos r else negsuc (2 ^ 64 - 1 - r)
wrap_int64 (negsuc n) =
    let r = n % 2 ^ 64 in if ltb r (2 ^ 63) then negsuc r else pos (2 ^ 64 - 1 - r)

abbrev pub should_advance_state : ℕ → ℕ → Bool
should_advance_state current next = leb current next

abbrev pub is_regular_file_entry_type : ℕ → Bool
is_regular_file_entry_type entry_type = (entry_type == 0) || (entry_type == entry_type_file)

-- `countEntry`, for an entry that the caller has read.
pub count_entry : Transfer → Entry → ℤ → Transfer
count_entry t e delta = record t {
  state_counts = λ s.
      if (is_regular_file_entry_type e.entry_type && ltb e.state 5) && (s == e.state)
      then t.state_counts s +ℤ delta
      else t.state_counts s;
}

abbrev pub with_entry : Transfer → ℕ → Entry → Transfer
with_entry t idx e = record t { entries = set t.entries idx e }

-- `setState`, for the entry `e` that stands at `idx`.
pub set_state : Transfer → ℕ → Entry → ℕ → Transfer
unfolding count_entry
set_state t idx e state =
    let moved = record e { state = state } in
    count_entry (with_entry (count_entry t e (negsuc 0)) idx moved) moved (pos 1)

pub touch_locked : ℕ → ℕ → Transfer → Transfer
touch_locked ttl now t = record t { expires_at = now + ttl }

-- The store's map from transfer ids.
abbrev pub Store : Type 0
Store = List (Bytes × Managed)

abbrev pub find : Store → Bytes → Option Managed
find [] id = none
find ((k, m) ∷ s) id = if bytes_eq k id then some m else find s id

abbrev pub replace : Store → Bytes → Managed → Store
replace [] id m = []
replace ((k, old) ∷ s) id m = if bytes_eq k id then (k, m) ∷ s else (k, old) ∷ replace s id m

-- `getManagedTransfer`, with the test of `deleted` that each caller makes.
pub get_managed_transfer : Store → Bytes → Option Managed
get_managed_transfer s id = elim (find s id) [
  | none ↦ none
  | some m ↦ if m.deleted then none else some m
]
