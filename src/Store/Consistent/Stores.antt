-- ===== src/Store/Consistent/Stores.antt =====
-- The transfers of a store under `AcknowledgeTransferFiles` and `SetTransferFilesState` of
-- internal/filexfer/store/store.go.
use tx.Base.{ℕ, ◌<◌, ◌≡◌, false, some, List, [], ◌∷◌, All, Bool-cases, Option-cases, inl, inr}
use tx.Base.Int.{ℤ}
use tx.Base.Bytes.{Bytes, bytes_eq}
use tx.Store.{Managed, Store, done_state, find, replace, get_managed_transfer}
use tx.Store.Acknowledge.{
  AckEntry, first_ids, group, acknowledge_entries, acknowledge_group, acknowledge_groups,
  acknowledge_transfer_files, advance_files, set_transfer_files_state,
}
use tx.Store.Consistent.{IsConsistent, touch_locked-IsConsistent}
use tx.Store.Consistent.Runs.{acknowledge_entries-IsConsistent, advance_files-IsConsistent}

-- The counters of every transfer agree with its entries.
abbrev pub AllConsistent : Store → Type 0
AllConsistent s = All (λ (p : Bytes × Managed). IsConsistent p.1.transfer) s

find-IsConsistent :
    (s : Store) (id : Bytes) (m : Managed)
    → AllConsistent s
    → find s id ≡ some m
    → IsConsistent m.transfer
find-IsConsistent [] id m v h = cc
find-IsConsistent ((k, x) ∷ s) id m (v, vs) h = elim (Bool-cases (bytes_eq k id)) [
  | inl p ↦ let e : some x ≡ some m = (rw p at h) in let q : m ≡ x = cc in rw q v
  | inr p ↦ find-IsConsistent s id m vs (rw p at h)
]

get_managed_transfer-IsConsistent :
    (s : Store) (id : Bytes) (m : Managed)
    → AllConsistent s
    → get_managed_transfer s id ≡ some m
    → IsConsistent m.transfer
unfolding get_managed_transfer
get_managed_transfer-IsConsistent s id m v h = elim (Option-cases (find s id)) [
  | inl p ↦ cc (rw (p, get_managed_transfer) at h)
  | inr (x, p) ↦ elim (Bool-cases x.deleted) [
    | inl d ↦ cc (rw d at (rw (p, get_managed_transfer) at h))
    | inr d ↦
        let e : some (record x { deleted = false }) ≡ some m =
          (rw d at (rw (p, get_managed_transfer) at h)) in
        let q : m ≡ record x { deleted = false } = cc in rw q (find-IsConsistent s id x v p)
  ]
]

replace-AllConsistent :
    (s : Store) (id : Bytes) (m : Managed)
    → AllConsistent s
    → IsConsistent m.transfer
    → AllConsistent (replace s id m)
replace-AllConsistent [] id m v h = tt
replace-AllConsistent ((k, x) ∷ s) id m (v, vs) h = elim (Bool-cases (bytes_eq k id)) [
  | inl p ↦ rw p (h, vs)
  | inr p ↦ rw p (v, replace-AllConsistent s id m vs h)
]

module _ (ttl now : ℕ) where
  acknowledge_group-AllConsistent :
      (s : Store) (id : Bytes) (es : List (ℕ × ℤ))
      → AllConsistent s
      → AllConsistent (acknowledge_group ttl now s id es).1
  unfolding acknowledge_group
  acknowledge_group-AllConsistent s id es v = elim (Option-cases (get_managed_transfer s id)) [
    | inl p ↦ rw (p, acknowledge_group) v
    | inr (m, p) ↦
        rw (p, acknowledge_group)
          (replace-AllConsistent s id (acknowledge_entries ttl now m es).1 v (
            acknowledge_entries-IsConsistent ttl now m es
              (get_managed_transfer-IsConsistent s id m v p)))
  ]

  acknowledge_groups-AllConsistent :
      (s : Store) (ids : List Bytes) (es : List AckEntry)
      → AllConsistent s
      → AllConsistent (acknowledge_groups ttl now s ids es).1
  unfolding acknowledge_groups
  acknowledge_groups-AllConsistent s [] es v = v
  acknowledge_groups-AllConsistent s (id ∷ ids) es v =
      acknowledge_groups-AllConsistent (acknowledge_group ttl now s id (group id es)).1 ids es
        (acknowledge_group-AllConsistent s id (group id es) v)

  -- Where in every transfer of the store the counters are what a scan of its entries gives, no file
  -- is acknowledged beyond its size, and the number of entries and the sum of their sizes are below
  -- 2^63, that is so after any acknowledgements of any transfers, known and unknown ones.
  pub acknowledge_transfer_files-AllConsistent :
      (s : Store) (es : List AckEntry)
      → AllConsistent s
      → AllConsistent (acknowledge_transfer_files ttl now s es).1
  unfolding acknowledge_transfer_files
  acknowledge_transfer_files-AllConsistent s es v =
      acknowledge_groups-AllConsistent s (first_ids [] es) es v

  -- Where in every transfer of the store the counters are what a scan of its entries gives, no file
  -- is acknowledged beyond its size, and the number of entries and the sum of their sizes are below
  -- 2^63, that is so after any files of one transfer are advanced to a state before Done.
  pub set_transfer_files_state-AllConsistent :
      (s : Store) (id : Bytes) (ids : List ℕ) (state : ℕ)
      → state < done_state
      → AllConsistent s
      → AllConsistent (set_transfer_files_state ttl now s id ids state).1
  unfolding set_transfer_files_state
  set_transfer_files_state-AllConsistent s id ids state h v =
      elim (Option-cases (get_managed_transfer s id)) [
        | inl p ↦ rw (p, set_transfer_files_state) v
        | inr (m, p) ↦
            let w =
              advance_files-IsConsistent m.transfer state ids h
                (get_managed_transfer-IsConsistent s id m v p) in
            elim (Bool-cases (advance_files m.transfer state ids).1) [
              | inl q ↦
                  rw (p, set_transfer_files_state)
                    (rw q (replace-AllConsistent s id _ v (touch_locked-IsConsistent ttl now _ w)))
              | inr q ↦ rw (p, set_transfer_files_state) (rw q (replace-AllConsistent s id _ v w))
            ]
      ]
