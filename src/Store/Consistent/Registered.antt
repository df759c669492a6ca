-- ===== src/Store/Consistent/Registered.antt =====
-- `StateCounts` under `RegisterTransferFileStates` of internal/filexfer/store/store.go.
use tx.Base.{
  ℕ, zero, suc, ◌+◌, ◌-◌, ◌≡◌, sym, ap, ◌∙◌, List, [], ◌∷◌, ◌++◌, length, get_elem?, arith,
  Option-cases, inl, inr,
}
use tx.Base.Int.{pos}
use tx.Store.{Entry, Transfer, count_entry}
use tx.Store.Register.{
  FileStateUpdate, gap_entry, grow, registered, register_entry, register_one, register_all,
}
use tx.Store.Weights.{total, at_state}
use tx.Store.Consistent.{Counts, slot, all_slots, count_entry-up, replaced-Counts}

total_snoc :
    (w : Entry → ℕ) (es : List Entry) (e : Entry) → total w (es ++ (e ∷ [])) ≡ total w es + w e
total_snoc w [] e = omega arith
total_snoc w (x ∷ es) e = omega (arith, total_snoc w es e)

grow-Counts : (n : ℕ) (t : Transfer) → Counts t → Counts (grow n t)
unfolding grow count_entry
grow-Counts zero t c = c
grow-Counts (suc n) t c =
    let t₁ = record t { entries = t.entries ++ (gap_entry ∷ []) } in
    let t₂ = count_entry t₁ gap_entry (pos 1) in
    grow-Counts n t₂ (
      all_slots t₂ (λ s h.
        count_entry-up t₁ gap_entry s (total (at_state s) t.entries) h (slot t c s h)
        ∙ ap pos (sym (total_snoc (at_state s) t.entries gap_entry))))

register_one-Counts :
    (state : ℕ) (t : Transfer) (u : FileStateUpdate) → Counts t → Counts (register_one state t u).1
unfolding register_one register_entry count_entry
register_one-Counts state t u c =
    let t₁ = grow (u.file_id + 1 - length t.entries) t in
    let c₁ = grow-Counts (u.file_id + 1 - length t.entries) t c in
    elim (Option-cases (get_elem? t₁.entries u.file_id)) [
      | inl g ↦ rw (g, register_one) c₁
      | inr (e, g) ↦
          rw (g, register_one)
            (all_slots (register_entry t₁ (length t.entries) state u e)
              (λ s h. replaced-Counts t₁ u.file_id e (registered state u e) g c₁ s h))
    ]

-- Where every slot of `StateCounts` is the number of regular entries in that state, it is so after
-- any batch of updates is registered, of new entries or known ones, in any order of their ids.
pub register_all-Counts :
    (state : ℕ) (t : Transfer) (us : List FileStateUpdate)
    → Counts t
    → Counts (register_all state t us).1
unfolding register_all
register_all-Counts state t [] c = c
register_all-Counts state t (u ∷ us) c =
    register_all-Counts state (register_one state t u).1 us (register_one-Counts state t u c)
