-- ===== src/Store/Consistent/Runs.antt =====
-- A transfer's counters under `acknowledgeFileLocked`, the loop of `AcknowledgeTransferFiles` and the
-- loop of `SetTransferFilesState` of internal/filexfer/store/store.go.
use tx.Base.{
  ℕ, ◌≤◌, ◌<◌, ◌≡◌, refl, sym, ap, ◌∙◌, Bool, true, false, ◌&&◌, ◌||◌, not, some, List, [], ◌∷◌,
  ◌==◌, leb, ltb, get_elem?, set, arith, get_elem?-set_self, length-set, Bool-cases, Option-cases,
  inl, inr, ==→eq, ltb→lt, min,
}
use tx.Base.Int.{ℤ, pos}
use tx.Store.{
  Entry, Transfer, is_regular_file_entry_type, done_state, running, missing_state, set_state,
  touch_locked, should_advance_state,
}
use tx.Store.Acknowledge.{
  clamp, revive, acknowledge_missing, grow_acked, complete_entry, grown, acknowledge_received,
  plus_one,
}
use tx.Store.Weights.{at_state, settled, acked, size, total-set, get→lt, total≤total, All-set}
use tx.Store.{Managed}
use tx.Client.Items.{is_minus_one}
use tx.Store.Acknowledge.{acknowledge_file_locked, acknowledge_entries, advance_file, advance_files}
use tx.Store.Consistent.{
  IsConsistent, IsCapped, count_up, wrap_small, set_state-fields, moved-IsConsistent,
  touch_locked-IsConsistent, done_small, plus_one-suc, total-same, revive-IsConsistent, and_false,
  revive-get, slot, all_slots,
}

and_parts : (a b : Bool) → a && b ≡ true → (a ≡ true) × (b ≡ true)
and_parts true b h = (refl, h)
and_parts false b h = cc

terminal : (s : ℕ) → (s == done_state) || (s == missing_state) ≡ true → leb done_state s ≡ true
terminal s h = ground arith

unsettled :
    (s : ℕ)
    → leb s missing_state ≡ true
    → (s == done_state) || (s == missing_state) ≡ false
    → leb done_state s ≡ false
unsettled s p h = ground arith

below_done : (s : ℕ) → ltb s done_state ≡ true → leb done_state s ≡ false
below_done s h = ground arith

or_not : (a b : Bool) → a || not b ≡ false → (a ≡ false) × (b ≡ true)
or_not true b h = cc
or_not false true h = (refl, refl)
or_not false false h = cc

below :
    (old new : ℕ)
    → new < done_state
    → not (should_advance_state old new) || (old == new) ≡ false
    → leb done_state old ≡ false
below old new h p = ground arith

module _ (ttl now : ℕ) where
  acknowledge_missing-IsConsistent :
      (t : Transfer) (i : ℕ) (e : Entry)
      → get_elem? t.entries i ≡ some e
      → IsConsistent t
      → IsConsistent (acknowledge_missing ttl now t i e)
  unfolding acknowledge_missing
  acknowledge_missing-IsConsistent t i e g v =
      let t₁ = set_state t i e missing_state in
      let (en, dn, ds) = set_state-fields t i e missing_state in
      let kept = λ (h : settled e ≡ settled (record e { state = missing_state })).
        moved-IsConsistent t i e missing_state t₁.done g v (rw dn (omega (arith, h))) in
      elim (Bool-cases (should_advance_state e.state missing_state)) [
        | inr p ↦ rw p v
        | inl p ↦ elim (Bool-cases (is_regular_file_entry_type e.entry_type)) [
          | inr r ↦
              rw (p, r, and_false (not ((e.state == done_state) || (e.state == missing_state))))
                (kept (rw r refl))
          | inl r ↦ elim (Bool-cases ((e.state == done_state) || (e.state == missing_state))) [
            | inl q ↦ let l = terminal e.state q in rw (p, r, q) (kept (rw (r, l) refl))
            | inr q ↦
                let l = unsettled e.state p q in
                rw (p, r, q)
                  (touch_locked-IsConsistent ttl now _ (
                    moved-IsConsistent t i e missing_state (plus_one t₁.done) g v
                      (rw (dn, r, l) (omega (arith, plus_one-suc t.done (done_small t v))))))
          ]
        ]
      ]

  grow_acked-IsConsistent :
      (t : Transfer) (i : ℕ) (e : Entry) (target : ℕ)
      → get_elem? t.entries i ≡ some e
      → IsConsistent t
      → target ≤ size e
      → IsConsistent (grow_acked ttl now t i e target)
        × (get_elem? (grow_acked ttl now t i e target).entries i ≡ some (grown e target))
  unfolding grow_acked touch_locked
  grow_acked-IsConsistent t i e target g v h = elim (Bool-cases (ltb e.acked_size target)) [
    | inr p ↦ rw p (v, g)
    | inl p ↦
        let e' = record e { acked_size = target } in
        let sum = total-set acked t.entries i e e' g in
        let caps =
          total≤total acked size (set t.entries i e')
            (All-set IsCapped t.entries i e' v.capped h) in
        let sizes = total-same size t.entries i e e' g refl in
        rw p (
          record {
            counts =
                all_slots (record t { entries = set t.entries i e' })
                  (λ s k.
                    slot t v.counts s k
                    ∙ ap pos (sym (total-same (at_state s) t.entries i e e' g refl)));
            done_count = v.done_count ∙ sym (total-same settled t.entries i e e' g refl);
            bytes =
                rw (v.bytes, count_up)
                  (wrap_small _
                      (omega (arith, sum, caps, sizes, v.sized, ltb→lt e.acked_size target p))
                    ∙ ap pos (omega (arith, sum, ltb→lt e.acked_size target p)));
            capped = All-set IsCapped t.entries i e' v.capped h;
            slots = rw (length-set t.entries i e') v.slots;
            sized = rw sizes v.sized;
          },
          get_elem?-set_self t.entries i e' (get→lt t.entries i e g),
        )
  ]

  complete_entry-IsConsistent :
      (t : Transfer) (i : ℕ) (e : Entry)
      → get_elem? t.entries i ≡ some e
      → IsConsistent t
      → IsConsistent (complete_entry ttl now t i e)
  unfolding complete_entry
  complete_entry-IsConsistent t i e g v =
      let t₁ = set_state t i e done_state in
      let (en, dn, ds) = set_state-fields t i e done_state in
      elim (Bool-cases (
        leb (clamp e.file_size) e.acked_size
        && (ltb e.state done_state && is_regular_file_entry_type e.entry_type))) [
          | inr p ↦ rw p v
          | inl p ↦
              let (c, q) =
                and_parts (leb (clamp e.file_size) e.acked_size)
                  (ltb e.state done_state && is_regular_file_entry_type e.entry_type) p in
              let (b, r) =
                and_parts (ltb e.state done_state) (is_regular_file_entry_type e.entry_type) q in
              let l = below_done e.state b in
              rw p (
                touch_locked-IsConsistent ttl now _ (
                  moved-IsConsistent t i e done_state (plus_one t₁.done) g v
                    (rw (dn, r, l) (omega (arith, plus_one-suc t.done (done_small t v))))))
        ]

  acknowledge_received-IsConsistent :
      (t : Transfer) (i : ℕ) (e : Entry) (target : ℕ)
      → get_elem? t.entries i ≡ some e
      → IsConsistent t
      → target ≤ size e
      → IsConsistent (acknowledge_received ttl now t i e target)
  unfolding acknowledge_received
  acknowledge_received-IsConsistent t i e target g v h =
      let (w, k) = grow_acked-IsConsistent t i e target g v h in
      complete_entry-IsConsistent (grow_acked ttl now t i e target) i (grown e target) k w

  -- Both kinds of acknowledgement, for the entry that stands at the index.
  acknowledged-IsConsistent :
      (m : Managed) (t : Transfer) (i : ℕ) (e : Entry) (ack : ℤ)
      → get_elem? t.entries i ≡ some e
      → IsConsistent t
      → IsConsistent (acknowledge_missing ttl now t i e)
        × IsConsistent (acknowledge_received ttl now t i e (min (clamp ack) (clamp e.file_size)))
  acknowledged-IsConsistent m t i e ack g v = (
    acknowledge_missing-IsConsistent t i e g v,
    acknowledge_received-IsConsistent t i e (min (clamp ack) (clamp e.file_size)) g v (omega arith),
  )

  -- Where `StateCounts`, `Done` and `DoneSize` are what a scan of the entries gives, no file is
  -- acknowledged beyond its size, and the number of entries and the sum of their sizes are below
  -- 2^63, an acknowledgement of any file id with any int64 leaves all of that so.
  pub acknowledge_file_locked-IsConsistent :
      (m : Managed) (file_id : ℕ) (ack : ℤ)
      → IsConsistent m.transfer
      → IsConsistent (acknowledge_file_locked ttl now m file_id ack).1.transfer
  unfolding acknowledge_file_locked
  acknowledge_file_locked-IsConsistent m file_id ack v = elim (Bool-cases m.deleted) [
    | inl d ↦ rw d v
    | inr d ↦ elim (Option-cases (get_elem? m.transfer.entries file_id)) [
      | inl g ↦ rw (d, g) v
      | inr (e, g) ↦ elim (Bool-cases (e.state == missing_state)) [
        | inr k ↦
            let (w, x) = acknowledged-IsConsistent m m.transfer file_id e ack g v in
            elim (Bool-cases (is_minus_one ack)) [
              | inl a ↦ rw (d, g, k, a) w
              | inr a ↦ rw (d, g, k, a) x
            ]
        | inl k ↦
            elim (Bool-cases (is_minus_one ack || not (is_regular_file_entry_type e.entry_type))) [
              | inl a ↦ rw (d, g, k, a) v
              | inr a ↦
                  let (not_minus, r) =
                    or_not (is_minus_one ack) (is_regular_file_entry_type e.entry_type) a in
                  let w =
                    revive-IsConsistent m.transfer file_id e g v (==→eq e.state missing_state k)
                      r in
                  let e₁ = record e { state = running } in
                  rw (d, g, k, not_minus, r)
                    (acknowledged-IsConsistent m (revive m.transfer file_id e) file_id e₁ ack
                      (revive-get m.transfer file_id e g) w).1
            ]
      ]
    ]
  ]

  -- A list of acknowledgements of one transfer.
  pub acknowledge_entries-IsConsistent :
      (m : Managed) (es : List (ℕ × ℤ))
      → IsConsistent m.transfer
      → IsConsistent (acknowledge_entries ttl now m es).1.transfer
  unfolding acknowledge_entries
  acknowledge_entries-IsConsistent m [] v = v
  acknowledge_entries-IsConsistent m ((file_id, ack) ∷ es) v =
      acknowledge_entries-IsConsistent (acknowledge_file_locked ttl now m file_id ack).1 es
        (acknowledge_file_locked-IsConsistent m file_id ack v)

advance_file-IsConsistent :
    (t : Transfer) (state file_id : ℕ)
    → state < done_state
    → IsConsistent t
    → IsConsistent (advance_file t state file_id).2
unfolding advance_file
advance_file-IsConsistent t state i h v = elim (Option-cases (get_elem? t.entries i)) [
  | inl g ↦ rw (g, advance_file) v
  | inr (e, g) ↦
      elim (Bool-cases (not (should_advance_state e.state state) || (e.state == state))) [
        | inl p ↦ rw (g, advance_file) (rw p v)
        | inr p ↦
            let (en, dn, ds) = set_state-fields t i e state in
            let old = below e.state state h p in
            let new : leb done_state state ≡ false = ground arith in
            rw (g, advance_file)
              (rw p (
                moved-IsConsistent t i e state (set_state t i e state).done g v
                  (rw (dn, old, new) (omega arith))))
      ]
]

-- The loop of `SetTransferFilesState`.
pub advance_files-IsConsistent :
    (t : Transfer) (state : ℕ) (ids : List ℕ)
    → state < done_state
    → IsConsistent t
    → IsConsistent (advance_files t state ids).2
unfolding advance_files
advance_files-IsConsistent t state [] h v = v
advance_files-IsConsistent t state (i ∷ ids) h v =
    advance_files-IsConsistent (advance_file t state i).2 state ids h
      (advance_file-IsConsistent t state i h v)
