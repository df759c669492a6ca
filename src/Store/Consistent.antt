-- ===== src/Store/Consistent.antt =====
-- What the counters of a transfer are to its entries: `StateCounts`, `Done` and `DoneSize` of
-- internal/filexfer/store/store.go.
pub mod Runs
pub mod Stores
pub mod Registered
use tx.Base.{
  ℕ, zero, suc, ◌+◌, ◌-◌, ◌^◌, ◌%◌, ◌≤◌, ◌<◌, ◌≡◌, refl, sym, ap, ◌∙◌, Bool, true, false, ◌&&◌,
  ◌||◌, not, Option, none, some, List, [], ◌∷◌, if◌then◌else◌, ◌==◌, leb, ltb, length, get_elem?,
  set, All, arith, get_elem?-set_self, length-set, Bool-cases, inl, inr, ==→eq, lt→ltb, min,
}
use tx.Base.Int.{ℤ, pos, negsuc, ◌+ℤ◌, int_laws}
use tx.Store.{
  Entry, Transfer, is_regular_file_entry_type, done_state, running, missing_state, count_entry,
  set_state, with_entry, touch_locked, wrap_int64, should_advance_state,
}
use tx.Store.Acknowledge.{
  clamp, revive, acknowledge_missing, grow_acked, complete_entry, grown, acknowledge_received,
  plus_one,
}
use tx.Store.Weights.{
  total, one_if, at_state, settled, acked, size, total-set, weight≤total, get→lt, total≤length,
  total≤total, All-set, All-get,
}

abbrev pub IsCounted : Transfer → ℕ → Type 0
IsCounted t s = t.state_counts s ≡ pos (total (at_state s) t.entries)

-- The five slots of `StateCounts`.
abbrev pub Counts : Transfer → Type 0
Counts t = IsCounted t 0 × IsCounted t 1 × IsCounted t 2 × IsCounted t 3 × IsCounted t 4

pub slot : (t : Transfer) → Counts t → (s : ℕ) → s < 5 → IsCounted t s
slot t c zero h = c.0
slot t c (suc zero) h = c.1
slot t c (suc (suc zero)) h = c.2
slot t c (suc (suc (suc zero))) h = c.3
slot t c (suc (suc (suc (suc zero)))) h = c.4
slot t c (suc (suc (suc (suc (suc s))))) h = absurd (omega arith)

pub all_slots : (t : Transfer) → ((s : ℕ) → s < 5 → IsCounted t s) → Counts t
all_slots t f =
    (f 0 (omega arith), f 1 (omega arith), f 2 (omega arith), f 3 (omega arith), f 4 (omega arith))

-- No more is acknowledged of a file than its size.
abbrev pub IsCapped : Entry → Type 0
IsCapped e = acked e ≤ size e

-- `StateCounts`, `Done` and `DoneSize` are what a scan of the entries gives. The sizes of one
-- transfer's files sum to an int64.
pub record IsConsistent (t : Transfer) : Type 0 where
  pub counts : Counts t
  pub done_count : t.done ≡ total settled t.entries
  pub bytes : t.done_size ≡ pos (total acked t.entries)
  pub capped : All IsCapped t.entries
  pub slots : length t.entries < 2 ^ 63
  pub sized : total size t.entries < 2 ^ 63

count_down : (n : ℕ) → 1 ≤ n → pos n +ℤ negsuc 0 ≡ pos (n - 1)
unfolding ◌+ℤ◌
count_down n h = ground arith

pub count_up : (n k : ℕ) → pos n +ℤ pos k ≡ pos (n + k)
unfolding ◌+ℤ◌
count_up n k = ground arith

pub wrap_small : (n : ℕ) → n < 2 ^ 63 → wrap_int64 (pos n) ≡ pos n
wrap_small n h = ground arith

pub and_false : (b : Bool) → b && false ≡ false
and_false true = refl
and_false false = refl

count_entry-down :
    (t : Transfer) (e : Entry) (s n : ℕ)
    → s < 5
    → t.state_counts s ≡ pos n
    → at_state s e ≤ n
    → (count_entry t e (negsuc 0)).state_counts s ≡ pos (n - at_state s e)
unfolding count_entry
count_entry-down t e s n h c k = elim (Bool-cases (is_regular_file_entry_type e.entry_type)) [
  | inr r ↦ rw r (c ∙ ap pos (omega arith))
  | inl r ↦ elim (Bool-cases (s == e.state)) [
    | inr q ↦ rw (r, q, and_false (ltb e.state 5)) (c ∙ ap pos (omega arith))
    | inl q ↦
        let p : 1 ≤ n = (rw (r, q) at k) in
        rw (r, q, lt→ltb e.state 5 (omega (arith, ==→eq s e.state q)))
          (ap (λ (z : ℤ). z +ℤ negsuc 0) c ∙ count_down n p)
  ]
]

pub count_entry-up :
    (t : Transfer) (e : Entry) (s n : ℕ)
    → s < 5
    → t.state_counts s ≡ pos n
    → (count_entry t e (pos 1)).state_counts s ≡ pos (n + at_state s e)
unfolding count_entry
count_entry-up t e s n h c = elim (Bool-cases (is_regular_file_entry_type e.entry_type)) [
  | inr r ↦ rw r (c ∙ ap pos (omega arith))
  | inl r ↦ elim (Bool-cases (s == e.state)) [
    | inr q ↦ rw (r, q, and_false (ltb e.state 5)) (c ∙ ap pos (omega arith))
    | inl q ↦
        rw (r, q, lt→ltb e.state 5 (omega (arith, ==→eq s e.state q)))
          (ap (λ (z : ℤ). z +ℤ pos 1) c ∙ count_up n 1)
  ]
]

-- An entry is replaced by another that is counted in its place.
pub replaced-Counts :
    (t : Transfer) (i : ℕ) (e e' : Entry)
    → get_elem? t.entries i ≡ some e
    → Counts t
    → (s : ℕ) → s < 5
    → IsCounted (count_entry (with_entry (count_entry t e (negsuc 0)) i e') e' (pos 1)) s
unfolding count_entry
replaced-Counts t i e e' g c s h =
    let n = total (at_state s) t.entries in
    let t₁ = count_entry t e (negsuc 0) in
    let k = weight≤total (at_state s) t.entries i e g in
    let down = count_entry-down t e s n h (slot t c s h) k in
    count_entry-up (with_entry t₁ i e') e' s (n - at_state s e) h down
    ∙ ap pos (omega (arith, total-set (at_state s) t.entries i e e' g))

set_state-Counts :
    (t : Transfer) (i : ℕ) (e : Entry) (state : ℕ)
    → get_elem? t.entries i ≡ some e
    → Counts t
    → (s : ℕ) → s < 5
    → IsCounted (set_state t i e state) s
unfolding set_state
set_state-Counts t i e state g c s h = replaced-Counts t i e (record e { state = state }) g c s h

-- A transfer's fields beside the counts after `set_state`.
pub set_state-fields :
    (t : Transfer) (i : ℕ) (e : Entry) (state : ℕ)
    → ((set_state t i e state).entries ≡ set t.entries i (record e { state = state }))
      × ((set_state t i e state).done ≡ t.done)
      × ((set_state t i e state).done_size ≡ t.done_size)
unfolding set_state count_entry
set_state-fields t i e state = (refl, refl, refl)

pub total-same :
    (w : Entry → ℕ) (es : List Entry) (i : ℕ) (e e' : Entry)
    → get_elem? es i ≡ some e
    → w e ≡ w e'
    → total w (set es i e') ≡ total w es
total-same w es i e e' g h = omega (arith, total-set w es i e e' g)

-- A state change with the change of `Done` that belongs to it.
pub moved-IsConsistent :
    (t : Transfer) (i : ℕ) (e : Entry) (state d : ℕ)
    → get_elem? t.entries i ≡ some e
    → IsConsistent t
    → d + settled e ≡ t.done + settled (record e { state = state })
    → IsConsistent (record (set_state t i e state) { done = d })
moved-IsConsistent t i e state d g v h =
    let moved = record e { state = state } in
    let (en, dn, ds) = set_state-fields t i e state in
    record {
      counts =
          all_slots (record (set_state t i e state) { done = d })
            (λ s k. set_state-Counts t i e state g v.counts s k);
      done_count = rw en (omega (arith, v.done_count, total-set settled t.entries i e moved g));
      bytes = rw (en, ds) (v.bytes ∙ ap pos (sym (total-same acked t.entries i e moved g refl)));
      capped =
          rw en (
            All-set IsCapped t.entries i moved v.capped
              (All-get IsCapped t.entries i e v.capped g));
      slots = rw (en, length-set t.entries i moved) v.slots;
      sized = rw (en, total-same size t.entries i e moved g refl) v.sized;
    }

pub touch_locked-IsConsistent :
    (ttl now : ℕ) (t : Transfer) → IsConsistent t → IsConsistent (touch_locked ttl now t)
unfolding touch_locked
touch_locked-IsConsistent ttl now t v = record {
  counts = v.counts;
  done_count = v.done_count;
  bytes = v.bytes;
  capped = v.capped;
  slots = v.slots;
  sized = v.sized;
}

settled≤1 : (e : Entry) → settled e ≤ 1
settled≤1 e =
    elim (Bool-cases (is_regular_file_entry_type e.entry_type && leb done_state e.state)) [
      | inl p ↦ rw p (omega arith)
      | inr p ↦ rw p (omega arith)
    ]

pub done_small : (t : Transfer) → IsConsistent t → t.done < 2 ^ 63
done_small t v = omega (arith, v.done_count, v.slots, total≤length settled settled≤1 t.entries)

pub plus_one-suc : (n : ℕ) → n < 2 ^ 63 → plus_one n ≡ n + 1
plus_one-suc n h = omega arith

pub revive-IsConsistent :
    (t : Transfer) (i : ℕ) (e : Entry)
    → get_elem? t.entries i ≡ some e
    → IsConsistent t
    → e.state ≡ missing_state
    → is_regular_file_entry_type e.entry_type ≡ true
    → IsConsistent (revive t i e)
unfolding revive
revive-IsConsistent t i e g v m r =
    let one : settled e ≡ 1 = (rw (r, m) refl) in
    let (en, dn, ds) = set_state-fields t i e running in
    let k = weight≤total settled t.entries i e g in
    let lt : ltb 0 (set_state t i e running).done ≡ true =
      (rw dn (lt→ltb 0 t.done (omega (arith, v.done_count)))) in
    rw lt (
      moved-IsConsistent t i e running ((set_state t i e running).done - 1) g v
        (rw (dn, r, m) (omega (arith, v.done_count))))

pub revive-get :
    (t : Transfer) (i : ℕ) (e : Entry)
    → get_elem? t.entries i ≡ some e
    → get_elem? (revive t i e).entries i ≡ some (record e { state = running })
unfolding revive
revive-get t i e g =
    let (en, dn, ds) = set_state-fields t i e running in
    let self =
      get_elem?-set_self t.entries i (record e { state = running }) (get→lt t.entries i e g) in
    elim (Bool-cases (ltb 0 (set_state t i e running).done)) [
      | inl p ↦ rw (p, en) self
      | inr p ↦ rw (p, en) self
    ]
