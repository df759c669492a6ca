-- ===== src/Store/Weights.antt =====
-- Sums over a transfer's entries, and how they change when one entry does.
use tx.Base.{
  ℕ, zero, suc, ◌+◌, ◌≤◌, ◌<◌, ◌≡◌, Bool, ◌&&◌, some, List, [], ◌∷◌, if◌then◌else◌, ◌==◌, leb,
  length, get_elem?, set, All, arith,
}
use tx.Store.{Entry, is_regular_file_entry_type, done_state}
use tx.Store.Acknowledge.{clamp}

abbrev pub total : (Entry → ℕ) → List Entry → ℕ
total w [] = 0
total w (e ∷ es) = w e + total w es

abbrev pub one_if : Bool → ℕ
one_if b = if b then 1 else 0

-- A regular file in the state `s`.
abbrev pub at_state : ℕ → Entry → ℕ
at_state s e = one_if (is_regular_file_entry_type e.entry_type && (s == e.state))

-- A regular file that needs nothing more: acknowledged in full, or missing.
abbrev pub settled : Entry → ℕ
settled e = one_if (is_regular_file_entry_type e.entry_type && leb done_state e.state)

abbrev pub regular : Entry → ℕ
regular e = one_if (is_regular_file_entry_type e.entry_type)

abbrev pub acked : Entry → ℕ
acked e = e.acked_size

abbrev pub size : Entry → ℕ
size e = clamp e.file_size

pub total-set :
    (w : Entry → ℕ) (es : List Entry) (i : ℕ) (e e' : Entry)
    → get_elem? es i ≡ some e
    → total w (set es i e') + w e ≡ total w es + w e'
total-set w [] i e e' h = cc
total-set w (x ∷ es) zero e e' h = let p : x ≡ e = cc in rw p (omega arith)
total-set w (x ∷ es) (suc i) e e' h = omega (arith, total-set w es i e e' h)

pub weight≤total :
    (w : Entry → ℕ) (es : List Entry) (i : ℕ) (e : Entry)
    → get_elem? es i ≡ some e
    → w e ≤ total w es
weight≤total w [] i e h = cc
weight≤total w (x ∷ es) zero e h = let p : x ≡ e = cc in rw p (omega arith)
weight≤total w (x ∷ es) (suc i) e h = omega (arith, weight≤total w es i e h)

pub get→lt : (es : List Entry) (i : ℕ) (e : Entry) → get_elem? es i ≡ some e → i < length es
get→lt [] i e h = cc
get→lt (x ∷ es) zero e h = omega arith
get→lt (x ∷ es) (suc i) e h = omega (arith, get→lt es i e h)

pub total≤length :
    (w : Entry → ℕ) → ((e : Entry) → w e ≤ 1) → (es : List Entry) → total w es ≤ length es
total≤length w h [] = omega arith
total≤length w h (e ∷ es) = omega (arith, h e, total≤length w h es)

pub total≤total :
    (v w : Entry → ℕ) (es : List Entry) → All (λ e. v e ≤ w e) es → total v es ≤ total w es
total≤total v w [] h = omega arith
total≤total v w (e ∷ es) (p, h) = omega (arith, total≤total v w es h)

pub All-set :
    (P : Entry → Type 0) (es : List Entry) (i : ℕ) (e : Entry) → All P es → P e → All P (set es i e)
All-set P [] i e h p = tt
All-set P (x ∷ es) zero e (q, h) p = (p, h)
All-set P (x ∷ es) (suc i) e (q, h) p = (q, All-set P es i e h p)

pub All-get :
    (P : Entry → Type 0) (es : List Entry) (i : ℕ) (e : Entry)
    → All P es
    → get_elem? es i ≡ some e
    → P e
All-get P [] i e h g = cc
All-get P (x ∷ es) zero e (q, h) g = let p : e ≡ x = cc in rw p q
All-get P (x ∷ es) (suc i) e (q, h) g = All-get P es i e h g
