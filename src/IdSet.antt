-- ===== src/IdSet.antt =====
-- The sets of file ids of internal/idset/idset.go. A nil set is the empty one.
pub mod Sorted
pub mod Merges
pub mod Words
pub mod Bitset
pub mod Valid
pub mod Refines
pub mod Union
use tx.Base.{
  ℕ, zero, suc, ◌+◌, ◌-◌, ◌*◌, ◌/◌, ◌%◌, ◌^◌, max, Bool, true, false, ◌&&◌, ◌||◌, not, List, [],
  ◌∷◌, ◌++◌, if◌then◌else◌, ltb, leb, ◌==◌, length, get_or, set, take, drop, replicate,
}

abbrev pub slack_words : ℕ
slack_words = 16

abbrev pub min_pending : ℕ
min_pending = 64

pub record IdSet : Type 0 where
  pub n : ℕ
  pub sparse : Bool
  pub words : List ℕ
  pub ids : List ℕ
  pub pend : List ℕ

-- The zero value.
abbrev pub no_ids : IdSet
no_ids = record { n = 0; sparse = false; words = []; ids = []; pend = [] }

-- `w & (1 << k) != 0`
pub test_bit : ℕ → ℕ → Bool
test_bit zero w = w % 2 == 1
test_bit (suc k) w = test_bit k (w / 2)

-- `w | 1 << k`
pub set_bit : ℕ → ℕ → ℕ
set_bit zero w = w / 2 * 2 + 1
set_bit (suc k) w = set_bit k (w / 2) * 2 + w % 2

-- `bits.TrailingZeros64(w)` of a word that is not 0
pub trailing_zeros : ℕ → ℕ → ℕ
trailing_zeros zero w = 0
trailing_zeros (suc f) w = let more = trailing_zeros f (w / 2) in if w % 2 == 1 then 0 else suc more

-- `w & (w - 1)`: the lowest bit that is set is cleared.
pub clear_lowest : ℕ → ℕ → ℕ
clear_lowest zero w = w
clear_lowest (suc f) w = let more = clear_lowest f (w / 2) in if w % 2 == 1 then w - 1 else more * 2

-- `bits.Len(n)`
unfoldable bits_len : ℕ → ℕ → ℕ
bits_len zero n = 0
bits_len (suc f) n = let more = bits_len f (n / 2) in if n == 0 then 0 else suc more

-- `slices.BinarySearch` in a sorted slice: where the id is or would be, and whether it is there.
pub binary_search : List ℕ → ℕ → ℕ × Bool
binary_search [] x = (0, false)
binary_search (y ∷ ys) x =
    let rest = binary_search ys x in if ltb y x then (suc rest.0, rest.1) else (0, y == x)

-- `slices.Insert` of one element
abbrev pub insert_at : List ℕ → ℕ → ℕ → List ℕ
insert_at xs i x = take i xs ++ (x ∷ drop i xs)

pub has : IdSet → ℕ → Bool
unfolding test_bit binary_search
has s id =
    if not s.sparse
    then ltb (id / 64) (length s.words) && test_bit (id % 64) (get_or s.words (id / 64) 0)
    else (binary_search s.ids id).1 || (binary_search s.pend id).1

-- The ids of one word, from the base on; a word has at most as many as it has bits.
pub word_ids : ℕ → ℕ → ℕ → List ℕ
word_ids base zero w = []
word_ids base (suc f) w =
    let more = word_ids base f (clear_lowest 64 w) in
    if w == 0 then [] else (base + trailing_zeros 64 w) ∷ more

pub words_ids : ℕ → List ℕ → List ℕ
words_ids wi [] = []
words_ids wi (w ∷ ws) = word_ids (wi * 64) 64 w ++ words_ids (suc wi) ws

pub merge : List ℕ → List ℕ → List ℕ
merge [] pend = pend
merge (x ∷ ids) [] = x ∷ ids
merge (x ∷ ids) (y ∷ pend) =
    let left = merge ids (y ∷ pend) in
    let right = merge (x ∷ ids) pend in if ltb x y then x ∷ left else y ∷ right

-- What `All` yields, in its order.
pub all_ids : IdSet → List ℕ
all_ids s = if s.sparse then merge s.ids s.pend else words_ids 0 s.words

pub pending_limit : IdSet → ℕ
unfolding bits_len
pending_limit s = max min_pending (2 ^ (bits_len (length s.ids) (length s.ids) / 2))

-- A slice that grows is filled with zeros.
abbrev pub grow_words : IdSet → ℕ → IdSet
grow_words s n = record s { words = s.words ++ replicate (n - length s.words) 0 }

pub to_sparse : IdSet → IdSet
to_sparse s = record s { words = []; ids = all_ids s; pend = []; sparse = true }

-- The merge from the back: both slices from their ends, and what is already placed behind them. The
-- members of `ids` that are left when `pend` is used up stay where they are.
pub merge_back : List ℕ → List ℕ → List ℕ → List ℕ
merge_back [] [] placed = placed
merge_back (x ∷ ids) [] placed = merge_back ids [] (x ∷ placed)
merge_back [] (y ∷ pend) placed = merge_back [] pend (y ∷ placed)
merge_back (x ∷ ids) (y ∷ pend) placed =
    let left = merge_back ids (y ∷ pend) (x ∷ placed) in
    let right = merge_back (x ∷ ids) pend (y ∷ placed) in if ltb y x then left else right

pub backwards : List ℕ → List ℕ → List ℕ
backwards [] acc = acc
backwards (x ∷ xs) acc = backwards xs (x ∷ acc)

pub merge_pending : IdSet → IdSet
unfolding merge_back backwards
merge_pending s = elim s.pend [
  | [] ↦ s
  | y ∷ ys ↦ record s {
    ids = merge_back (backwards s.ids []) (backwards (y ∷ ys) []) [];
    pend = [];
  }
]

-- `words[id>>6] |= 1 << (id & 63)`
pub mark : List ℕ → ℕ → List ℕ
mark ws id = set ws (id / 64) (set_bit (id % 64) (get_or ws (id / 64) 0))

pub mark_all : List ℕ → List ℕ → List ℕ
mark_all ws [] = ws
mark_all ws (id ∷ ids) = mark_all (mark ws id) ids

abbrev pub last_id : List ℕ → ℕ
last_id [] = 0
last_id (x ∷ []) = x
last_id (x ∷ y ∷ ys) = last_id (y ∷ ys)

pub maybe_dense : IdSet → IdSet
maybe_dense s = if length s.ids == 0 || leb (s.n / 2) (last_id s.ids / 64) then s else record s {
  words = mark_all (replicate (last_id s.ids / 64 + 1) 0) s.ids;
  ids = [];
  pend = [];
  sparse = false;
}

unfoldable pub flush : IdSet → IdSet
flush s = maybe_dense (merge_pending s)

pub pended : IdSet → ℕ → IdSet
pended s id = record s { pend = insert_at s.pend (binary_search s.pend id).0 id; n = s.n + 1 }

-- The set afterwards, and whether the id is new.
pub add_sparse : IdSet → ℕ → IdSet × Bool
add_sparse s id =
    if has s id
    then (s, false)
    else (if ltb (pending_limit (pended s id)) (length (pended s id).pend)
        then (flush (pended s id), true)
        else (pended s id, true))

pub add_bit : IdSet → ℕ → IdSet × Bool
add_bit s id =
    if test_bit (id % 64) (get_or s.words (id / 64) 0)
    then (s, false)
    else (record s { words = mark s.words id; n = s.n + 1 }, true)

pub add_dense : IdSet → ℕ → IdSet × Bool
add_dense s id =
    if leb (length s.words) (id / 64)
    then (if ltb (s.n + 1 + slack_words) (id / 64 + 1)
        then add_sparse (to_sparse s) id
        else add_bit (grow_words s (id / 64 + 1)) id)
    else add_bit s id

pub add : IdSet → ℕ → IdSet × Bool
add s id = if not s.sparse then add_dense s id else add_sparse s id

-- The members of the other set that are added one by one, until the rest is long enough for one
-- merge; `left` counts those not yet looked at.
pub add_each : IdSet → ℕ → List ℕ → IdSet × List ℕ
add_each s left [] = (s, [])
add_each s left (x ∷ xs) = elim (s.sparse && ltb (pending_limit s) left) [
  | true ↦ (s, x ∷ xs)
  | false ↦ add_each (add s x).0 (left - 1) xs
]

-- The linear merge, in which a member of both counts once.
pub merge_union : List ℕ → List ℕ → List ℕ
merge_union [] rest = rest
merge_union (x ∷ ids) [] = x ∷ ids
merge_union (x ∷ ids) (y ∷ rest) =
    let left = merge_union ids (y ∷ rest) in
    let right = merge_union (x ∷ ids) rest in
    let both = merge_union ids rest in
    if ltb x y then x ∷ left else (if ltb y x then y ∷ right else x ∷ both)

pub merge_rest : IdSet → List ℕ → IdSet
merge_rest s [] = s
merge_rest s (y ∷ rest) =
    let merged = merge_union (merge_pending s).ids (y ∷ rest) in
    maybe_dense (record (merge_pending s) { ids = merged; n = length merged })

-- `same` is whether the two pointers are equal.
pub union : Bool → IdSet → IdSet → IdSet
union same s o =
    if same || o.n == 0
    then s
    else (if o.sparse && length o.pend == 0
        then merge_rest (add_each s (length o.ids) o.ids).0 (add_each s (length o.ids) o.ids).1
        else merge_rest (add_each s o.n (all_ids o)).0 (add_each s o.n (all_ids o)).1)
