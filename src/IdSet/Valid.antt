-- ===== src/IdSet/Valid.antt =====
-- What the fields of a set of internal/idset/idset.go are to each other, in both of its forms.
use tx.Base.{
  ℕ, ◌+◌, ◌/◌, ◌<◌, ◌≤◌, ◌≡◌, refl, sym, ap, ◌∙◌, subst, true, false, ◌||◌, List, [], ◌∷◌, leb,
  ◌==◌, length, replicate, All, arith, Bool-cases, inl, inr, ◌⊎◌, length-replicate,
}
use tx.IdSet.{
  IdSet, no_ids, has, all_ids, words_ids, merge, to_sparse, merge_pending, maybe_dense, mark_all,
  last_id, slack_words,
}
use tx.IdSet.Sorted.{mem, IsSorted, All-weaken, binary_search-mem, sorted_ext}
use tx.IdSet.Merges.{Disjoint, mem-merge, merge-IsSorted, merge_back-merge, last_id-greatest}
use tx.IdSet.Words.{FitsWord}
use tx.IdSet.Bitset.{
  lookup-mem, words_ids-IsSorted, mem-mark_all, mark_all-FitsWord, length-mark_all, mem-blank,
  replicate-FitsWord,
}

-- The words have 64 bits, the slices are ascending and share no id, the count is that of the members,
-- and the bitset spans at most 16 words more than the set has members.
pub record IsValid (s : IdSet) : Type 0 where
  pub fits : All FitsWord s.words
  pub ids_sorted : IsSorted s.ids
  pub pend_sorted : IsSorted s.pend
  pub disjoint : Disjoint s.ids s.pend
  pub counted : s.n ≡ length (all_ids s)
  pub spans : length s.words ≤ s.n + slack_words

pub no_ids-IsValid : IsValid no_ids
no_ids-IsValid =
    unfold all_ids words_ids in
    record {
      fits = tt;
      ids_sorted = tt;
      pend_sorted = tt;
      disjoint = λ z m. refl;
      counted = refl;
      spans = omega arith;
    }

pub all_ids-IsSorted : (s : IdSet) → IsValid s → IsSorted (all_ids s)
unfolding all_ids
all_ids-IsSorted s v = elim (Bool-cases s.sparse) [
  | inl p ↦ rw p (merge-IsSorted s.ids s.pend v.ids_sorted v.pend_sorted v.disjoint)
  | inr p ↦ rw p (words_ids-IsSorted 0 s.words v.fits)
]

-- `Has` finds the ids that `All` yields.
pub has-mem : (s : IdSet) (z : ℕ) → IsValid s → has s z ≡ mem z (all_ids s)
unfolding has all_ids
has-mem s z v = elim (Bool-cases s.sparse) [
  | inl p ↦ rw p (
      rw (binary_search-mem s.ids z v.ids_sorted, binary_search-mem s.pend z v.pend_sorted)
        (sym (mem-merge z s.ids s.pend)))
  | inr p ↦ rw p (lookup-mem z s.words v.fits)
]

-- Another form of the same set.
pub record SameIds (s t : IdSet) : Type 0 where
  pub valid : IsValid t
  pub same : all_ids t ≡ all_ids s
  pub kept : t.n ≡ s.n

merge_none : (xs : List ℕ) → merge xs [] ≡ xs
unfolding merge
merge_none [] = refl
merge_none (x ∷ xs) = refl

all_ids-to_sparse : (s : IdSet) → all_ids (to_sparse s) ≡ all_ids s
all_ids-to_sparse s =
    let e : all_ids (to_sparse s) ≡ merge (all_ids s) [] = unfold to_sparse all_ids in refl in
    e ∙ merge_none (all_ids s)

pub to_sparse-SameIds : (s : IdSet) → IsValid s → SameIds s (to_sparse s)
unfolding to_sparse
to_sparse-SameIds s v = record {
  valid = record {
    fits = tt;
    ids_sorted = all_ids-IsSorted s v;
    pend_sorted = tt;
    disjoint = λ z m. refl;
    counted = v.counted ∙ ap length (sym (all_ids-to_sparse s));
    spans = omega arith;
  };
  same = all_ids-to_sparse s;
  kept = refl;
}

-- A sparse set whose buffer is empty.
pub record IsMerged (s : IdSet) : Type 0 where
  pub is_sparse : s.sparse ≡ true
  pub no_pend : s.pend ≡ []

pub all_ids-sparse : (s : IdSet) → s.sparse ≡ true → all_ids s ≡ merge s.ids s.pend
unfolding all_ids
all_ids-sparse s p = rw p refl

pub all_ids-merged : (s : IdSet) → IsMerged s → all_ids s ≡ s.ids
all_ids-merged s m = all_ids-sparse s m.is_sparse ∙ ap (merge s.ids) m.no_pend ∙ merge_none s.ids

with_merged : IdSet → IdSet
with_merged s = record s { ids = merge s.ids s.pend; pend = [] }

merge_pending-with_merged : (s : IdSet) → IsValid s → merge_pending s ≡ with_merged s
unfolding merge_pending with_merged
merge_pending-with_merged s v = elim (pend_cases s.pend) [
  | inl e ↦
      rw (e, merge_pending)
        (ap (λ (q : List ℕ). record s { ids = s.ids; pend = q }) e
          ∙ ap (λ (k : List ℕ). record s { ids = k; pend = [] }) (sym (merge_none s.ids)))
  | inr (y, ys, e) ↦
      rw (e, merge_pending)
        (ap (λ (k : List ℕ). record s { ids = k; pend = [] })
          (merge_back-merge s.ids (y ∷ ys) v.ids_sorted (subst IsSorted e v.pend_sorted)
            (subst (λ q. Disjoint s.ids q) e v.disjoint)))
]
  where
    pend_cases : (q : List ℕ) → (q ≡ []) ⊎ ((y : ℕ) × (ys : List ℕ) × (q ≡ (y ∷ ys)))
    pend_cases [] = inl refl
    pend_cases (y ∷ ys) = inr (y, ys, refl)

pub merge_pending-IsMerged : (s : IdSet) → IsValid s → s.sparse ≡ true → IsMerged (merge_pending s)
unfolding with_merged
merge_pending-IsMerged s v p =
    rw (merge_pending-with_merged s v) (record { is_sparse = p; no_pend = refl })

pub merge_pending-SameIds : (s : IdSet) → IsValid s → s.sparse ≡ true → SameIds s (merge_pending s)
unfolding with_merged
merge_pending-SameIds s v p =
    let e : all_ids (with_merged s) ≡ all_ids s =
      all_ids-merged (with_merged s) (record { is_sparse = p; no_pend = refl })
      ∙ sym (all_ids-sparse s p) in
    let t : SameIds s (with_merged s) = record {
      valid = record {
        fits = v.fits;
        ids_sorted = merge-IsSorted s.ids s.pend v.ids_sorted v.pend_sorted v.disjoint;
        pend_sorted = tt;
        disjoint = λ z m. refl;
        counted = v.counted ∙ ap length (sym e);
        spans = v.spans;
      };
      same = e;
      kept = refl;
    } in
    rw (merge_pending-with_merged s v) t

dense_form : IdSet → List ℕ → IdSet
dense_form s ws = record s { words = ws; ids = []; pend = []; sparse = false }

in_span : (xs : List ℕ) → IsSorted xs → All (λ id. id / 64 < last_id xs / 64 + 1) xs
in_span xs s =
    All-weaken (λ x. x ≤ last_id xs) (λ x. x / 64 < last_id xs / 64 + 1) (λ x h. omega arith) xs
      (last_id-greatest xs s)

dense_form-SameIds :
    (s : IdSet)
    → IsValid s
    → IsMerged s
    → last_id s.ids / 64 < s.n / 2
    → SameIds s (dense_form s (mark_all (replicate (last_id s.ids / 64 + 1) 0) s.ids))
unfolding dense_form
dense_form-SameIds s v m h =
    let n = last_id s.ids / 64 + 1 in
    let ws = mark_all (replicate n 0) s.ids in
    let f : All FitsWord ws = mark_all-FitsWord (replicate n 0) s.ids (replicate-FitsWord n) in
    let b : length (replicate {A = ℕ} n 0) ≡ n = length-replicate n 0 in
    let l : length ws ≡ n = length-mark_all (replicate n 0) s.ids ∙ b in
    let e : words_ids 0 ws ≡ s.ids =
      sorted_ext (words_ids 0 ws) s.ids (words_ids-IsSorted 0 ws f) v.ids_sorted (λ z. ground (
        arith,
        mem-mark_all z n (replicate n 0) s.ids (replicate-FitsWord n) b
            (in_span s.ids v.ids_sorted),
        mem-blank z n,
      )) in
    let g : words_ids 0 ws ≡ all_ids s = e ∙ sym (all_ids-merged s m) in
    let d : all_ids (dense_form s ws) ≡ all_ids s = unfold all_ids in g in
    record {
      valid = record {
        fits = f;
        ids_sorted = tt;
        pend_sorted = tt;
        disjoint = λ z q. refl;
        counted = v.counted ∙ ap length (sym d);
        spans = omega (arith, l);
      };
      same = d;
      kept = refl;
    }

pub maybe_dense-SameIds : (s : IdSet) → IsValid s → IsMerged s → SameIds s (maybe_dense s)
unfolding maybe_dense dense_form
maybe_dense-SameIds s v m =
    elim (Bool-cases (length s.ids == 0 || leb (s.n / 2) (last_id s.ids / 64))) [
      | inl c ↦ rw c (record { valid = v; same = refl; kept = refl })
      | inr c ↦ rw c (dense_form-SameIds s v m (ground arith))
    ]
