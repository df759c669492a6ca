-- ===== src/IdSet/Union.antt =====
-- Union of internal/idset/idset.go.
use tx.Base.{
  ℕ, ◌-◌, ◌≤◌, ◌≡◌, refl, sym, ap, ◌∙◌, subst, Bool, true, false, ◌&&◌, ◌||◌, List, [], ◌∷◌, ltb,
  ◌==◌, length, arith, Bool-cases, inl, inr, ◌⊎◌,
}
use tx.IdSet.{
  IdSet, has, all_ids, add, add_each, merge_rest, merge_union, merge_pending, maybe_dense, union,
  pending_limit,
}
use tx.IdSet.Sorted.{mem, IsSorted, mem-insert}
use tx.IdSet.Merges.{mem-merge_union, merge_union-IsSorted}
use tx.IdSet.Valid.{
  IsValid, SameIds, IsMerged, has-mem, all_ids-IsSorted, merge_pending-SameIds,
  merge_pending-IsMerged, maybe_dense-SameIds, all_ids-merged,
}
use tx.IdSet.Refines.{add-Adds}

-- A valid set of the ids of the first and those of the list.
pub record Joins (s : IdSet) (xs : List ℕ) (t : IdSet) : Type 0 where
  pub valid : IsValid t
  pub ids : (z : ℕ) → mem z (all_ids t) ≡ mem z (all_ids s) || mem z xs

or_none : (b : Bool) → b || false ≡ b
or_none true = refl
or_none false = refl

-- What is left after the additions one by one, for a set that is sparse then.
record Parts (s : IdSet) (xs : List ℕ) (r : IdSet × List ℕ) : Type 0 where
  pub valid : IsValid r.0
  pub ids : (z : ℕ) → mem z (all_ids r.0) || mem z r.1 ≡ mem z (all_ids s) || mem z xs
  pub rest : (r.1 ≡ []) ⊎ (r.0.sparse ≡ true)
  pub rest_sorted : IsSorted r.1

and_left : (a b : Bool) → a && b ≡ true → a ≡ true
and_left true b h = refl
and_left false b h = h

add_each-Parts :
    (s : IdSet) (left : ℕ) (xs : List ℕ) → IsValid s → IsSorted xs → Parts s xs (add_each s left xs)
unfolding add_each
add_each-Parts s left [] v o = record {
  valid = v;
  ids = λ z. refl;
  rest = inl refl;
  rest_sorted = tt;
}
add_each-Parts s left (x ∷ xs) v (a, o) =
    elim (Bool-cases (s.sparse && ltb (pending_limit s) left)) [
      | inl c ↦
          rw (c, add_each)
            (record {
              valid = v;
              ids = λ z. refl;
              rest = inr (and_left s.sparse (ltb (pending_limit s) left) c);
              rest_sorted = (a, o);
            })
      | inr c ↦
          let k = add-Adds s x v in
          let t = add_each-Parts (add s x).0 (left - 1) xs k.valid o in
          rw (c, add_each)
            (record {
              valid = t.valid;
              ids = λ z. ground (arith, t.ids z, ap (mem z) k.ids, mem-insert z x (all_ids s));
              rest = t.rest;
              rest_sorted = t.rest_sorted;
            })
    ]

length-merge_union : (xs ys : List ℕ) → length xs ≤ length (merge_union xs ys)
unfolding merge_union
length-merge_union [] ys = omega arith
length-merge_union (x ∷ xs) [] = omega arith
length-merge_union (x ∷ xs) (y ∷ ys) = ground (
  arith,
  length-merge_union xs (y ∷ ys),
  length-merge_union (x ∷ xs) ys,
  length-merge_union xs ys,
)

with_ids : IdSet → List ℕ → IdSet
with_ids s merged = record s { ids = merged; n = length merged }

with_ids-Joins :
    (s : IdSet) (ys : List ℕ)
    → IsValid s
    → IsMerged s
    → IsSorted ys
    → Joins s ys (with_ids s (merge_union s.ids ys)) × IsMerged (with_ids s (merge_union s.ids ys))
unfolding with_ids
with_ids-Joins s ys v m o =
    let ms = merge_union s.ids ys in
    let k : IsMerged (with_ids s ms) = record { is_sparse = m.is_sparse; no_pend = m.no_pend } in
    let e : all_ids (with_ids s ms) ≡ ms = all_ids-merged (with_ids s ms) k in
    let c : s.n ≡ length s.ids = v.counted ∙ ap length (all_ids-merged s m) in
    (
      record {
        valid = record {
          fits = v.fits;
          ids_sorted = merge_union-IsSorted s.ids ys v.ids_sorted o;
          pend_sorted = v.pend_sorted;
          disjoint = λ z q. ap (mem z) m.no_pend;
          counted = ap length (sym e);
          spans = omega (arith, v.spans, c, length-merge_union s.ids ys);
        };
        ids = λ z.
            ap (mem z) e
            ∙ mem-merge_union z s.ids ys
            ∙ ap (λ t. mem z t || mem z ys) (sym (all_ids-merged s m));
      },
      k,
    )

Joins_after : (s t u : IdSet) (ys : List ℕ) → SameIds s t → Joins t ys u → Joins s ys u
Joins_after s t u ys k j = record {
  valid = j.valid;
  ids = λ z. j.ids z ∙ ap (λ q. mem z q || mem z ys) k.same;
}

Joins_then : (s t u : IdSet) (ys : List ℕ) → Joins s ys t → SameIds t u → Joins s ys u
Joins_then s t u ys j k = record { valid = k.valid; ids = λ z. ap (mem z) k.same ∙ j.ids z }

merge_rest-Joins :
    (s : IdSet) (rest : List ℕ)
    → IsValid s
    → (rest ≡ []) ⊎ (s.sparse ≡ true)
    → IsSorted rest
    → Joins s rest (merge_rest s rest)
unfolding merge_rest
merge_rest-Joins s [] v p o = record { valid = v; ids = λ z. sym (or_none (mem z (all_ids s))) }
merge_rest-Joins s (y ∷ rest) v p o = elim p [
  | inl e ↦ absurd cc
  | inr q ↦
      let k = merge_pending-SameIds s v q in
      let t = merge_pending s in
      let w = with_ids-Joins t (y ∷ rest) k.valid (merge_pending-IsMerged s v q) o in
      let u = with_ids t (merge_union t.ids (y ∷ rest)) in
      unfold with_ids in
      Joins_after s t (maybe_dense u) (y ∷ rest) k
        (Joins_then t u (maybe_dense u) (y ∷ rest) w.0 (maybe_dense-SameIds u w.0.valid w.1))
]

joined :
    (s : IdSet) (left : ℕ) (xs : List ℕ)
    → IsValid s
    → IsSorted xs
    → Joins s xs (merge_rest (add_each s left xs).0 (add_each s left xs).1)
joined s left xs v o =
    let p = add_each-Parts s left xs v o in
    let r = add_each s left xs in
    let j = merge_rest-Joins r.0 r.1 p.valid p.rest p.rest_sorted in
    record { valid = j.valid; ids = λ z. j.ids z ∙ p.ids z }

no_members : (z : ℕ) (xs : List ℕ) → length xs ≡ 0 → mem z xs ≡ false
no_members z [] h = refl
no_members z (x ∷ xs) h = absurd (omega arith)

IsMerged-ids : (o : IdSet) → o.sparse && length o.pend == 0 ≡ true → IsMerged o
IsMerged-ids o c = record {
  is_sparse = and_left o.sparse (length o.pend == 0) c;
  no_pend = empty o.pend (ground arith);
}
  where
    empty : (xs : List ℕ) → length xs ≡ 0 → xs ≡ []
    empty [] h = refl
    empty (x ∷ xs) h = absurd (omega arith)

-- The branch that returns at once.
nothing_new :
    (same : Bool) (s o : IdSet) (z : ℕ)
    → IsValid o
    → (same ≡ true → s ≡ o)
    → same || o.n == 0 ≡ true
    → mem z (all_ids s) ≡ mem z (all_ids s) || mem z (all_ids o)
nothing_new same s o z w a c = elim (Bool-cases same) [
  | inl q ↦ ground (arith, ap (λ t. mem z (all_ids t)) (a q))
  | inr q ↦
      let n : length (all_ids o) ≡ 0 = ground (arith, w.counted, q, c) in
      ground (arith, no_members z (all_ids o) n)
]

union-Joins :
    (same : Bool) (s o : IdSet)
    → IsValid s
    → IsValid o
    → (same ≡ true → s ≡ o)
    → Joins s (all_ids o) (union same s o)
unfolding union
union-Joins same s o v w a = elim (Bool-cases (same || o.n == 0)) [
  | inl c ↦ rw c (record { valid = v; ids = λ z. nothing_new same s o z w a c })
  | inr c ↦ rw c (elim (Bool-cases (o.sparse && length o.pend == 0)) [
    | inl d ↦
        let e = all_ids-merged o (IsMerged-ids o d) in
        let j = joined s (length o.ids) o.ids v w.ids_sorted in
        rw d (
          subst
            (λ xs.
              Joins s xs (
                merge_rest (add_each s (length o.ids) o.ids).0 (add_each s (length o.ids) o.ids).1))
            (sym e) j)
    | inr d ↦ rw d (joined s o.n (all_ids o) v (all_ids-IsSorted o w))
  ])
]

-- The union of two valid sets is a valid set that has exactly the ids of both, whether it is merged
-- one by one or in one pass; two equal pointers stand for one set.
pub has-union :
    (same : Bool) (s o : IdSet) (z : ℕ)
    → IsValid s
    → IsValid o
    → (same ≡ true → s ≡ o)
    → IsValid (union same s o) × (has (union same s o) z ≡ has s z || has o z)
has-union same s o z v w a =
    let j = union-Joins same s o v w a in
    (j.valid, cc (has-mem (union same s o) z j.valid, j.ids z, has-mem s z v, has-mem o z w))
