-- ===== src/IdSet/Refines.antt =====
-- What Add, Has, Len and All of internal/idset/idset.go are to the set of ids that they keep.
use tx.Base.{
  ℕ, ◌+◌, ◌-◌, ◌/◌, ◌%◌, ◌<◌, ◌≤◌, ◌≡◌, refl, sym, ap, ◌∙◌, subst, Bool, true, false, ◌&&◌, ◌||◌,
  not, List, [], ◌∷◌, ◌++◌, if◌then◌else◌, ltb, leb, ◌==◌, length, get_or, replicate, All, arith,
  All-append, Bool-cases, inl, inr, length-append, length-replicate, leb→le,
}
use tx.IdSet.{
  IdSet, has, all_ids, add, add_dense, add_sparse, add_bit, pended, flush, grow_words, to_sparse,
  mark, merge_pending, maybe_dense, words_ids, merge, test_bit, slack_words, pending_limit,
}
use tx.IdSet.Sorted.{
  mem, insert, IsSorted, mem-insert, insert-IsSorted, sorted_ext, insert_at-binary_search,
}
use tx.IdSet.Merges.{Disjoint, mem-merge, merge-IsSorted}
use tx.IdSet.Words.{FitsWord, test_bit_zero}
use tx.IdSet.Bitset.{
  get_or_out, get_or-grown, words_ids-IsSorted, mem-mark, mark-FitsWord, length-mark, mem-grown,
  replicate-FitsWord,
}
use tx.IdSet.Valid.{
  IsValid, SameIds, has-mem, all_ids-IsSorted, to_sparse-SameIds, merge_pending-SameIds,
  merge_pending-IsMerged, maybe_dense-SameIds, all_ids-sparse,
}

pub insert_there : (x : ℕ) (ys : List ℕ) → IsSorted ys → mem x ys ≡ true → insert x ys ≡ ys
insert_there x ys s m = sorted_ext (insert x ys) ys (insert-IsSorted x ys s) s (λ z.
    elim (Bool-cases (z == x)) [
      | inl e ↦
          let q : mem z ys ≡ true =
            (let r : x ≡ z = ground arith in subst (λ k. mem k ys ≡ true) r m) in
          ground (arith, mem-insert z x ys, q, e)
      | inr e ↦ ground (arith, mem-insert z x ys, e)
    ])

pub length-insert :
    (x : ℕ) (ys : List ℕ) → IsSorted ys → mem x ys ≡ false → length (insert x ys) ≡ length ys + 1
length-insert x [] s m = refl
length-insert x (y ∷ ys) (a, s) m = ground (arith, length-insert x ys s)

-- The set afterwards holds the id too, and the answer is whether it is new.
pub record Adds (s : IdSet) (x : ℕ) (r : IdSet × Bool) : Type 0 where
  pub valid : IsValid r.0
  pub ids : all_ids r.0 ≡ insert x (all_ids s)
  pub fresh : r.1 ≡ not (has s x)

Adds-known : (s : IdSet) (x : ℕ) → IsValid s → has s x ≡ true → Adds s x (s, false)
Adds-known s x v h = record {
  valid = v;
  ids = sym (insert_there x (all_ids s) (all_ids-IsSorted s v) (sym (has-mem s x v) ∙ h));
  fresh = ap not (sym h);
}

-- Both forms of a set that has grown by one id.
grown_by :
    (s t : IdSet) (x : ℕ)
    → IsValid s
    → has s x ≡ false
    → t.n ≡ s.n + 1
    → IsSorted (all_ids t)
    → ((z : ℕ) → mem z (all_ids t) ≡ z == x || mem z (all_ids s))
    → (all_ids t ≡ insert x (all_ids s)) × (t.n ≡ length (all_ids t))
grown_by s t x v h c o m =
    let a = all_ids-IsSorted s v in
    let e : all_ids t ≡ insert x (all_ids s) =
      sorted_ext (all_ids t) (insert x (all_ids s)) o (insert-IsSorted x (all_ids s) a)
        (λ z. m z ∙ sym (mem-insert z x (all_ids s))) in
    let l = length-insert x (all_ids s) a (sym (has-mem s x v) ∙ h) in
    (e, omega (arith, c, v.counted, l, ap length e))

pended-Adds :
    (s : IdSet) (x : ℕ)
    → IsValid s
    → s.sparse ≡ true
    → has s x ≡ false
    → Adds s x (pended s x, true)
pended-Adds s x v p h =
    let m : mem x s.ids || mem x s.pend ≡ false =
      sym (mem-merge x s.ids s.pend)
      ∙ ap (mem x) (sym (all_ids-sparse s p))
      ∙ sym (has-mem s x v)
      ∙ h in
    let m_ids : mem x s.ids ≡ false = ground arith in
    let m_pend : mem x s.pend ≡ false = ground arith in
    let e : (pended s x).pend ≡ insert x s.pend =
      unfold pended in insert_at-binary_search s.pend x m_pend in
    let o : IsSorted (pended s x).pend =
      subst IsSorted (sym e) (insert-IsSorted x s.pend v.pend_sorted) in
    let d : Disjoint s.ids (insert x s.pend) = λ z q. (elim (Bool-cases (z == x)) [
      | inl w ↦
          (let r : z ≡ x = ground arith in absurd (cc (m_ids, subst (λ k. mem k s.ids ≡ true) r q)))
      | inr w ↦ ground (arith, mem-insert z x s.pend, v.disjoint z q, w)
    ]) in
    let d' : Disjoint s.ids (pended s x).pend = subst (λ k. Disjoint s.ids k) (sym e) d in
    let a : all_ids (pended s x) ≡ merge s.ids (pended s x).pend =
      unfold pended in all_ids-sparse (pended s x) p in
    let g =
      grown_by s (pended s x) x v h (unfold pended in refl)
        (subst IsSorted (sym a) (merge-IsSorted s.ids (pended s x).pend v.ids_sorted o d'))
        (λ z.
          ap (mem z) a
          ∙ mem-merge z s.ids (pended s x).pend
          ∙ ap (λ k. mem z s.ids || mem z k) e
          ∙ ground (
            arith,
            mem-insert z x s.pend,
            ap (mem z) (all_ids-sparse s p) ∙ mem-merge z s.ids s.pend,
          )) in
    record {
      valid =
          unfold pended in
          record {
            fits = v.fits;
            ids_sorted = v.ids_sorted;
            pend_sorted = o;
            disjoint = d';
            counted = g.1;
            spans = omega (arith, v.spans);
          };
      ids = g.0;
      fresh = ap not (sym h);
    }

-- A change of form afterwards changes neither the ids nor the answer.
Adds-then : (s t u : IdSet) (x : ℕ) (b : Bool) → Adds s x (t, b) → SameIds t u → Adds s x (u, b)
Adds-then s t u x b a k = record { valid = k.valid; ids = k.same ∙ a.ids; fresh = a.fresh }

Adds-after :
    (s t : IdSet) (x : ℕ) (r : IdSet × Bool) → IsValid s → SameIds s t → Adds t x r → Adds s x r
Adds-after s t x r v k a =
    let e : has t x ≡ has s x = has-mem t x k.valid ∙ ap (mem x) k.same ∙ sym (has-mem s x v) in
    record { valid = a.valid; ids = a.ids ∙ ap (insert x) k.same; fresh = a.fresh ∙ ap not e }

same_then : (s t u : IdSet) → SameIds s t → SameIds t u → SameIds s u
same_then s t u h k = record { valid = k.valid; same = k.same ∙ h.same; kept = k.kept ∙ h.kept }

flush-SameIds : (s : IdSet) → IsValid s → s.sparse ≡ true → SameIds s (flush s)
unfolding flush
flush-SameIds s v p =
    let m = merge_pending-SameIds s v p in
    same_then s (merge_pending s) (maybe_dense (merge_pending s)) m
      (maybe_dense-SameIds (merge_pending s) m.valid (merge_pending-IsMerged s v p))

add_sparse-Adds : (s : IdSet) (x : ℕ) → IsValid s → s.sparse ≡ true → Adds s x (add_sparse s x)
unfolding add_sparse
add_sparse-Adds s x v p = elim (Bool-cases (has s x)) [
  | inl h ↦ rw h (Adds-known s x v h)
  | inr h ↦
      let a = pended-Adds s x v p h in
      let q : (pended s x).sparse ≡ true = unfold pended in p in
      rw h (elim (Bool-cases (ltb (pending_limit (pended s x)) (length (pended s x).pend))) [
        | inl f ↦ rw f (
            Adds-then s (pended s x) (flush (pended s x)) x true a
              (flush-SameIds (pended s x) a.valid q))
        | inr f ↦ rw f a
      ])
]

has-dense :
    (s : IdSet) (x : ℕ)
    → s.sparse ≡ false
    → has s x ≡ ltb (x / 64) (length s.words) && test_bit (x % 64) (get_or s.words (x / 64) 0)
unfolding has
has-dense s x p = rw p refl

all_ids-dense : (s : IdSet) → s.sparse ≡ false → all_ids s ≡ words_ids 0 s.words
unfolding all_ids
all_ids-dense s p = rw p refl

marked : IdSet → List ℕ → ℕ → IdSet
marked s ws x = record s { words = mark ws x; n = s.n + 1 }

marked-Adds :
    (s : IdSet) (ws : List ℕ) (x : ℕ)
    → IsValid s
    → s.sparse ≡ false
    → has s x ≡ false
    → All FitsWord ws
    → x / 64 < length ws
    → length ws ≤ s.n + 1 + slack_words
    → ((z : ℕ) → mem z (words_ids 0 ws) ≡ mem z (words_ids 0 s.words))
    → Adds s x (marked s ws x, true)
unfolding marked
marked-Adds s ws x v p h f l k m =
    let t = marked s ws x in
    let a : all_ids t ≡ words_ids 0 (mark ws x) = all_ids-dense t p in
    let g =
      grown_by s t x v h refl
        (subst IsSorted (sym a) (words_ids-IsSorted 0 (mark ws x) (mark-FitsWord ws x f)))
        (λ z.
          ap (mem z) a
          ∙ mem-mark z ws x f l
          ∙ ap (λ b. z == x || b) (m z ∙ ap (mem z) (sym (all_ids-dense s p)))) in
    record {
      valid = record {
        fits = mark-FitsWord ws x f;
        ids_sorted = v.ids_sorted;
        pend_sorted = v.pend_sorted;
        disjoint = v.disjoint;
        counted = g.1;
        spans = omega (arith, length-mark ws x);
      };
      ids = g.0;
      fresh = ap not (sym h);
    }

add_bit-Adds :
    (s : IdSet) (x : ℕ)
    → IsValid s
    → s.sparse ≡ false
    → x / 64 < length s.words
    → Adds s x (add_bit s x)
unfolding add_bit
add_bit-Adds s x v p l =
    let d = has-dense s x p in
    let b : ltb (x / 64) (length s.words) ≡ true = ground arith in
    elim (Bool-cases (test_bit (x % 64) (get_or s.words (x / 64) 0))) [
      | inl t ↦ rw t (Adds-known s x v (ground (arith, d, b, t)))
      | inr t ↦ rw t (
          unfold marked in
          marked-Adds s s.words x v p (ground (arith, d, t)) v.fits l (omega (arith, v.spans))
            (λ z. refl))
    ]

grown_test :
    (ws : List ℕ) (k x : ℕ)
    → length ws ≤ x / 64
    → test_bit (x % 64) (get_or (ws ++ replicate k 0) (x / 64) 0) ≡ false
grown_test ws k x h =
    ap (test_bit (x % 64)) (get_or-grown ws k (x / 64) ∙ get_or_out ws (x / 64) h)
    ∙ test_bit_zero (x % 64)

grow_words-Adds :
    (s : IdSet) (x : ℕ)
    → IsValid s
    → s.sparse ≡ false
    → length s.words ≤ x / 64
    → x / 64 + 1 ≤ s.n + 1 + slack_words
    → Adds s x (add_bit (grow_words s (x / 64 + 1)) x)
unfolding add_bit
grow_words-Adds s x v p h l =
    let k = x / 64 + 1 - length s.words in
    let ws = s.words ++ replicate k 0 in
    let c : length ws ≡ x / 64 + 1 =
      omega (arith, length-append s.words (replicate k 0), length-replicate {A = ℕ} k 0) in
    rw (grown_test s.words k x h) (
      unfold marked in
      marked-Adds s ws x v p (ground (arith, has-dense s x p))
        (All-append FitsWord s.words (replicate k 0) v.fits (replicate-FitsWord k))
        (omega (arith, c)) (omega (arith, c)) (λ z. mem-grown z s.words k v.fits))

add_dense-Adds : (s : IdSet) (x : ℕ) → IsValid s → s.sparse ≡ false → Adds s x (add_dense s x)
unfolding add_dense
add_dense-Adds s x v p = elim (Bool-cases (leb (length s.words) (x / 64))) [
  | inr l ↦ rw l (add_bit-Adds s x v p (ground arith))
  | inl l ↦ rw l (elim (Bool-cases (ltb (s.n + 1 + slack_words) (x / 64 + 1))) [
    | inl w ↦
        let k = to_sparse-SameIds s v in
        rw w (
          Adds-after s (to_sparse s) x (add_sparse (to_sparse s) x) v k
            (add_sparse-Adds (to_sparse s) x k.valid (unfold to_sparse in refl)))
    | inr w ↦ rw w (grow_words-Adds s x v p (leb→le _ _ l) (ground arith))
  ])
]

-- From a valid set, Add leaves a valid set whose ids are those before and the new one, in ascending
-- order, and answers whether the id was new, in either form and across the changes of form.
pub add-Adds : (s : IdSet) (x : ℕ) → IsValid s → Adds s x (add s x)
add-Adds s x v = elim (Bool-cases s.sparse) [
  | inl p ↦
      let e : add s x ≡ add_sparse s x =
        unfold add in ap (λ b. if not b then add_dense s x else add_sparse s x) p in
      subst (Adds s x) (sym e) (add_sparse-Adds s x v p)
  | inr p ↦
      let e : add s x ≡ add_dense s x =
        unfold add in ap (λ b. if not b then add_dense s x else add_sparse s x) p in
      subst (Adds s x) (sym e) (add_dense-Adds s x v p)
]

pub data Op : Type 0 where
  add_op has_op : ℕ → Op
  len_op all_op : Op

pub data Answer : Type 0 where
  yes_no : Bool → Answer
  count : ℕ → Answer
  members : List ℕ → Answer

-- The calls of one set, one after the other, and their answers.
pub run : IdSet → List Op → List Answer
run s [] = []
run s (add_op x ∷ ops) = yes_no (add s x).1 ∷ run (add s x).0 ops
run s (has_op x ∷ ops) = yes_no (has s x) ∷ run s ops
run s (len_op ∷ ops) = count s.n ∷ run s ops
run s (all_op ∷ ops) = members (all_ids s) ∷ run s ops

-- The same calls of a set that is an ascending list without repetitions.
pub run_spec : List ℕ → List Op → List Answer
run_spec xs [] = []
run_spec xs (add_op x ∷ ops) = yes_no (not (mem x xs)) ∷ run_spec (insert x xs) ops
run_spec xs (has_op x ∷ ops) = yes_no (mem x xs) ∷ run_spec xs ops
run_spec xs (len_op ∷ ops) = count (length xs) ∷ run_spec xs ops
run_spec xs (all_op ∷ ops) = members xs ∷ run_spec xs ops

-- From any valid set, every sequence of Add, Has, Len and All calls answers what the ascending list
-- of its ids answers.
pub run-run_spec : (s : IdSet) (ops : List Op) → IsValid s → run s ops ≡ run_spec (all_ids s) ops
unfolding run run_spec
run-run_spec s [] v = refl
run-run_spec s (add_op x ∷ ops) v =
    let a = add-Adds s x v in
    let b : (add s x).1 ≡ not (mem x (all_ids s)) = a.fresh ∙ ap not (has-mem s x v) in
    let t = run-run_spec (add s x).0 ops a.valid ∙ ap (λ xs. run_spec xs ops) a.ids in cc (b, t)
run-run_spec s (has_op x ∷ ops) v = cc (has-mem s x v, run-run_spec s ops v)
run-run_spec s (len_op ∷ ops) v = cc (v.counted, run-run_spec s ops v)
run-run_spec s (all_op ∷ ops) v = cc (run-run_spec s ops v)
