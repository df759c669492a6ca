-- ===== src/IdSet/Merges.antt =====
-- The merges of ascending lists of ids in internal/idset/idset.go.
use tx.Base.{
  ℕ, ◌<◌, ◌≤◌, ◌≡◌, refl, true, false, ◌||◌, List, [], ◌∷◌, ltb, All, arith, Bool-cases, inl, inr,
}
use tx.IdSet.{merge, merge_back, backwards, merge_union, last_id}
use tx.IdSet.Sorted.{mem, Above, Below, IsSorted, All-weaken, Above-weaken, mem_self, sorted_ext}

abbrev pub Disjoint : List ℕ → List ℕ → Type 0
Disjoint xs ys = (z : ℕ) → mem z xs ≡ true → mem z ys ≡ false

pub mem-merge : (z : ℕ) (xs ys : List ℕ) → mem z (merge xs ys) ≡ mem z xs || mem z ys
unfolding merge
mem-merge z [] ys = refl
mem-merge z (x ∷ xs) [] = ground arith
mem-merge z (x ∷ xs) (y ∷ ys) = ground (arith, mem-merge z xs (y ∷ ys), mem-merge z (x ∷ xs) ys)

merge-Above : (a : ℕ) (xs ys : List ℕ) → Above a xs → Above a ys → Above a (merge xs ys)
unfolding merge
merge-Above a [] ys h k = k
merge-Above a (x ∷ xs) [] h k = h
merge-Above a (x ∷ xs) (y ∷ ys) (p, h) (q, k) = elim (Bool-cases (ltb x y)) [
  | inl l ↦ rw l (p, merge-Above a xs (y ∷ ys) h (q, k))
  | inr l ↦ rw l (q, merge-Above a (x ∷ xs) ys (p, h) k)
]

Disjoint-tail : (x : ℕ) (xs ys : List ℕ) → Disjoint (x ∷ xs) ys → Disjoint xs ys
Disjoint-tail x xs ys d z m = d z (ground arith)

Disjoint-rest : (y : ℕ) (xs ys : List ℕ) → Disjoint xs (y ∷ ys) → Disjoint xs ys
Disjoint-rest y xs ys d z m = ground (arith, d z m)

Disjoint-heads : (x y : ℕ) (xs ys : List ℕ) → Disjoint (x ∷ xs) (y ∷ ys) → ltb x y ≡ false → y < x
Disjoint-heads x y xs ys d l = ground (arith, d x (mem_self x xs))

pub merge-IsSorted :
    (xs ys : List ℕ) → IsSorted xs → IsSorted ys → Disjoint xs ys → IsSorted (merge xs ys)
unfolding merge
merge-IsSorted [] ys s t d = t
merge-IsSorted (x ∷ xs) [] s t d = s
merge-IsSorted (x ∷ xs) (y ∷ ys) (a, s) (b, t) d = elim (Bool-cases (ltb x y)) [
  | inl l ↦
      let h : x < y = ground arith in
      rw l (
        merge-Above x xs (y ∷ ys) a (h, Above-weaken x y ys (omega arith) b),
        merge-IsSorted xs (y ∷ ys) s (b, t) (Disjoint-tail x xs (y ∷ ys) d),
      )
  | inr l ↦
      let h : y < x = Disjoint-heads x y xs ys d l in
      rw l (
        merge-Above y (x ∷ xs) ys (h, Above-weaken y x xs (omega arith) a) b,
        merge-IsSorted (x ∷ xs) ys (a, s) t (Disjoint-rest y (x ∷ xs) ys d),
      )
]

abbrev IsDescending : List ℕ → Type 0
IsDescending [] = Unit {0}
IsDescending (x ∷ xs) = Below x xs × IsDescending xs

pub mem-backwards : (z : ℕ) (xs acc : List ℕ) → mem z (backwards xs acc) ≡ mem z xs || mem z acc
unfolding backwards
mem-backwards z [] acc = refl
mem-backwards z (x ∷ xs) acc = ground (arith, mem-backwards z xs (x ∷ acc))

backwards-IsDescending :
    (xs acc : List ℕ)
    → IsSorted xs
    → IsDescending acc
    → All (λ x. Below x acc) xs
    → IsDescending (backwards xs acc)
unfolding backwards
backwards-IsDescending [] acc s d h = d
backwards-IsDescending (x ∷ xs) acc (a, s) d (p, h) =
    backwards-IsDescending xs (x ∷ acc) s (p, d) (both xs a h)
  where
    both : (ys : List ℕ) → Above x ys → All (λ y. Below y acc) ys → All (λ y. Below y (x ∷ acc)) ys
    both [] u v = tt
    both (y ∷ ys) (u, us) (v, vs) = ((u, v), both ys us vs)

Below-empty : (xs : List ℕ) → All (λ x. Below x []) xs
Below-empty [] = tt
Below-empty (x ∷ xs) = (tt, Below-empty xs)

pub mem-merge_back :
    (z : ℕ) (xs ys acc : List ℕ)
    → mem z (merge_back xs ys acc) ≡ mem z xs || (mem z ys || mem z acc)
unfolding merge_back
mem-merge_back z [] [] acc = refl
mem-merge_back z (x ∷ xs) [] acc = ground (arith, mem-merge_back z xs [] (x ∷ acc))
mem-merge_back z [] (y ∷ ys) acc = ground (arith, mem-merge_back z [] ys (y ∷ acc))
mem-merge_back z (x ∷ xs) (y ∷ ys) acc =
    ground (arith, mem-merge_back z xs (y ∷ ys) (x ∷ acc), mem-merge_back z (x ∷ xs) ys (y ∷ acc))

-- Everything that is placed is above what is left to place.
abbrev Over : List ℕ → List ℕ → List ℕ → Type 0
Over xs ys acc = All (λ a. Below a xs × Below a ys) acc

Over→Above : (x : ℕ) (xs ys acc : List ℕ) → Over (x ∷ xs) ys acc → Above x acc
Over→Above x xs ys [] o = tt
Over→Above x xs ys (a ∷ acc) (((p, q), r), o) = (p, Over→Above x xs ys acc o)

Over→Above_right : (y : ℕ) (xs ys acc : List ℕ) → Over xs (y ∷ ys) acc → Above y acc
Over→Above_right y xs ys [] o = tt
Over→Above_right y xs ys (a ∷ acc) ((r, (p, q)), o) = (p, Over→Above_right y xs ys acc o)

Over-left : (x : ℕ) (xs ys acc : List ℕ) → Over (x ∷ xs) ys acc → Over xs ys acc
Over-left x xs ys [] o = tt
Over-left x xs ys (a ∷ acc) (((p, q), r), o) = ((q, r), Over-left x xs ys acc o)

Over-right : (y : ℕ) (xs ys acc : List ℕ) → Over xs (y ∷ ys) acc → Over xs ys acc
Over-right y xs ys [] o = tt
Over-right y xs ys (a ∷ acc) ((r, (p, q)), o) = ((r, q), Over-right y xs ys acc o)

Below-weaken : (a b : ℕ) (xs : List ℕ) → a ≤ b → Below a xs → Below b xs
Below-weaken a b xs h = All-weaken (λ y. y < a) (λ y. y < b) (λ y p. omega arith) xs

merge_back-IsSorted :
    (xs ys acc : List ℕ)
    → IsDescending xs
    → IsDescending ys
    → Disjoint xs ys
    → IsSorted acc
    → Over xs ys acc
    → IsSorted (merge_back xs ys acc)
unfolding merge_back
merge_back-IsSorted [] [] acc d e j s o = s
merge_back-IsSorted (x ∷ xs) [] acc (a, d) e j s o =
    merge_back-IsSorted xs [] (x ∷ acc) d e (λ z m. refl) (Over→Above x xs [] acc o, s)
      ((a, tt), Over-left x xs [] acc o)
merge_back-IsSorted [] (y ∷ ys) acc d (b, e) j s o =
    merge_back-IsSorted [] ys (y ∷ acc) d e (λ z m. absurd cc) (Over→Above_right y [] ys acc o, s)
      ((tt, b), Over-right y [] ys acc o)
merge_back-IsSorted (x ∷ xs) (y ∷ ys) acc (a, d) (b, e) j s o = elim (Bool-cases (ltb y x)) [
  | inl l ↦
      let h : y < x = ground arith in
      rw l (
        merge_back-IsSorted xs (y ∷ ys) (x ∷ acc) d (b, e) (Disjoint-tail x xs (y ∷ ys) j)
          (Over→Above x xs (y ∷ ys) acc o, s)
          ((a, (h, Below-weaken y x ys (omega arith) b)), Over-left x xs (y ∷ ys) acc o))
  | inr l ↦
      let h : x < y = ground (arith, j x (mem_self x xs)) in
      rw l (
        merge_back-IsSorted (x ∷ xs) ys (y ∷ acc) (a, d) e (Disjoint-rest y (x ∷ xs) ys j)
          (Over→Above_right y (x ∷ xs) ys acc o, s)
          (((h, Below-weaken x y xs (omega arith) a), b), Over-right y (x ∷ xs) ys acc o))
]

-- The merge from the back gives what the merge from the front gives.
pub merge_back-merge :
    (xs ys : List ℕ)
    → IsSorted xs
    → IsSorted ys
    → Disjoint xs ys
    → merge_back (backwards xs []) (backwards ys []) [] ≡ merge xs ys
merge_back-merge xs ys s t d =
    sorted_ext _ _
      (merge_back-IsSorted (backwards xs []) (backwards ys []) []
        (backwards-IsDescending xs [] s tt (Below-empty xs))
        (backwards-IsDescending ys [] t tt (Below-empty ys))
        (λ z m. ground (arith, d z, mem-backwards z xs [], mem-backwards z ys [])) tt tt)
      (merge-IsSorted xs ys s t d)
      (λ z. ground (
        arith,
        mem-merge z xs ys,
        mem-merge_back z (backwards xs []) (backwards ys []) [],
        mem-backwards z xs [],
        mem-backwards z ys [],
      ))

pub mem-merge_union : (z : ℕ) (xs ys : List ℕ) → mem z (merge_union xs ys) ≡ mem z xs || mem z ys
unfolding merge_union
mem-merge_union z [] ys = refl
mem-merge_union z (x ∷ xs) [] = ground arith
mem-merge_union z (x ∷ xs) (y ∷ ys) =
    ground
      (arith, mem-merge_union z xs (y ∷ ys), mem-merge_union z (x ∷ xs) ys, mem-merge_union z xs ys)

merge_union-Above : (a : ℕ) (xs ys : List ℕ) → Above a xs → Above a ys → Above a (merge_union xs ys)
unfolding merge_union
merge_union-Above a [] ys h k = k
merge_union-Above a (x ∷ xs) [] h k = h
merge_union-Above a (x ∷ xs) (y ∷ ys) (p, h) (q, k) = elim (Bool-cases (ltb x y)) [
  | inl l ↦ rw l (p, merge_union-Above a xs (y ∷ ys) h (q, k))
  | inr l ↦ elim (Bool-cases (ltb y x)) [
    | inl m ↦ rw (l, m) (q, merge_union-Above a (x ∷ xs) ys (p, h) k)
    | inr m ↦ rw (l, m) (p, merge_union-Above a xs ys h k)
  ]
]

pub merge_union-IsSorted :
    (xs ys : List ℕ) → IsSorted xs → IsSorted ys → IsSorted (merge_union xs ys)
unfolding merge_union
merge_union-IsSorted [] ys s t = t
merge_union-IsSorted (x ∷ xs) [] s t = s
merge_union-IsSorted (x ∷ xs) (y ∷ ys) (a, s) (b, t) = elim (Bool-cases (ltb x y)) [
  | inl l ↦
      let h : x < y = ground arith in
      rw l (
        merge_union-Above x xs (y ∷ ys) a (h, Above-weaken x y ys (omega arith) b),
        merge_union-IsSorted xs (y ∷ ys) s (b, t),
      )
  | inr l ↦ elim (Bool-cases (ltb y x)) [
    | inl m ↦
        let h : y < x = ground arith in
        rw (l, m)
          (
            merge_union-Above y (x ∷ xs) ys (h, Above-weaken y x xs (omega arith) a) b,
            merge_union-IsSorted (x ∷ xs) ys (a, s) t,
          )
    | inr m ↦
        rw (l, m)
          (
            merge_union-Above x xs ys a (Above-weaken x y ys (ground arith) b),
            merge_union-IsSorted xs ys s t,
          )
  ]
]

-- The last member is the greatest.
pub last_id-greatest : (xs : List ℕ) → IsSorted xs → All (λ x. x ≤ last_id xs) xs
last_id-greatest [] s = tt
last_id-greatest (x ∷ []) s = (omega arith, tt)
last_id-greatest (x ∷ y ∷ ys) ((p, a), s) =
    let rest : All (λ z. z ≤ last_id (y ∷ ys)) (y ∷ ys) = last_id-greatest (y ∷ ys) s in
    (omega (arith, rest.0), rest)
