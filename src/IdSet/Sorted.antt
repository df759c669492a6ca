-- ===== src/IdSet/Sorted.antt =====
-- Strictly ascending lists of ids, their members, and the searches and merges of
-- internal/idset/idset.go over them.
use tx.Base.{
  ℕ, ◌<◌, ◌≤◌, ◌≡◌, refl, sym, ap, ◌∙◌, subst, Bool, true, false, ◌||◌, List, [], ◌∷◌, ◌++◌,
  if◌then◌else◌, ltb, ◌==◌, All, arith, All-append, Bool-cases, inl, inr,
}
use tx.IdSet.{binary_search, insert_at}

abbrev pub mem : ℕ → List ℕ → Bool
mem x [] = false
mem x (y ∷ ys) = x == y || mem x ys

abbrev pub Above : ℕ → List ℕ → Type 0
Above x = All (λ y. x < y)

abbrev pub Below : ℕ → List ℕ → Type 0
Below x = All (λ y. y < x)

abbrev pub IsSorted : List ℕ → Type 0
IsSorted [] = Unit {0}
IsSorted (x ∷ xs) = Above x xs × IsSorted xs

-- The place of an id in an ascending list, in which it stands once.
abbrev pub insert : ℕ → List ℕ → List ℕ
insert x [] = x ∷ []
insert x (y ∷ ys) =
    let rest = insert x ys in if ltb x y then x ∷ y ∷ ys else (if x == y then y ∷ ys else y ∷ rest)

pub All-weaken : (P Q : ℕ → Type 0) → ((y : ℕ) → P y → Q y) → (xs : List ℕ) → All P xs → All Q xs
All-weaken P Q f [] h = tt
All-weaken P Q f (x ∷ xs) (p, h) = (f x p, All-weaken P Q f xs h)

pub Above-weaken : (a b : ℕ) (xs : List ℕ) → a ≤ b → Above b xs → Above a xs
Above-weaken a b xs h = All-weaken (λ y. b < y) (λ y. a < y) (λ y p. omega arith) xs

pub mem-Above : (x : ℕ) (xs : List ℕ) → Above x xs → mem x xs ≡ false
mem-Above x [] h = refl
mem-Above x (y ∷ ys) (p, h) = ground (arith, mem-Above x ys h)

pub mem-append : (x : ℕ) (xs ys : List ℕ) → mem x (xs ++ ys) ≡ mem x xs || mem x ys
mem-append x [] ys = refl
mem-append x (z ∷ xs) ys = ground (arith, mem-append x xs ys)

pub mem-All : (P : ℕ → Type 0) (x : ℕ) (xs : List ℕ) → All P xs → mem x xs ≡ true → P x
mem-All P x [] h e = absurd cc
mem-All P x (y ∷ ys) (p, h) e = elim (Bool-cases (x == y)) [
  | inl q ↦ (let r : x ≡ y = ground arith in subst P (sym r) p)
  | inr q ↦ mem-All P x ys h (rw q at e)
]

pub mem-insert : (x z : ℕ) (ys : List ℕ) → mem x (insert z ys) ≡ x == z || mem x ys
mem-insert x z [] = refl
mem-insert x z (y ∷ ys) = ground (arith, mem-insert x z ys)

insert-Above : (a x : ℕ) (ys : List ℕ) → a < x → Above a ys → Above a (insert x ys)
insert-Above a x [] h k = (h, tt)
insert-Above a x (y ∷ ys) h (p, k) = ground (arith, insert-Above a x ys h k)

pub insert-IsSorted : (x : ℕ) (ys : List ℕ) → IsSorted ys → IsSorted (insert x ys)
insert-IsSorted x [] s = (tt, tt)
insert-IsSorted x (y ∷ ys) (a, s) = elim (Bool-cases (ltb x y)) [
  | inl l ↦ rw l ((ground arith, Above-weaken x y ys (ground arith) a), (a, s))
  | inr l ↦ elim (Bool-cases (x == y)) [
    | inl q ↦ rw (l, q) (a, s)
    | inr q ↦ rw (l, q) (insert-Above y x ys (ground arith) a, insert-IsSorted x ys s)
  ]
]

pub IsSorted-append :
    (xs ys : List ℕ) → IsSorted xs → IsSorted ys → All (λ x. Above x ys) xs → IsSorted (xs ++ ys)
IsSorted-append [] ys s t h = t
IsSorted-append (x ∷ xs) ys (a, s) t (p, h) =
    (All-append (λ y. x < y) xs ys a p, IsSorted-append xs ys s t h)

pub mem_self : (x : ℕ) (xs : List ℕ) → mem x (x ∷ xs) ≡ true
mem_self x xs = ground arith

pub mem_less : (x y : ℕ) (ys : List ℕ) → x < y → Above y ys → mem x (y ∷ ys) ≡ false
mem_less x y ys h a = mem-Above x (y ∷ ys) (h, Above-weaken x y ys (omega arith) a)

mem_tail :
    (x : ℕ) (xs ys : List ℕ)
    → Above x xs
    → Above x ys
    → ((z : ℕ) → mem z (x ∷ xs) ≡ mem z (x ∷ ys))
    → (z : ℕ) → mem z xs ≡ mem z ys
mem_tail x xs ys a b h z = elim (Bool-cases (z == x)) [
  | inl q ↦
      let e : z ≡ x = ground arith in
      subst (λ k. mem k xs ≡ mem k ys) (sym e) (mem-Above x xs a ∙ sym (mem-Above x ys b))
  | inr q ↦ (let hz : mem z (x ∷ xs) ≡ mem z (x ∷ ys) = h z in rw q at hz)
]

-- Ascending lists with the same members are equal.
pub sorted_ext :
    (xs ys : List ℕ) → IsSorted xs → IsSorted ys → ((z : ℕ) → mem z xs ≡ mem z ys) → xs ≡ ys
sorted_ext [] [] s t h = refl
sorted_ext [] (y ∷ ys) s t h = absurd (ground (arith, h y))
sorted_ext (x ∷ xs) [] s t h = absurd (ground (arith, h x))
sorted_ext (x ∷ xs) (y ∷ ys) (a, s) (b, t) h = elim (Bool-cases (ltb x y)) [
  | inl l ↦ absurd (cc (h x, mem_self x xs, mem_less x y ys (ground arith) b))
  | inr l ↦ elim (Bool-cases (ltb y x)) [
    | inl m ↦ absurd (cc (h y, mem_self y ys, mem_less y x xs (ground arith) a))
    | inr m ↦
        let e : y ≡ x = ground arith in
        let b' : Above x ys = subst (λ k. Above k ys) e b in
        let h' : ((z : ℕ) → mem z (x ∷ xs) ≡ mem z (x ∷ ys)) =
          subst (λ k. (z : ℕ) → mem z (x ∷ xs) ≡ mem z (k ∷ ys)) e h in
        ap (λ (t : List ℕ). x ∷ t) (sorted_ext xs ys s t (mem_tail x xs ys a b' h'))
        ∙ ap (λ k. k ∷ ys) (sym e)
  ]
]

pub binary_search-mem : (xs : List ℕ) (x : ℕ) → IsSorted xs → (binary_search xs x).1 ≡ mem x xs
unfolding binary_search
binary_search-mem [] x s = refl
binary_search-mem (y ∷ ys) x (a, s) =
    ground (arith, binary_search-mem ys x s, mem_less x y ys, mem-Above x ys)

pub insert_at-binary_search :
    (xs : List ℕ) (x : ℕ) → mem x xs ≡ false → insert_at xs (binary_search xs x).0 x ≡ insert x xs
unfolding binary_search
insert_at-binary_search [] x m = refl
insert_at-binary_search (y ∷ ys) x m = elim (Bool-cases (ltb y x)) [
  | inl l ↦ ground (arith, insert_at-binary_search ys x)
  | inr l ↦ ground arith
]
