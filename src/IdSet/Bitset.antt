-- ===== src/IdSet/Bitset.antt =====
-- The bitset form of internal/idset/idset.go as a list of words: its members and their order.
use tx.Base.{
  ℕ, zero, suc, ◌+◌, ◌-◌, ◌*◌, ◌/◌, ◌%◌, ◌<◌, ◌≤◌, ◌≡◌, refl, sym, ap, ◌∙◌, subst, false, ◌&&◌,
  ◌||◌, List, [], ◌∷◌, ◌++◌, ◌≢◌, if◌then◌else◌, ltb, leb, ◌==◌, length, get_or, set, replicate,
  All, arith, All-append, Bool-cases, inl, inr, length-set, ◌⊎◌, ==→eq, lt→ltb,
}
use tx.IdSet.{test_bit, set_bit, word_ids, words_ids, mark, mark_all}
use tx.IdSet.Sorted.{
  mem, Above, Below, IsSorted, All-weaken, mem-Above, mem-append, IsSorted-append,
}
use tx.IdSet.Words.{
  FitsWord, scan, word_ids-scan_all, test_bit_zero, test_bit-set_bit, Fits-set_bit, Fits-zero,
}

scan-Above : (a base f w : ℕ) → a < base → Above a (scan base f w)
unfolding scan
scan-Above a base zero w h = tt
scan-Above a base (suc f) w h = ground (arith, scan-Above a (suc base) f (w / 2))

scan-Below : (b base f w : ℕ) → base + f ≤ b → Below b (scan base f w)
unfolding scan
scan-Below b base zero w h = tt
scan-Below b base (suc f) w h = ground (arith, scan-Below b (suc base) f (w / 2))

scan-IsSorted : (base f w : ℕ) → IsSorted (scan base f w)
unfolding scan
scan-IsSorted base zero w = tt
scan-IsSorted base (suc f) w = elim (Bool-cases (w % 2 == 1)) [
  | inl o ↦
      rw o (scan-Above base (suc base) f (w / 2) (omega arith), scan-IsSorted (suc base) f (w / 2))
  | inr o ↦ rw o (scan-IsSorted (suc base) f (w / 2))
]

below_base : (z base f w : ℕ) → z < base → mem z (scan base f w) ≡ false
below_base z base f w h = mem-Above z (scan base f w) (scan-Above z base f w h)

test_bit_next : (k w : ℕ) → k ≢ 0 → test_bit k w ≡ test_bit (k - 1) (w / 2)
unfolding test_bit
test_bit_next zero w n = absurd (n refl)
test_bit_next (suc k) w n = (let e : k ≡ suc k - 1 = omega arith in ap (λ j. test_bit j (w / 2)) e)

mem-scan_in :
    (z base f w : ℕ) → base ≤ z → z < base + f → mem z (scan base f w) ≡ test_bit (z - base) w
unfolding scan
mem-scan_in z base zero w h k = absurd (omega arith)
mem-scan_in z base (suc f) w h k = elim (Bool-cases (z == base)) [
  | inl e ↦
      let q : z - base ≡ 0 = ground arith in
      let r : mem z (scan (suc base) f (w / 2)) ≡ false =
        below_base z (suc base) f (w / 2) (ground arith) in
      rw q (unfold test_bit in ground (arith, r, e))
  | inr e ↦
      let n : z - base ≢ 0 = ground arith in
      let g : z - base - 1 ≡ z - suc base = omega arith in
      let r : mem z (scan (suc base) f (w / 2)) ≡ test_bit (z - suc base) (w / 2) =
        mem-scan_in z (suc base) f (w / 2) (ground arith) (omega arith) in
      let t : test_bit (z - base) w ≡ test_bit (z - suc base) (w / 2) =
        test_bit_next (z - base) w n ∙ ap (λ j. test_bit j (w / 2)) g in
      ground (arith, r, t, e)
]

mem-scan_out : (z base f w : ℕ) → z < base ⊎ base + f ≤ z → mem z (scan base f w) ≡ false
unfolding scan
mem-scan_out z base zero w h = refl
mem-scan_out z base (suc f) w h = ground (arith, mem-scan_out z (suc base) f (w / 2))

get_or_next : (w : ℕ) (ws : List ℕ) (k : ℕ) → k ≢ 0 → get_or (w ∷ ws) k 0 ≡ get_or ws (k - 1) 0
get_or_next w ws zero n = absurd (n refl)
get_or_next w ws (suc k) n = (let e : k ≡ suc k - 1 = omega arith in ap (λ j. get_or ws j 0) e)

-- The id is one of those from word `wi` on.
pub mem-words_ids :
    (z wi : ℕ) (ws : List ℕ)
    → All FitsWord ws
    → mem z (words_ids wi ws) ≡ leb wi (z / 64) && test_bit (z % 64) (get_or ws (z / 64 - wi) 0)
unfolding words_ids
mem-words_ids z wi [] h = rw (test_bit_zero (z % 64)) (ground arith)
mem-words_ids z wi (w ∷ ws) (p, h) =
    let q : mem z (word_ids (wi * 64) 64 w ++ words_ids (suc wi) ws)
        ≡ mem z (scan (wi * 64) 64 w) || mem z (words_ids (suc wi) ws) =
      mem-append z (word_ids (wi * 64) 64 w) (words_ids (suc wi) ws)
      ∙ ap (λ t. mem z t || mem z (words_ids (suc wi) ws)) (word_ids-scan_all (wi * 64) w p) in
    let r : mem z (words_ids (suc wi) ws)
        ≡ leb (suc wi) (z / 64) && test_bit (z % 64) (get_or ws (z / 64 - suc wi) 0) =
      mem-words_ids z (suc wi) ws h in
    elim (Bool-cases (z / 64 == wi)) [
      | inl e ↦
          let i : z / 64 - wi ≡ 0 = ground arith in
          let j : z - wi * 64 ≡ z % 64 = ground arith in
          let t : mem z (scan (wi * 64) 64 w) ≡ test_bit (z % 64) w =
            mem-scan_in z (wi * 64) 64 w (ground arith) (ground arith) ∙ ap (λ k. test_bit k w) j in
          q ∙ rw (i, t, r) (ground (arith, e))
      | inr e ↦
          let t : mem z (scan (wi * 64) 64 w) ≡ false =
            mem-scan_out z (wi * 64) 64 w (ground arith) in
          q
          ∙ rw (t, r)
              (elim (Bool-cases (ltb (z / 64) wi)) [
                | inl l ↦ ground (arith, l)
                | inr l ↦
                    let n : z / 64 - wi ≢ 0 = ground arith in
                    let g : z / 64 - wi - 1 ≡ z / 64 - suc wi = omega arith in
                    let u : get_or (w ∷ ws) (z / 64 - wi) 0 ≡ get_or ws (z / 64 - suc wi) 0 =
                      get_or_next w ws (z / 64 - wi) n ∙ ap (λ k. get_or ws k 0) g in
                    rw u (ground (arith, l, e))
              ])
    ]

pub get_or_out : (ws : List ℕ) (i : ℕ) → length ws ≤ i → get_or ws i 0 ≡ 0
get_or_out [] i h = refl
get_or_out (w ∷ ws) zero h = absurd (omega arith)
get_or_out (w ∷ ws) (suc i) h = get_or_out ws i (omega arith)

-- The lookup in the bitset finds the ids that the iteration yields.
pub lookup-mem :
    (z : ℕ) (ws : List ℕ)
    → All FitsWord ws
    → ltb (z / 64) (length ws) && test_bit (z % 64) (get_or ws (z / 64) 0) ≡ mem z (words_ids 0 ws)
lookup-mem z ws h =
    let e : z / 64 - 0 ≡ z / 64 = omega arith in
    let m : mem z (words_ids 0 ws) ≡ leb 0 (z / 64) && test_bit (z % 64) (get_or ws (z / 64) 0) =
      mem-words_ids z 0 ws h ∙ ap (λ k. leb 0 (z / 64) && test_bit (z % 64) (get_or ws k 0)) e in
    elim (Bool-cases (ltb (z / 64) (length ws))) [
      | inl l ↦ ground (arith, m, l)
      | inr l ↦
          let g : test_bit (z % 64) (get_or ws (z / 64) 0) ≡ false =
            ap (test_bit (z % 64)) (get_or_out ws (z / 64) (ground arith))
            ∙ test_bit_zero (z % 64) in
          ground (arith, m, l, g)
    ]

word_ids-AtLeast : (a base w : ℕ) → FitsWord w → a < base → Above a (word_ids base 64 w)
word_ids-AtLeast a base w h l =
    subst (Above a) (sym (word_ids-scan_all base w h)) (scan-Above a base 64 w l)

words_ids-Above :
    (a wi : ℕ) (ws : List ℕ) → All FitsWord ws → a < wi * 64 → Above a (words_ids wi ws)
unfolding words_ids
words_ids-Above a wi [] h l = tt
words_ids-Above a wi (w ∷ ws) (p, h) l =
    All-append (λ y. a < y) (word_ids (wi * 64) 64 w) (words_ids (suc wi) ws)
      (word_ids-AtLeast a (wi * 64) w p l) (words_ids-Above a (suc wi) ws h (omega arith))

pub words_ids-IsSorted : (wi : ℕ) (ws : List ℕ) → All FitsWord ws → IsSorted (words_ids wi ws)
unfolding words_ids
words_ids-IsSorted wi [] h = tt
words_ids-IsSorted wi (w ∷ ws) (p, h) =
    let e = sym (word_ids-scan_all (wi * 64) w p) in
    IsSorted-append (word_ids (wi * 64) 64 w) (words_ids (suc wi) ws)
      (subst IsSorted e (scan-IsSorted (wi * 64) 64 w)) (words_ids-IsSorted (suc wi) ws h)
      (All-weaken (λ y. y < suc wi * 64) (λ y. Above y (words_ids (suc wi) ws))
        (λ y l. words_ids-Above y (suc wi) ws h l) (word_ids (wi * 64) 64 w)
        (subst (Below (suc wi * 64)) e (scan-Below (suc wi * 64) (wi * 64) 64 w (omega arith))))

get_or-set :
    (ws : List ℕ) (i j v : ℕ)
    → i < length ws
    → get_or (set ws i v) j 0 ≡ (if j == i then v else get_or ws j 0)
get_or-set [] i j v h = absurd (omega arith)
get_or-set (w ∷ ws) zero zero v h = refl
get_or-set (w ∷ ws) zero (suc j) v h = ground arith
get_or-set (w ∷ ws) (suc i) zero v h = ground arith
get_or-set (w ∷ ws) (suc i) (suc j) v h = ground (arith, get_or-set ws i j v)

All-set : (P : ℕ → Type 0) (ws : List ℕ) (i v : ℕ) → All P ws → P v → All P (set ws i v)
All-set P [] i v h p = tt
All-set P (w ∷ ws) zero v (q, h) p = (p, h)
All-set P (w ∷ ws) (suc i) v (q, h) p = (q, All-set P ws i v h p)

FitsWord-get_or : (ws : List ℕ) (i : ℕ) → All FitsWord ws → FitsWord (get_or ws i 0)
FitsWord-get_or [] i h = Fits-zero 64
FitsWord-get_or (w ∷ ws) zero (p, h) = p
FitsWord-get_or (w ∷ ws) (suc i) (p, h) = FitsWord-get_or ws i h

pub mark-FitsWord : (ws : List ℕ) (id : ℕ) → All FitsWord ws → All FitsWord (mark ws id)
unfolding mark
mark-FitsWord ws id h = All-set FitsWord ws (id / 64) _ h (
    Fits-set_bit 64 (id % 64) (get_or ws (id / 64) 0) (omega arith)
      (FitsWord-get_or ws (id / 64) h))

pub length-mark : (ws : List ℕ) (id : ℕ) → length (mark ws id) ≡ length ws
unfolding mark
length-mark ws id = length-set ws (id / 64) _

same_word : (z id : ℕ) → z / 64 ≡ id / 64 → (z == id) ≡ (z % 64 == id % 64)
same_word z id e = ground arith

pub mem-mark :
    (z : ℕ) (ws : List ℕ) (id : ℕ)
    → All FitsWord ws
    → id / 64 < length ws
    → mem z (words_ids 0 (mark ws id)) ≡ z == id || mem z (words_ids 0 ws)
mem-mark z ws id h l =
    let v = set_bit (id % 64) (get_or ws (id / 64) 0) in
    let a = lookup-mem z (mark ws id) (mark-FitsWord ws id h) in
    let b = lookup-mem z ws h in
    let c : get_or (mark ws id) (z / 64) 0
        ≡ (if z / 64 == id / 64 then v else get_or ws (z / 64) 0) =
      unfold mark in get_or-set ws (id / 64) (z / 64) v l in
    let t = test_bit-set_bit (z % 64) (id % 64) (get_or ws (id / 64) 0) in
    let n = length-mark ws id in
    sym a
    ∙ rw (n, c)
        (elim (Bool-cases (z / 64 == id / 64)) [
          | inl e ↦
              let q : z / 64 ≡ id / 64 = ==→eq (z / 64) (id / 64) e in
              let g = ap (λ k. test_bit (z % 64) (get_or ws k 0)) q in
              rw e (ground (arith, t, b, g, same_word z id q, lt→ltb (z / 64) (length ws)))
          | inr e ↦ rw e (ground (arith, b))
        ])

-- Words that are added behind hold no ids.
pub get_or-replicate : (n i : ℕ) → get_or {A = ℕ} (replicate n 0) i 0 ≡ 0
get_or-replicate zero i = refl
get_or-replicate (suc n) zero = refl
get_or-replicate (suc n) (suc i) = get_or-replicate n i

pub get_or-grown : (ws : List ℕ) (n i : ℕ) → get_or (ws ++ replicate n 0) i 0 ≡ get_or ws i 0
get_or-grown [] n i = get_or-replicate n i
get_or-grown (w ∷ ws) n zero = refl
get_or-grown (w ∷ ws) n (suc i) = get_or-grown ws n i

pub replicate-FitsWord : (n : ℕ) → All FitsWord (replicate n 0)
replicate-FitsWord zero = tt
replicate-FitsWord (suc n) = (Fits-zero 64, replicate-FitsWord n)

pub mem-grown :
    (z : ℕ) (ws : List ℕ) (n : ℕ)
    → All FitsWord ws
    → mem z (words_ids 0 (ws ++ replicate n 0)) ≡ mem z (words_ids 0 ws)
mem-grown z ws n h =
    mem-words_ids z 0 (ws ++ replicate n 0)
      (All-append FitsWord ws (replicate n 0) h (replicate-FitsWord n))
    ∙ ap (λ k. leb 0 (z / 64) && test_bit (z % 64) k) (get_or-grown ws n (z / 64 - 0))
    ∙ sym (mem-words_ids z 0 ws h)

pub mem-blank : (z n : ℕ) → mem z (words_ids 0 (replicate n 0)) ≡ false
mem-blank z n =
    mem-words_ids z 0 (replicate n 0) (replicate-FitsWord n)
    ∙ ap (λ k. leb 0 (z / 64) && test_bit (z % 64) k) (get_or-replicate n (z / 64 - 0))
    ∙ rw (test_bit_zero (z % 64)) (ground arith)

pub mark_all-FitsWord : (ws ids : List ℕ) → All FitsWord ws → All FitsWord (mark_all ws ids)
unfolding mark_all
mark_all-FitsWord ws [] h = h
mark_all-FitsWord ws (id ∷ ids) h = mark_all-FitsWord (mark ws id) ids (mark-FitsWord ws id h)

pub length-mark_all : (ws ids : List ℕ) → length (mark_all ws ids) ≡ length ws
unfolding mark_all
length-mark_all ws [] = refl
length-mark_all ws (id ∷ ids) = length-mark_all (mark ws id) ids ∙ length-mark ws id

pub mem-mark_all :
    (z n : ℕ) (ws ids : List ℕ)
    → All FitsWord ws
    → length ws ≡ n
    → All (λ id. id / 64 < n) ids
    → mem z (words_ids 0 (mark_all ws ids)) ≡ mem z ids || mem z (words_ids 0 ws)
unfolding mark_all
mem-mark_all z n ws [] h e l = refl
mem-mark_all z n ws (id ∷ ids) h e (p, l) = ground (
  arith,
  mem-mark_all z n (mark ws id) ids (mark-FitsWord ws id h) (length-mark ws id ∙ e) l,
  mem-mark z ws id h (omega arith),
)
