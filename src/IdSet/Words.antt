-- ===== src/IdSet/Words.antt =====
-- The words of the bitset form of internal/idset/idset.go, and the ids they hold.
use tx.Base.{
  ℕ, zero, suc, ◌+◌, ◌-◌, ◌*◌, ◌/◌, ◌%◌, ◌<◌, ◌≤◌, ◌≡◌, refl, sym, ap, ◌∙◌, subst, false, ◌||◌,
  List, [], ◌∷◌, ◌≢◌, if◌then◌else◌, ◌==◌, arith, Bool-cases, inl, inr,
}
use tx.IdSet.{test_bit, set_bit, trailing_zeros, clear_lowest, word_ids}

-- A word of so many bits.
pub Fits : ℕ → ℕ → Type 0
Fits zero w = w ≡ 0
Fits (suc f) w = Fits f (w / 2)

abbrev pub FitsWord : ℕ → Type 0
FitsWord = Fits 64

pub test_bit_zero : (k : ℕ) → test_bit k 0 ≡ false
unfolding test_bit
test_bit_zero zero = refl
test_bit_zero (suc k) = test_bit_zero k

pub half : (a b : ℕ) → b < 2 → (a * 2 + b) / 2 ≡ a
half a b h = omega arith

pub test_bit-set_bit : (k j w : ℕ) → test_bit k (set_bit j w) ≡ k == j || test_bit k w
unfolding test_bit set_bit
test_bit-set_bit zero zero w = ground arith
test_bit-set_bit zero (suc j) w = ground arith
test_bit-set_bit (suc k) zero w = rw (half (w / 2) 1 (omega arith)) (ground arith)
test_bit-set_bit (suc k) (suc j) w =
    rw (half (set_bit j (w / 2)) (w % 2) (omega arith))
      (ground (arith, test_bit-set_bit k j (w / 2)))

pub Fits-set_bit : (f j w : ℕ) → j < f → Fits f w → Fits f (set_bit j w)
unfolding set_bit Fits
Fits-set_bit zero j w h p = absurd (omega arith)
Fits-set_bit (suc f) zero w h p = rw (half (w / 2) 1 (omega arith)) p
Fits-set_bit (suc f) (suc j) w h p =
    rw (half (set_bit j (w / 2)) (w % 2) (omega arith)) (Fits-set_bit f j (w / 2) (omega arith) p)

pub Fits-zero : (f : ℕ) → Fits f 0
unfolding Fits
Fits-zero zero = refl
Fits-zero (suc f) = Fits-zero f

Fits-more : (f w : ℕ) → Fits f w → Fits (suc f) w
unfolding Fits
Fits-more zero w h = omega arith
Fits-more (suc f) w h = Fits-more f (w / 2) h

Fits-half : (f w : ℕ) → Fits f w → Fits f (w / 2)
unfolding Fits
Fits-half f w h = Fits-more f w h

-- The ids of a word bit by bit.
unfoldable pub scan : ℕ → ℕ → ℕ → List ℕ
scan base zero w = []
scan base (suc f) w =
    let more = scan (suc base) f (w / 2) in if w % 2 == 1 then base ∷ more else more

trailing_zeros_more : (f w : ℕ) → Fits f w → w ≢ 0 → trailing_zeros (suc f) w ≡ trailing_zeros f w
unfolding trailing_zeros Fits
trailing_zeros_more zero w h n = absurd (n h)
trailing_zeros_more (suc f) w h n = ground (arith, trailing_zeros_more f (w / 2) h)

clear_lowest_more : (f w : ℕ) → Fits f w → w ≢ 0 → clear_lowest (suc f) w ≡ clear_lowest f w
unfolding clear_lowest Fits
clear_lowest_more zero w h n = absurd (n h)
clear_lowest_more (suc f) w h n = ground (arith, clear_lowest_more f (w / 2) h)

clear_lowest_zero : (f : ℕ) → clear_lowest f 0 ≡ 0
unfolding clear_lowest
clear_lowest_zero zero = refl
clear_lowest_zero (suc f) = rw (clear_lowest_zero f) refl

Fits-clear_lowest : (f g w : ℕ) → Fits f w → Fits f (clear_lowest g w)
unfolding clear_lowest Fits
Fits-clear_lowest f zero w h = h
Fits-clear_lowest zero (suc g) w h =
    subst (λ k. clear_lowest (suc g) k ≡ 0) (sym h) (clear_lowest_zero (suc g))
Fits-clear_lowest (suc f) (suc g) w h = elim (Bool-cases (w % 2 == 1)) [
  | inl o ↦ rw o (let e : w / 2 ≡ (w - 1) / 2 = ground arith in subst (λ k. Fits f k) e h)
  | inr o ↦ rw o (
      let e : clear_lowest g (w / 2) ≡ clear_lowest g (w / 2) * 2 / 2 = omega arith in
      subst (λ k. Fits f k) e (Fits-clear_lowest f g (w / 2) h))
]

trailing_zeros_step :
    (f w : ℕ) → w % 2 ≡ 0 → trailing_zeros (suc f) w ≡ suc (trailing_zeros f (w / 2))
unfolding trailing_zeros
trailing_zeros_step f w e = ground arith

clear_lowest_step : (f w : ℕ) → w % 2 ≡ 0 → clear_lowest (suc f) w ≡ clear_lowest f (w / 2) * 2
unfolding clear_lowest
clear_lowest_step f w e = ground arith

trailing_zeros_even :
    (f w : ℕ)
    → Fits (suc f) w
    → w % 2 ≡ 0
    → w ≢ 0
    → trailing_zeros (suc f) w ≡ suc (trailing_zeros (suc f) (w / 2))
unfolding Fits
trailing_zeros_even f w h e n =
    trailing_zeros_step f w e
    ∙ ap suc (sym (trailing_zeros_more f (w / 2) h (λ z. n (omega arith))))

clear_lowest_even :
    (f w : ℕ)
    → Fits (suc f) w
    → w % 2 ≡ 0
    → w ≢ 0
    → clear_lowest (suc f) w ≡ clear_lowest (suc f) (w / 2) * 2
unfolding Fits
clear_lowest_even f w h e n =
    clear_lowest_step f w e
    ∙ ap (λ k. k * 2) (sym (clear_lowest_more f (w / 2) h (λ z. n (omega arith))))

word_ids_zero : (base f : ℕ) → word_ids base f 0 ≡ []
unfolding word_ids
word_ids_zero base zero = refl
word_ids_zero base (suc f) = refl

word_ids_some :
    (base f w : ℕ)
    → w ≢ 0
    → word_ids base (suc f) w ≡ (base + trailing_zeros 64 w) ∷ word_ids base f (clear_lowest 64 w)
unfolding word_ids
word_ids_some base f w n = ground arith

-- The ids of an even word are those of its half, one up.
word_ids_even :
    (base f w : ℕ) → FitsWord w → w % 2 ≡ 0 → word_ids base f w ≡ word_ids (suc base) f (w / 2)
word_ids_even base zero w h e = unfold word_ids in refl
word_ids_even base (suc f) w h e = elim (Bool-cases (w == 0)) [
  | inl z ↦
      (let q : w ≡ 0 = ground arith in
        subst (λ k. word_ids base (suc f) k ≡ word_ids (suc base) (suc f) (k / 2)) (sym q)
          (word_ids_zero base (suc f) ∙ sym (word_ids_zero (suc base) (suc f))))
  | inr z ↦
      let n : w ≢ 0 = ground arith in
      let m : w / 2 ≢ 0 = (λ q. n (omega arith)) in
      let c : clear_lowest 64 w ≡ clear_lowest 64 (w / 2) * 2 = clear_lowest_even 63 w h e n in
      let t : base + trailing_zeros 64 w ≡ suc base + trailing_zeros 64 (w / 2) =
        omega (arith, trailing_zeros_even 63 w h e n) in
      let d : clear_lowest 64 w / 2 ≡ clear_lowest 64 (w / 2) = omega (arith, c) in
      let rest : word_ids base f (clear_lowest 64 w)
          ≡ word_ids (suc base) f (clear_lowest 64 (w / 2)) =
        word_ids_even base f (clear_lowest 64 w) (Fits-clear_lowest 64 64 w h) (omega (arith, c))
        ∙ ap (word_ids (suc base) f) d in
      word_ids_some base f w n
      ∙ ap (λ k. k ∷ word_ids base f (clear_lowest 64 w)) t
      ∙ ap (λ (k : List ℕ). (suc base + trailing_zeros 64 (w / 2)) ∷ k) rest
      ∙ sym (word_ids_some (suc base) f (w / 2) m)
]

odd_first : (f w : ℕ) → w % 2 ≡ 1 → trailing_zeros (suc f) w ≡ 0
unfolding trailing_zeros
odd_first f w o = ground arith

odd_rest : (f w : ℕ) → w % 2 ≡ 1 → clear_lowest (suc f) w ≡ w - 1
unfolding clear_lowest
odd_rest f w o = ground arith

Fits-pred : (f w : ℕ) → w % 2 ≡ 1 → Fits (suc f) w → Fits (suc f) (w - 1)
unfolding Fits
Fits-pred f w o h = (let e : w / 2 ≡ (w - 1) / 2 = omega arith in subst (λ k. Fits f k) e h)

-- The loop over the lowest bits finds what the scan of all bits finds.
word_ids-scan : (k f base w : ℕ) → k ≤ f → FitsWord w → Fits k w → word_ids base f w ≡ scan base k w
unfolding scan
word_ids-scan zero f base w l h p =
    let q : w ≡ 0 = unfold Fits in p in ap (word_ids base f) q ∙ word_ids_zero base f
word_ids-scan (suc k) zero base w l h p = absurd (omega arith)
word_ids-scan (suc k) (suc f) base w l h p =
    let p' : Fits k (w / 2) = unfold Fits in p in
    elim (Bool-cases (w % 2 == 1)) [
      | inr e ↦ rw e (
          word_ids_even base (suc f) w h (ground arith)
          ∙ word_ids-scan k (suc f) (suc base) (w / 2) (omega arith) (Fits-half 64 w h) p')
      | inl e ↦
          let o : w % 2 ≡ 1 = ground arith in
          let n : w ≢ 0 = (λ q. (let r : w % 2 ≡ 0 = omega (arith, q) in omega (arith, o, r))) in
          let g : (w - 1) / 2 ≡ w / 2 = omega arith in
          rw e (
            word_ids_some base f w n
            ∙ ap (λ j. j ∷ word_ids base f (clear_lowest 64 w)) (omega (arith, odd_first 63 w o))
            ∙ ap (λ (t : List ℕ). base ∷ t)
                (ap (word_ids base f) (odd_rest 63 w o)
                  ∙ word_ids_even base f (w - 1) (Fits-pred 63 w o h) (omega arith)
                  ∙ ap (word_ids (suc base) f) g
                  ∙ word_ids-scan k f (suc base) (w / 2) (omega arith) (Fits-half 64 w h) p'))
    ]

pub word_ids-scan_all : (base w : ℕ) → FitsWord w → word_ids base 64 w ≡ scan base 64 w
word_ids-scan_all base w h = word_ids-scan 64 64 base w (omega arith) h h
