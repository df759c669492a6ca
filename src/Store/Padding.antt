-- ===== src/Store/Padding.antt =====
-- Hash tokens with white space around them and letters of either case, as store.go normalizes them.
use tx.Base.{
  ℕ, zero, suc, ◌+◌, ◌≤◌, ◌≡◌, refl, sym, ap, ◌∙◌, ◌⊎◌, inl, inr, Bool, true, false, ◌&&◌, ◌||◌, [],
  ◌∷◌, ◌++◌, if◌then◌else◌, ◌==◌, leb, length, map, All, Bool-cases, ==→eq, arith, length-append,
}
use tx.Base.Bytes.{
  Bytes, between, is_space, space_len, space_len_back, trim_go, trim_space, bytes_eq,
}
use tx.Ftcp.Items.RoundTrip.{IsGraphic, All-reverse, trim_go-zero}
use mathlib.Core.List.{reverse, reverse-append, reverse-reverse}

-- A text of visible ASCII that is not empty.
abbrev pub IsWord : Bytes → Type 0
IsWord s = All IsGraphic s × (1 ≤ length s)

abbrev pub IsBlank : ℕ → Type 0
IsBlank c = is_space c ≡ true

abbrev pub is_visible : Bytes → Bool
is_visible [] = true
is_visible (c ∷ s) = between 33 126 c && is_visible s

pub is_visible→All : (s : Bytes) → is_visible s ≡ true → All IsGraphic s
is_visible→All [] h = tt
is_visible→All (c ∷ s) h = (ground arith, is_visible→All s (ground arith))

-- The word with white space around it.
abbrev pub Padded : Bytes → Bytes → Type 0
Padded word raw =
    (lead : Bytes) × (trail : Bytes) × All IsBlank lead
    × All IsBlank trail
    × (raw ≡ lead ++ (word ++ trail))

-- The same letter, in either case, or the same character.
abbrev pub SameLetter : ℕ → ℕ → Type 0
SameLetter c d =
    (c ≡ d)
    ⊎ ((((b'A' ≤ c) × (c ≤ b'Z')) × (d ≡ c + 32)) ⊎ (((b'A' ≤ d) × (d ≤ b'Z')) × (c ≡ d + 32)))

abbrev pub SameLetters : Bytes → Bytes → Type 0
SameLetters [] [] = Unit {0}
SameLetters [] (d ∷ ds) = ⊥
SameLetters (c ∷ cs) [] = ⊥
SameLetters (c ∷ cs) (d ∷ ds) = SameLetter c d × SameLetters cs ds

abbrev pub lower_byte : ℕ → ℕ
lower_byte c = if leb b'A' c && leb c b'Z' then c + 32 else c

and_left : (a b : Bool) → a && b ≡ true → a ≡ true
and_left true b h = refl
and_left false b h = absurd (cc)

and_right : (a b : Bool) → a && b ≡ true → b ≡ true
and_right true b h = h
and_right false b h = absurd (cc)

pub SameLetters→eq :
    (a b : Bytes) → SameLetters a b → bytes_eq (map lower_byte a) (map lower_byte b) ≡ true
SameLetters→eq [] [] h = refl
SameLetters→eq [] (d ∷ b) h = absurd h
SameLetters→eq (c ∷ a) [] h = absurd h
SameLetters→eq (c ∷ a) (d ∷ b) (h, k) = rw (SameLetters→eq a b k) (ground arith)

lower_byte-cases :
    (c : ℕ) → ((b'A' ≤ c) × (c ≤ b'Z') × (lower_byte c ≡ c + 32)) ⊎ (lower_byte c ≡ c)
lower_byte-cases c = elim (Bool-cases (leb b'A' c && leb c b'Z')) [
  | inl e ↦ inl (ground arith, ground arith, rw e refl)
  | inr e ↦ inr (rw e refl)
]

eq→SameLetter : (c d : ℕ) → lower_byte c ≡ lower_byte d → SameLetter c d
eq→SameLetter c d h = elim (lower_byte-cases c) [
  | inl (a, b, e) ↦ elim (lower_byte-cases d) [
    | inl (p, q, f) ↦ inl (omega (arith, h, e, f))
    | inr f ↦ inr (inl ((a, b), sym f ∙ sym h ∙ e))
  ]
  | inr e ↦ elim (lower_byte-cases d) [
    | inl (p, q, f) ↦ inr (inr ((p, q), sym e ∙ h ∙ f))
    | inr f ↦ inl (sym e ∙ h ∙ f)
  ]
]

pub eq→SameLetters :
    (a b : Bytes) → bytes_eq (map lower_byte a) (map lower_byte b) ≡ true → SameLetters a b
eq→SameLetters [] [] h = tt
eq→SameLetters [] (d ∷ b) h = absurd (cc)
eq→SameLetters (c ∷ a) [] h = absurd (cc)
eq→SameLetters (c ∷ a) (d ∷ b) h = (
  eq→SameLetter c d (==→eq (lower_byte c) (lower_byte d) (and_left _ _ h)),
  eq→SameLetters a b (and_right _ _ h),
)

space_len-blank : (c : ℕ) (s : Bytes) → IsBlank c → space_len (c ∷ s) ≡ 1
unfolding space_len
space_len-blank c [] h = rw h refl
space_len-blank c (d ∷ []) h = rw h refl
space_len-blank c (d ∷ e ∷ s) h = rw h refl

space_len_back-blank : (c : ℕ) (s : Bytes) → IsBlank c → space_len_back (c ∷ s) ≡ 1
unfolding space_len_back
space_len_back-blank c [] h = space_len-blank c [] h
space_len_back-blank c (d ∷ []) h = rw h refl
space_len_back-blank c (d ∷ e ∷ s) h = rw h refl

space_len-word : (c : ℕ) (s : Bytes) → IsGraphic c → space_len (c ∷ s) ≡ 0
unfolding space_len
space_len-word c [] g = ground arith
space_len-word c (d ∷ []) g = ground arith
space_len-word c (d ∷ e ∷ s) g = ground arith

not_blank : (c : ℕ) → IsGraphic c → is_space c ≡ false
not_blank c g = ground arith

not_two : (c d : ℕ) → IsGraphic c → (space_len (d ∷ c ∷ []) == 2) ≡ false
unfolding space_len
not_two c d g = ground arith

not_three : (c d e : ℕ) → IsGraphic c → (space_len (e ∷ d ∷ c ∷ []) == 3) ≡ false
unfolding space_len
not_three c d e g =
    let x : (c == 0x80) ≡ false = ground arith in
    let y : (c == 0x9f) ≡ false = ground arith in
    let z : (between 0x80 0x8a c || c == 0xa8 || c == 0xa9 || c == 0xaf) ≡ false = ground arith in
    rw (x, y, z) (ground arith)

space_len_back-word : (c : ℕ) (s : Bytes) → IsGraphic c → space_len_back (c ∷ s) ≡ 0
unfolding space_len_back
space_len_back-word c [] g = space_len-word c [] g
space_len_back-word c (d ∷ []) g = rw (not_blank c g, not_two c d g) refl
space_len_back-word c (d ∷ e ∷ s) g = rw (not_blank c g, not_two c d g, not_three c d e g) refl

-- White space before a text whose front is no white space is dropped.
trim_go-blanks :
    (len : Bytes → ℕ)
    → ((c : ℕ) (s : Bytes) → IsBlank c → len (c ∷ s) ≡ 1)
    → (fuel : ℕ) (lead s : Bytes) → All IsBlank lead
    → length lead ≤ fuel
    → len s ≡ 0
    → trim_go len fuel (lead ++ s) ≡ s
unfolding trim_go
trim_go-blanks len one fuel [] s h l z = trim_go-zero len fuel s z
trim_go-blanks len one zero (c ∷ lead) s h l z = absurd (omega arith)
trim_go-blanks len one (suc fuel) (c ∷ lead) s (b, h) l z =
    rw (trim_go, one c (lead ++ s) b) (trim_go-blanks len one fuel lead s h (omega arith) z)

length-reverse : (s : Bytes) → length (reverse s) ≡ length s
length-reverse [] = refl
length-reverse (c ∷ s) =
    ap length (reverse-append (c ∷ []) s)
    ∙ omega (arith, length-append (reverse s) (c ∷ []), length-reverse s)

space_len_back-words : (s : Bytes) → All IsGraphic s → space_len_back s ≡ 0
unfolding space_len_back
space_len_back-words [] h = refl
space_len_back-words (c ∷ s) (g, h) = space_len_back-word c s g

trim_go-back :
    (word trail : Bytes)
    → All IsGraphic word
    → All IsBlank trail
    → reverse (trim_go space_len_back (length (word ++ trail)) (reverse (word ++ trail))) ≡ word
trim_go-back word trail g e = rw (reverse-append word trail) (
    ap reverse (
      trim_go-blanks space_len_back space_len_back-blank _ (reverse trail) (reverse word)
        (All-reverse IsBlank trail e)
        (omega (arith, length-reverse trail, length-append word trail))
        (space_len_back-words (reverse word) (All-reverse IsGraphic word g)))
    ∙ reverse-reverse word)

-- White space around a word is trimmed.
pub trim_space-Padded : (word raw : Bytes) → IsWord word → Padded word raw → trim_space raw ≡ word
unfolding trim_space
trim_space-Padded [] raw (g, l) p = absurd (omega arith)
trim_space-Padded (c ∷ w) raw ((g, gs), l) (lead, trail, b, e, q) =
    let word = c ∷ w in
    let front : trim_go space_len (length raw) raw ≡ word ++ trail = rw q (
      trim_go-blanks space_len space_len-blank _ lead (word ++ trail) b
        (omega (arith, length-append lead (word ++ trail))) (space_len-word c (w ++ trail) g)) in
    rw front (trim_go-back word trail (g, gs) e)
