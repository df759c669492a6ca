-- ===== src/Base/Bytes.antt =====
-- Byte strings as lists of numbers, and what the source uses of Go's package `strings`.
use package.tx.Base.Tests.{leb, ◌==◌, if◌then◌else◌}
use package.tx.Base.Lists.{length, drop, All}
use Prim.Native.Nat.{ℕ, zero, suc, ◌-◌}
use Prim.Native.Char.{code}
use Prim.Native.String.{String}
use mathlib.Core.Path.{◌≡◌, refl}
use mathlib.Core.Logic.{◌≢◌}
use mathlib.Core.Bool.{Bool, true, false, ◌&&◌, ◌||◌}
use mathlib.Core.Option.{Option, none, some}
use mathlib.Core.List.{List, [], ◌∷◌, ◌++◌, reverse}
use native.Mathlib.Omega.{arith}

abbrev pub Bytes : Type 0
Bytes = List ℕ

-- The bytes of an ASCII literal.
abbrev pub codes : String → Bytes
codes String.[] = []
codes (String.◌∷◌ c s) = code c ∷ codes s

abbrev pub Avoids : ℕ → Bytes → Type 0
Avoids c s = All (λ d. d ≢ c) s

abbrev pub bytes_eq : Bytes → Bytes → Bool
bytes_eq [] [] = true
bytes_eq [] (d ∷ ds) = false
bytes_eq (c ∷ cs) [] = false
bytes_eq (c ∷ cs) (d ∷ ds) = c == d && bytes_eq cs ds

pub bytes_eq→eq : (a b : Bytes) → bytes_eq a b ≡ true → a ≡ b
bytes_eq→eq [] [] h = refl
bytes_eq→eq [] (d ∷ ds) h = cc
bytes_eq→eq (c ∷ cs) [] h = cc
bytes_eq→eq (c ∷ cs) (d ∷ ds) h = ground (arith, bytes_eq→eq cs ds)

pub bytes_eq_self : (a : Bytes) → bytes_eq a a ≡ true
bytes_eq_self [] = refl
bytes_eq_self (c ∷ cs) = ground (arith, bytes_eq_self cs)

-- `strings.IndexByte`
abbrev pub index_byte : ℕ → Bytes → Option ℕ
index_byte c [] = none
index_byte c (d ∷ ds) =
    let rest = index_byte c ds in
    if d == c then some 0 else elim rest [ none ↦ none | some i ↦ some (suc i) ]

abbrev pub starts_with : Bytes → Bytes → Bool
starts_with [] s = true
starts_with (p ∷ ps) [] = false
starts_with (p ∷ ps) (c ∷ cs) = p == c && starts_with ps cs

abbrev pub between : ℕ → ℕ → ℕ → Bool
between lo hi c = leb lo c && leb c hi

abbrev pub is_space : ℕ → Bool
is_space c = between 9 13 c || c == b' '

-- How many bytes a white-space character at the front takes, in UTF-8; 0 if there is none.
unfoldable pub space_len : Bytes → ℕ
space_len [] = 0
space_len (c ∷ []) = if is_space c then 1 else 0
space_len (c ∷ d ∷ []) =
    if is_space c then 1 else (if c == 0xc2 && (d == 0x85 || d == 0xa0) then 2 else 0)
space_len (c ∷ d ∷ e ∷ s) =
    if is_space c
    then 1
    else (if c == 0xc2 && (d == 0x85 || d == 0xa0)
        then 2
        else (if c == 0xe1 && d == 0x9a && e == 0x80
            then 3
            else (if c == 0xe2
                  && d == 0x80
                  && (between 0x80 0x8a e || e == 0xa8 || e == 0xa9 || e == 0xaf)
                then 3
                else (if c == 0xe2 && d == 0x81 && e == 0x9f
                    then 3
                    else (if c == 0xe3 && d == 0x80 && e == 0x80 then 3 else 0)))))

-- The same at the back, for the bytes in reverse.
unfoldable pub space_len_back : Bytes → ℕ
space_len_back [] = 0
space_len_back (c ∷ []) = space_len (c ∷ [])
space_len_back (c ∷ d ∷ []) =
    if is_space c then 1 else (if space_len (d ∷ c ∷ []) == 2 then 2 else 0)
space_len_back (c ∷ d ∷ e ∷ s) =
    if is_space c
    then 1
    else (if space_len (d ∷ c ∷ []) == 2
        then 2
        else (if space_len (e ∷ d ∷ c ∷ []) == 3 then 3 else 0))

unfoldable pub trim_go : (Bytes → ℕ) → ℕ → Bytes → Bytes
trim_go len zero s = s
trim_go len (suc fuel) s =
    let more = trim_go len fuel (drop (len s) s) in if len s == 0 then s else more

-- `strings.TrimSpace`; each round drops a byte at least.
unfoldable pub trim_space : Bytes → Bytes
unfolding trim_go space_len space_len_back
trim_space s =
    let front = trim_go space_len (length s) s in
    reverse (trim_go space_len_back (length front) (reverse front))

-- `strings.ToUpper`, as far as a comparison with an ASCII word sees it: the letters, and the two
-- other characters whose upper case is an ASCII letter (dotless i and long s).
unfoldable pub to_upper : Bytes → Bytes
to_upper [] = []
to_upper (c ∷ []) = (if between b'a' b'z' c then c - 32 else c) ∷ []
to_upper (c ∷ d ∷ s) = elim (c == 0xc4 && d == 0xb1) [
  | true ↦ b'I' ∷ to_upper s
  | false ↦ elim (c == 0xc5 && d == 0xbf) [
    | true ↦ b'S' ∷ to_upper s
    | false ↦ (if between b'a' b'z' c then c - 32 else c) ∷ to_upper (d ∷ s)
  ]
]

-- `strings.Cut` at a one-byte separator.
abbrev pub cut : ℕ → Bytes → Option (Bytes × Bytes)
cut c [] = none
cut c (d ∷ ds) =
    let rest = cut c ds in
    if d == c
    then some ([], ds)
    else elim rest [ none ↦ none | some (before, after) ↦ some (d ∷ before, after) ]

pub cut-append : (c : ℕ) (xs ys : Bytes) → Avoids c xs → cut c (xs ++ (c ∷ ys)) ≡ some (xs, ys)
cut-append c [] ys h = ground arith
cut-append c (x ∷ xs) ys (n, h) = ground (arith, cut-append c xs ys h)

abbrev pub is_empty : Bytes → Bool
is_empty [] = true
is_empty (c ∷ cs) = false

-- The first separator is the one written behind a part that has none.
pub index_byte-append :
    (c : ℕ) (xs ys : Bytes) → Avoids c xs → index_byte c (xs ++ (c ∷ ys)) ≡ some (length xs)
index_byte-append c [] ys h = ground arith
index_byte-append c (x ∷ xs) ys (n, h) = ground (arith, index_byte-append c xs ys h)
