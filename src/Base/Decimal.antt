-- ===== src/Base/Decimal.antt =====
-- What the source uses of Go's package `strconv`: Itoa, Atoi, ParseUint and ParseInt in base 10.
-- An `int` has 64 bits. A range error and a syntax error are both `none`: callers test `err != nil`.
use package.tx.Base.Tests.{ltb, leb, ◌==◌, if◌then◌else◌, Bool-cases}
use package.tx.Base.Lists.{length, All, All-append, length-append}
use package.tx.Base.Int.{ℤ, pos, negsuc}
use package.tx.Base.Bytes.{Bytes, Avoids}
use Prim.Native.Nat.{ℕ, zero, suc, ◌+◌, ◌-◌, ◌*◌, ◌/◌, ◌%◌, ◌^◌, ◌≤◌, ◌<◌}
use mathlib.Core.Path.{◌≡◌}
use mathlib.Core.Logic.{inl, inr}
use mathlib.Core.Bool.{Bool, ◌&&◌}
use mathlib.Core.Option.{Option, none, some}
use mathlib.Core.List.{[], ◌∷◌, ◌++◌}
use native.Mathlib.Omega.{arith}

digits_go : ℕ → ℕ → Bytes
digits_go zero n = []
digits_go (suc f) n =
    let more = digits_go f (n / 10) ++ ((48 + n % 10) ∷ []) in
    if ltb n 10 then (48 + n) ∷ [] else more

-- `strconv.Itoa` of a number that is not negative; the fuel is more than the digits.
unfoldable pub itoa : ℕ → Bytes
unfolding digits_go
itoa n = digits_go (suc n) n

abbrev pub is_digit : ℕ → Bool
is_digit c = leb b'0' c && leb c b'9'

unfoldable parse_digits : ℕ → Bytes → Option ℕ
parse_digits acc [] = some acc
parse_digits acc (c ∷ cs) = if is_digit c then parse_digits (acc * 10 + (c - 48)) cs else none

abbrev pub below : ℕ → Option ℕ → Option ℕ
below m none = none
below m (some n) = if ltb n m then some n else none

pub parse_uint : Bytes → Option ℕ
unfolding parse_digits
parse_uint [] = none
parse_uint (c ∷ cs) = below (2 ^ 64) (parse_digits 0 (c ∷ cs))

abbrev pub negate : Option ℕ → Option ℤ
negate none = none
negate (some zero) = some (pos 0)
negate (some (suc n)) = if leb (suc n) (2 ^ 63) then some (negsuc n) else none

abbrev pub positive : Option ℕ → Option ℤ
positive none = none
positive (some n) = if ltb n (2 ^ 63) then some (pos n) else none

-- `strconv.ParseInt(s, 10, 64)`, and `strconv.Atoi`.
pub parse_int : Bytes → Option ℤ
unfolding parse_uint
parse_int [] = none
parse_int (c ∷ cs) =
    if c == b'-'
    then negate (parse_uint cs)
    else (if c == b'+' then positive (parse_uint cs) else positive (parse_uint (c ∷ cs)))

abbrev pub IsDigit : ℕ → Type 0
IsDigit c = (48 ≤ c) × (c ≤ 57)

digits_go-IsDigit : (f n : ℕ) → All IsDigit (digits_go f n)
unfolding digits_go
digits_go-IsDigit zero n = tt
digits_go-IsDigit (suc f) n = elim (Bool-cases (ltb n 10)) [
  | inl small ↦ rw small (ground arith)
  | inr big ↦
      rw big
        (All-append IsDigit (digits_go f (n / 10)) _ (digits_go-IsDigit f (n / 10)) (omega arith))
]

pub itoa-IsDigit : (n : ℕ) → All IsDigit (itoa n)
unfolding itoa
itoa-IsDigit n = digits_go-IsDigit (suc n) n

pub IsDigit-Avoids : (c : ℕ) (s : Bytes) → 57 < c → All IsDigit s → Avoids c s
IsDigit-Avoids c [] h d = tt
IsDigit-Avoids c (x ∷ s) h (d, ds) = (omega arith, IsDigit-Avoids c s h ds)

parse_digits-snoc :
    (acc : ℕ) (s : Bytes) (d n : ℕ)
    → d < 10
    → parse_digits acc s ≡ some n
    → parse_digits acc (s ++ ((48 + d) ∷ [])) ≡ some (n * 10 + d)
unfolding parse_digits
parse_digits-snoc acc [] d n h e = ground arith
parse_digits-snoc acc (c ∷ s) d n h e =
    ground (arith, parse_digits-snoc (acc * 10 + (c - 48)) s d n h)

parse_digits-digits_go : (f n : ℕ) → n < f → parse_digits 0 (digits_go f n) ≡ some n
unfolding digits_go
parse_digits-digits_go zero n h = absurd (omega arith)
parse_digits-digits_go (suc f) n h = elim (Bool-cases (ltb n 10)) [
  | inl small ↦ rw small (unfold parse_digits in ground arith)
  | inr big ↦ ground (
    arith,
    parse_digits-snoc 0 (digits_go f (n / 10)) (n % 10) (n / 10) (omega arith)
        (parse_digits-digits_go f (n / 10) (ground arith)),
  )
]

length-digits_go : (f n : ℕ) → n < f → 1 ≤ length (digits_go f n)
unfolding digits_go
length-digits_go zero n h = absurd (omega arith)
length-digits_go (suc f) n h =
    ground (arith, length-append (digits_go f (n / 10)) ((48 + n % 10) ∷ []))

pub length-itoa : (n : ℕ) → 1 ≤ length (itoa n)
unfolding itoa
length-itoa n = length-digits_go (suc n) n (omega arith)

parse_digits-itoa : (n : ℕ) → parse_digits 0 (itoa n) ≡ some n
unfolding itoa
parse_digits-itoa n = parse_digits-digits_go (suc n) n (omega arith)

parse_uint-digits :
    (s : Bytes) (n : ℕ)
    → 1 ≤ length s
    → parse_digits 0 s ≡ some n
    → n < 2 ^ 64
    → parse_uint s ≡ some n
unfolding parse_uint
parse_uint-digits [] n l e h = absurd (omega arith)
parse_uint-digits (c ∷ cs) n l e h = rw e (ground arith)

parse_int-digits :
    (s : Bytes) (n : ℕ)
    → 1 ≤ length s
    → All IsDigit s
    → parse_digits 0 s ≡ some n
    → n < 2 ^ 63
    → parse_int s ≡ some (pos n)
parse_int-digits [] n l d e h = absurd (omega arith)
parse_int-digits (c ∷ cs) n l (d, ds) e h =
    let u : parse_uint (c ∷ cs) ≡ some n = parse_uint-digits (c ∷ cs) n l e (omega arith) in
    unfold parse_int in ground (arith, u)

-- A decimal that was printed parses to the number.
pub parse_uint-itoa : (n : ℕ) → n < 2 ^ 64 → parse_uint (itoa n) ≡ some n
parse_uint-itoa n h = parse_uint-digits (itoa n) n (length-itoa n) (parse_digits-itoa n) h

pub parse_int-itoa : (n : ℕ) → n < 2 ^ 63 → parse_int (itoa n) ≡ some (pos n)
parse_int-itoa n h =
    parse_int-digits (itoa n) n (length-itoa n) (itoa-IsDigit n) (parse_digits-itoa n) h

-- `strconv.AppendInt(nil, v, 10)`
unfoldable pub itoa_int : ℤ → Bytes
itoa_int (pos n) = itoa n
itoa_int (negsuc n) = b'-' ∷ itoa (suc n)

-- At most so many digits after the first.
abbrev pub Short : ℕ → ℕ → Type 0
Short zero n = n ≡ 0
Short (suc k) n = Short k (n / 10)

digits_go-Short : (f k n : ℕ) → Short k n → length (digits_go f n) ≤ suc k
unfolding digits_go
digits_go-Short zero k n h = omega arith
digits_go-Short (suc f) k n h = elim (Bool-cases (ltb n 10)) [
  | inl small ↦ rw small (omega arith)
  | inr big ↦
      elim k
          as (λ k.
            Short k n
            → length
                (if ltb n 10 then (48 + n) ∷ [] else (digits_go f (n / 10) ++ ((48 + n % 10) ∷ [])))
              ≤ suc k) [
                | zero ↦ λ z. absurd (ground arith)
                | suc j ↦ λ s. rw big (
                    omega (
                      arith,
                      digits_go-Short f j (n / 10) s,
                      length-append (digits_go f (n / 10)) ((48 + n % 10) ∷ []),
                    ))
              ]
        h
]

-- A number below 2^64 has no more than 21 digits.
pub length-itoa_le : (n : ℕ) → n < 2 ^ 64 → length (itoa n) ≤ 21
unfolding itoa
length-itoa_le n h = digits_go-Short (suc n) 20 n (omega arith)
