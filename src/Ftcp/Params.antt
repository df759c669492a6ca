-- ===== src/Ftcp/Params.antt =====
-- Go's `map[string]string`, as the parsers of internal/filexfer/ftcp use it.
use tx.Base.{◌≡◌, false, List, [], ◌∷◌, if◌then◌else◌, Bool-cases, inl, inr}
use tx.Base.Bytes.{Bytes, bytes_eq, bytes_eq→eq, bytes_eq_self}

abbrev pub Params : Type 0
Params = List (Bytes × Bytes)

-- `m[key]`; a missing key reads as the empty string.
unfoldable pub get : Bytes → Params → Bytes
get key [] = []
get key ((k, v) ∷ m) = if bytes_eq k key then v else get key m

-- `m[key] = value`
unfoldable pub put : Bytes → Bytes → Params → Params
put key value [] = (key, value) ∷ []
put key value ((k, v) ∷ m) = if bytes_eq k key then (key, value) ∷ m else (k, v) ∷ put key value m

pub get-put_self : (key value : Bytes) (m : Params) → get key (put key value m) ≡ value
unfolding get put
get-put_self key value [] = rw (bytes_eq_self key)
get-put_self key value ((k, v) ∷ m) = elim (Bool-cases (bytes_eq k key)) [
  | inl e ↦ rw e (rw (bytes_eq_self key))
  | inr e ↦ rw e (rw e (get-put_self key value m))
]

pub get-put_ne :
    (key other value : Bytes) (m : Params)
    → bytes_eq key other ≡ false
    → get other (put key value m) ≡ get other m
unfolding get put
get-put_ne key other value [] h = rw h
get-put_ne key other value ((k, v) ∷ m) h = elim (Bool-cases (bytes_eq k key)) [
  | inl e ↦ rw e (rw (h, bytes_eq→eq k key e, h))
  | inr e ↦ rw e (elim (Bool-cases (bytes_eq k other)) [
    | inl o ↦ rw o
    | inr o ↦ rw o (get-put_ne key other value m h)
  ])
]
