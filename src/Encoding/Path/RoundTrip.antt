-- ===== src/Encoding/Path/RoundTrip.antt =====
-- The token encoders of internal/filexfer/encoding/manifest.go against their decoders.
use tx.Base.{
  ℕ, zero, suc, ◌+◌, ◌-◌, ◌≤◌, ◌<◌, ◌^◌, ◌≡◌, refl, ap, ◌∙◌, true, false, not, ◌&&◌, some, [], ◌∷◌,
  ◌++◌, ok, ◌>>=◌, leb, ◌==◌, length, take, drop, arith, Bool-cases, inl, inr, le→leb, ==-self,
  length-append, length-drop, take-append, drop-append,
}
use tx.Base.Bytes.{Bytes, is_empty, index_byte, index_byte-append}
use tx.Base.Decimal.{itoa, itoa-IsDigit, IsDigit-Avoids, parse_int-itoa, parse_int}
use tx.Encoding.Path.{
  colon, non_negative, encode_path_token, decode_path_token_prefix, decode_path_token,
  encode_mtime_token, decode_mtime_token, all_digits, common_prefix_len,
}
use tx.Encoding.Path.Prefix.{take-common-drop, common_prefix_len-le}
use mathlib.Core.List.{append_assoc, append-nil}
use native.Mathlib.Decide.{dec_le}

-- A printed number stands before the separator, and is read back from there.
index_byte-itoa :
    (n : ℕ) (rest : Bytes) → index_byte colon (itoa n ++ (colon ∷ rest)) ≡ some (length (itoa n))
index_byte-itoa n rest =
    index_byte-append colon (itoa n) rest
      (IsDigit-Avoids colon (itoa n) (omega arith) (itoa-IsDigit n))

read_number :
    (n : ℕ) (rest : Bytes)
    → n < 2 ^ 63
    → non_negative (parse_int (take (length (itoa n)) (itoa n ++ rest))) ≡ some n
read_number n rest h = rw (take-append (length (itoa n)) (itoa n) rest refl, parse_int-itoa n h)

drop-itoa : (n : ℕ) (rest : Bytes) → drop (length (itoa n) + 1) (itoa n ++ (colon ∷ rest)) ≡ rest
drop-itoa n rest =
    rw (← append_assoc (itoa n) (colon ∷ []) rest)
      (drop-append (length (itoa n) + 1) (itoa n ++ (colon ∷ [])) rest (rw length-append refl))

drop-nil : (n : ℕ) → drop {A = ℕ} n [] ≡ []
drop-nil zero = refl
drop-nil (suc n) = refl

drop-drop : (n m : ℕ) (xs : Bytes) → drop (n + m) xs ≡ drop m (drop n xs)
drop-drop zero m xs = ap (λ (t : ℕ). drop t xs) (omega arith)
drop-drop (suc n) m [] = rw (drop-nil (suc n + m), drop-nil m)
drop-drop (suc n) m (x ∷ xs) =
    let e : suc n + m ≡ suc (n + m) = omega arith in rw e (drop-drop n m xs)

-- Only an empty previous value forces the prefix to be empty.
first_zero : (prev : Bytes) (p : ℕ) → p ≤ length prev → is_empty prev && not (p == 0) ≡ false
first_zero [] p h = ground arith
first_zero (x ∷ prev) p h = refl

module _ (prev s rest : Bytes) (p n : ℕ) (e : n ≡ length s) (h : p ≤ length prev) where
  abbrev layout : Bytes
  layout = itoa p ++ (colon ∷ (itoa n ++ (colon ∷ (s ++ rest))))

  drop-layout : drop (length (itoa n) + (length (itoa p) + 1) + 1) layout ≡ s ++ rest
  drop-layout =
      let split : length (itoa n) + (length (itoa p) + 1) + 1
          ≡ (length (itoa p) + 1) + (length (itoa n) + 1) =
        omega arith in
      rw (split, drop-drop, drop-itoa p) (drop-itoa n (s ++ rest))

  suffix_fits : leb n (length layout - (length (itoa n) + (length (itoa p) + 1) + 1)) ≡ true
  suffix_fits = le→leb _ _ (
      omega (
        arith,
        e,
        length-append (itoa p) (colon ∷ (itoa n ++ (colon ∷ (s ++ rest)))),
        length-append (itoa n) (colon ∷ (s ++ rest)),
        length-append s rest,
      ))

  decode_layout :
      p < 2 ^ 63
      → n < 2 ^ 63
      → decode_path_token_prefix prev layout
        ≡ ok (take p prev ++ s, length (itoa n) + (length (itoa p) + 1) + 1 + n)
  unfolding decode_path_token_prefix
  decode_layout hp hn =
      let fst : length (itoa n) + (length (itoa p) + 1) - (length (itoa p) + 1) ≡ length (itoa n) =
        omega arith in
      rw
        (
          index_byte-itoa p,
          drop-itoa p,
          index_byte-itoa n,
          read_number p _ hp,
          le→leb p (length prev) h,
          fst,
          read_number n _ hn,
        )
        (rw (suffix_fits, first_zero prev p h, drop-layout, take-append n s rest e))

encode_path_token-append :
    (prev current rest : Bytes)
    → encode_path_token prev current ++ rest
      ≡ itoa (common_prefix_len prev current)
        ++ (colon
            ∷ (itoa (length (drop (common_prefix_len prev current) current))
                ++ (colon ∷ (drop (common_prefix_len prev current) current ++ rest))))
unfolding encode_path_token
encode_path_token-append prev current rest = simp append_assoc

length-encode_path_token :
    (prev current : Bytes)
    → length (encode_path_token prev current)
      ≡ length (itoa (length (drop (common_prefix_len prev current) current)))
        + (length (itoa (common_prefix_len prev current)) + 1)
        + 1
        + length (drop (common_prefix_len prev current) current)
unfolding encode_path_token
length-encode_path_token prev current =
    let p = common_prefix_len prev current in
    let s = drop p current in
    omega (
      arith,
      length-append (itoa p) (colon ∷ (itoa (length s) ++ (colon ∷ s))),
      length-append (itoa (length s)) (colon ∷ s),
    )

-- The prefix decoder, given an encoded path with any bytes behind it, returns the path that was
-- encoded and the length of its token, for every previous path; Go's string lengths fit an int.
pub decode_path_token_prefix-encode :
    (prev current rest : Bytes)
    → length prev < 2 ^ 63
    → length current < 2 ^ 63
    → decode_path_token_prefix prev (encode_path_token prev current ++ rest)
      ≡ ok (current, length (encode_path_token prev current))
decode_path_token_prefix-encode prev current rest hp hc =
    let p = common_prefix_len prev current in
    let s = drop p current in
    let le = common_prefix_len-le prev current in
    rw (encode_path_token-append prev current rest) (
      decode_layout prev s rest p (length s) refl le.0 (omega (arith, le.0))
        (omega (arith, length-drop p current))
      ∙ ground (
        arith,
        take-common-drop p prev current (omega arith),
        length-encode_path_token prev current,
      ))

-- A whole token decodes to the path that was encoded, for every previous path.
pub decode_path_token-encode :
    (prev current : Bytes)
    → length prev < 2 ^ 63
    → length current < 2 ^ 63
    → decode_path_token prev (encode_path_token prev current) ≡ ok current
unfolding decode_path_token
decode_path_token-encode prev current hp hc =
    let whole = decode_path_token_prefix-encode prev current [] hp hc in
    rw (rw append-nil at whole, ==-self)

all_digits-drop : (n : ℕ) (s : Bytes) → all_digits s ≡ true → all_digits (drop n s) ≡ true
all_digits-drop zero s h = h
all_digits-drop (suc n) [] h = refl
all_digits-drop (suc n) (c ∷ s) h = all_digits-drop n s (ground arith)

not_empty : (s : Bytes) → 1 ≤ length s → is_empty s ≡ false
not_empty [] h = absurd (omega arith)
not_empty (c ∷ s) h = refl

decode_mtime_layout :
    (prev s : Bytes) (p : ℕ)
    → p ≤ length prev
    → p < 2 ^ 63
    → 1 ≤ length s
    → all_digits s ≡ true
    → decode_mtime_token prev (itoa p ++ (colon ∷ s)) ≡ ok (take p prev ++ s)
unfolding decode_mtime_token
decode_mtime_layout prev s p h hp l d =
    rw (index_byte-itoa p, drop-itoa p, read_number p _ hp, le→leb p (length prev) h)
      (rw (not_empty s l, d, first_zero prev p h))

-- Any prefix length up to the common one, short of the whole mtime, makes a token that decodes.
decode_mtime_cut :
    (prev current : Bytes) (p : ℕ)
    → length prev < 2 ^ 63
    → p ≤ common_prefix_len prev current
    → p < length current
    → all_digits current ≡ true
    → decode_mtime_token prev (itoa p ++ (colon ∷ drop p current)) ≡ ok current
decode_mtime_cut prev current p hp h l d =
    let le = common_prefix_len-le prev current in
    decode_mtime_layout prev (drop p current) p (omega (arith, le.0)) (omega (arith, le.0))
      (omega (arith, length-drop p current)) (all_digits-drop p current d)
    ∙ ap ok (take-common-drop p prev current h)

empty_drop : (n : ℕ) (s : Bytes) → is_empty (drop n s) ≡ true → length s ≤ n
empty_drop n s e = elim (dec_le (length s) n) [
  | yes h ↦ h
  | no h ↦ cc (e, not_empty (drop n s) (omega (arith, length-drop n s)))
]

filled_drop : (n : ℕ) (s : Bytes) → is_empty (drop n s) ≡ false → n < length s
filled_drop zero [] e = cc
filled_drop zero (c ∷ s) e = omega arith
filled_drop (suc n) [] e = cc
filled_drop (suc n) (c ∷ s) e = omega (arith, filled_drop n s e)

-- An mtime of decimal digits is encoded without an error, whatever the previous one, and its token
-- decodes to it.
pub decode_mtime_token-encode :
    (prev current : Bytes)
    → length prev < 2 ^ 63
    → 1 ≤ length current
    → all_digits current ≡ true
    → (encode_mtime_token prev current >>= decode_mtime_token prev) ≡ ok current
unfolding encode_mtime_token
decode_mtime_token-encode prev current hp l d =
    let common = common_prefix_len prev current in
    let le = common_prefix_len-le prev current in
    rw (not_empty current l, d)
      (elim (Bool-cases (is_empty (drop common current))) [
        | inl e ↦ rw e (
            decode_mtime_cut prev current (length current - 1) hp
              (omega (arith, empty_drop common current e)) (omega arith) d)
        | inr e ↦
            rw e (
              decode_mtime_cut prev current common hp (omega arith) (filled_drop common current e)
                d)
      ])
