-- ===== src/Ftcp/Cursor/RoundTrip.antt =====
-- readPathValue of internal/filexfer/ftcp/request.go on values written with a length or in quotes.
use tx.Base.{
  ℕ, ◌^◌, ◌≤◌, ◌<◌, ◌≡◌, refl, ◌∙◌, true, false, [], ◌∷◌, ◌++◌, ok, ◌==◌, if◌then◌else◌, length,
  All, some, arith, le→leb, length-append, take-append, drop-append,
}
use tx.Base.Int.{pos}
use tx.Base.Bytes.{Bytes}
use tx.Base.Decimal.{itoa, itoa-IsDigit, IsDigit, length-itoa, parse_int-itoa, parse_int}
use tx.Ftcp.Cursor.{
  quote, backslash, delimited, scan_length, len_value_at, read_len_value, skip_spaces, quoted_loop,
  read_quoted_value, read_path_value,
}

scan_length-digits :
    (s rest : Bytes) → All IsDigit s → scan_length (s ++ (b':' ∷ rest)) ≡ ok (s, rest)
unfolding scan_length
scan_length-digits [] rest d = refl
scan_length-digits (c ∷ s) rest (d, ds) = ground (arith, scan_length-digits s rest ds)

-- A digit starts the value, so no space is skipped and the length form is chosen.
digit_first :
    (s t : Bytes)
    → 1 ≤ length s
    → All IsDigit s
    → (skip_spaces (s ++ t) ≡ s ++ t)
      × (read_path_value (s ++ t) ≡ read_len_value (s ++ t))
      × (read_len_value (s ++ t) ≡ len_value_at (s ++ t))
unfolding read_path_value read_len_value skip_spaces
digit_first [] t h d = absurd (omega arith)
digit_first (c ∷ s) t h (d, ds) = ground arith

-- `len_value_at` matches on its argument; behind a number it is the chain of its steps.
len_value_at-digits :
    (s v rest : Bytes)
    → 1 ≤ length s
    → All IsDigit s
    → parse_int s ≡ some (pos (length v))
    → delimited rest ≡ true
    → len_value_at (s ++ (b':' ∷ (v ++ rest))) ≡ ok (v, rest)
len_value_at-digits [] v rest h d e del = absurd (omega arith)
len_value_at-digits (c ∷ s) v rest h d e del = rw (
  scan_length-digits (c ∷ s) (v ++ rest) d,
  e,
  le→leb (length v) (length (v ++ rest)) (omega (arith, length-append v rest)),
  drop-append (length v) v rest refl,
  del,
  take-append (length v) v rest refl,
)

-- A value of any bytes behind its length, at the end of a line or before a space, is read back
-- whole, and the rest of the line is left.
pub read_path_value-len :
    (v rest : Bytes)
    → length v < 2 ^ 63
    → delimited rest ≡ true
    → read_path_value (itoa (length v) ++ (b':' ∷ (v ++ rest))) ≡ ok (v, rest)
read_path_value-len v rest h del =
    let s = itoa (length v) in
    let first =
      digit_first s (b':' ∷ (v ++ rest)) (length-itoa (length v)) (itoa-IsDigit (length v)) in
    first.1
    ∙ (first.2
        ∙ len_value_at-digits s v rest (length-itoa (length v)) (itoa-IsDigit (length v))
            (parse_int-itoa (length v) h) del)

-- A writer for the quoted form: each byte that `unescape` would change, the quote and the
-- backslash stand behind a backslash.
abbrev pub escape : ℕ → Bytes
escape c =
    if c == 10
    then backslash ∷ b'n' ∷ []
    else (if c == 13
        then backslash ∷ b'r' ∷ []
        else (if c == 9
            then backslash ∷ b't' ∷ []
            else (if c == quote
                then backslash ∷ quote ∷ []
                else (if c == backslash then backslash ∷ backslash ∷ [] else c ∷ []))))

abbrev pub escape_all : Bytes → Bytes
escape_all [] = []
escape_all (c ∷ cs) = escape c ++ escape_all cs

quoted_loop-escape :
    (v rest : Bytes)
    → delimited rest ≡ true
    → quoted_loop false (escape_all v ++ (quote ∷ rest)) ≡ ok (v, rest)
unfolding quoted_loop
quoted_loop-escape [] rest del = rw del
quoted_loop-escape (c ∷ v) rest del = ground (arith, quoted_loop-escape v rest del)

-- A value of any bytes, escaped between quotes, is read back whole, and the rest of the line is left.
pub read_path_value-quoted :
    (v rest : Bytes)
    → delimited rest ≡ true
    → read_path_value (quote ∷ (escape_all v ++ (quote ∷ rest))) ≡ ok (v, rest)
unfolding read_path_value read_quoted_value
read_path_value-quoted v rest del = quoted_loop-escape v rest del
