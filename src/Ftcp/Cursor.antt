-- ===== src/Ftcp/Cursor.antt =====
-- The cursor of internal/filexfer/ftcp/request.go over one command line. Its state `b`, `i` is
-- read only as `b[i:]`, so a cursor is the bytes that are not read yet.
pub mod RoundTrip
pub mod Bounds
use tx.Base.{
  ℕ, ◌-◌, ◌+◌, ◌≡◌, Bool, true, false, ◌||◌, List, [], ◌∷◌, ◌++◌, Result, ok, err, ◌>>=◌, ◌>>◌,
  guard, or_err, leb, ◌==◌, if◌then◌else◌, length, take, drop, not,
}
use tx.Base.Bytes.{Bytes, is_empty}
use tx.Base.Decimal.{parse_int, is_digit}
use tx.Encoding.Path.{non_negative}

pub data CursorError : Type 0 where
  end_of_input unexpected_end : CursorError
  invalid_length_prefix missing_separator invalid_length invalid_delimiter : CursorError
  missing_quote bad_path_start : CursorError

abbrev pub space : ℕ
space = b' '

abbrev pub quote : ℕ
quote = 0x22

abbrev pub backslash : ℕ
backslash = 0x5c

unfoldable pub skip_spaces : Bytes → Bytes
skip_spaces [] = []
skip_spaces (c ∷ cs) = if c == space then skip_spaces cs else c ∷ cs

unfoldable pub eof : Bytes → Bool
unfolding skip_spaces
eof c = is_empty (skip_spaces c)

-- The bytes up to the next space, and those from it on.
unfoldable pub scan_token : Bytes → Bytes × Bytes
scan_token [] = ([], [])
scan_token (c ∷ cs) =
    if c == space then ([], c ∷ cs) else (c ∷ (scan_token cs).0, (scan_token cs).1)

abbrev pub token_at : Bytes → Result CursorError (Bytes × Bytes)
token_at [] = err end_of_input
token_at (c ∷ cs) = ok (scan_token (c ∷ cs))

-- `readToken`, and `skipToken` with the token that it skipped.
unfoldable pub read_token : Bytes → Result CursorError (Bytes × Bytes)
unfolding skip_spaces scan_token
read_token c = token_at (skip_spaces c)

abbrev pub push : ℕ → Result CursorError (Bytes × Bytes) → Result CursorError (Bytes × Bytes)
push c r = do (out, rest) ← r; ok (c ∷ out, rest)

-- The digits before the separator, and the bytes behind it.
pub scan_length : Bytes → Result CursorError (Bytes × Bytes)
scan_length [] = err missing_separator
scan_length (c ∷ cs) =
    if c == b':'
    then ok ([], cs)
    else (if is_digit c then push c (scan_length cs) else err invalid_length_prefix)

-- A value ends at a space or at the end of the line.
abbrev pub delimited : Bytes → Bool
delimited [] = true
delimited (c ∷ cs) = c == space

abbrev pub len_value_at : Bytes → Result CursorError (Bytes × Bytes)
len_value_at [] = err end_of_input
len_value_at (c ∷ cs) = do
  (digits, rest) ← scan_length (c ∷ cs)
  n ← or_err (non_negative (parse_int digits)) invalid_length
  guard (leb n (length rest)) unexpected_end
  guard (delimited (drop n rest)) invalid_delimiter
  ok (take n rest, drop n rest)

pub read_len_value : Bytes → Result CursorError (Bytes × Bytes)
unfolding skip_spaces scan_length
read_len_value c = len_value_at (skip_spaces c)

-- The `switch` on an escaped byte.
abbrev pub unescape : ℕ → ℕ
unescape c = if c == b'n' then 10 else (if c == b'r' then 13 else (if c == b't' then 9 else c))

-- The loop behind the opening quote; the flag says that a backslash was read just before.
pub quoted_loop : Bool → Bytes → Result CursorError (Bytes × Bytes)
quoted_loop escaped [] = err unexpected_end
quoted_loop true (c ∷ cs) = push (unescape c) (quoted_loop false cs)
quoted_loop false (c ∷ cs) =
    let more = quoted_loop (c == backslash) cs in
    if c == quote
    then (if delimited cs then ok ([], cs) else err invalid_delimiter)
    else (if c == backslash then more else push c more)

abbrev pub quoted_value_at : Bytes → Result CursorError (Bytes × Bytes)
quoted_value_at [] = err missing_quote
quoted_value_at (c ∷ cs) = if c == quote then quoted_loop false cs else err missing_quote

pub read_quoted_value : Bytes → Result CursorError (Bytes × Bytes)
unfolding skip_spaces quoted_loop
read_quoted_value c = quoted_value_at (skip_spaces c)

abbrev pub path_value_at : Bytes → Result CursorError (Bytes × Bytes)
path_value_at [] = err end_of_input
path_value_at (c ∷ cs) =
    if c == quote
    then read_quoted_value (c ∷ cs)
    else (if is_digit c then read_len_value (c ∷ cs) else err bad_path_start)

unfoldable pub read_path_value : Bytes → Result CursorError (Bytes × Bytes)
unfolding skip_spaces
read_path_value c = path_value_at (skip_spaces c)

abbrev pub blob_value_at : Bytes → Result CursorError (Bytes × Bytes)
blob_value_at [] = err end_of_input
blob_value_at (c ∷ cs) =
    if c == quote
    then read_quoted_value (c ∷ cs)
    else (if is_digit c then read_len_value (c ∷ cs) else read_token (c ∷ cs))

unfoldable read_blob_value : Bytes → Result CursorError (Bytes × Bytes)
unfolding skip_spaces
read_blob_value c = blob_value_at (skip_spaces c)
