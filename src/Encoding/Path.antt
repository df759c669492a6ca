-- ===== src/Encoding/Path.antt =====
-- Front coding of manifest paths and mtimes: CommonPrefixLen of internal/utils/strings.go, and the
-- token functions of internal/filexfer/encoding/manifest.go.
pub mod Prefix
pub mod RoundTrip
use tx.Base.{
  ℕ, zero, suc, ◌+◌, ◌-◌, ◌≡◌, Bool, true, false, ◌||◌, ◌&&◌, not, Option, none, some, List, [],
  ◌∷◌, ◌++◌, Result, ok, err, ◌>>=◌, ◌>>◌, guard, or_err, ltb, leb, ◌==◌, if◌then◌else◌, length,
  take, drop, get_or,
}
use tx.Base.Int.{ℤ, pos, negsuc}
use tx.Base.Bytes.{Bytes, codes, bytes_eq, index_byte, is_empty}
use tx.Base.Decimal.{itoa, parse_int, is_digit}

pub data TokenError : Type 0 where
  invalid_path_token invalid_prefix_length prefix_exceeds invalid_suffix_length : TokenError
  suffix_exceeds first_prefix_nonzero suffix_mismatch : TokenError
  empty_mtime not_digits invalid_mtime_token empty_suffix : TokenError
  invalid_len_token invalid_len_prefix len_mismatch : TokenError

abbrev pub word_size : ℕ
word_size = 8

-- The first loop of `CommonPrefixLen`: words are compared while a whole one is left.
word_loop : ℕ → Bytes → Bytes → ℕ → ℕ → ℕ
word_loop zero a b common i = i
word_loop (suc fuel) a b common i =
    let next = word_loop fuel a b common (i + word_size) in
    if leb (i + word_size) common
    then (if bytes_eq (take word_size (drop i a)) (take word_size (drop i b)) then next else i)
    else i

-- The second loop: byte by byte from where the words stopped.
byte_loop : ℕ → Bytes → Bytes → ℕ → ℕ → ℕ
byte_loop zero a b common i = common
byte_loop (suc fuel) a b common i =
    let next = byte_loop fuel a b common (i + 1) in
    if ltb i common then (if get_or a i 0 == get_or b i 0 then next else i) else common

-- Each round advances `i`, so one more round than `common` is enough for both loops.
pub common_prefix_len : Bytes → Bytes → ℕ
unfolding word_loop byte_loop
common_prefix_len a b =
    let common = if ltb (length b) (length a) then length b else length a in
    byte_loop (suc common) a b common (word_loop (suc common) a b common 0)

abbrev pub colon : ℕ
colon = b':'

pub encode_path_token : Bytes → Bytes → Bytes
encode_path_token prev current =
    let prefix_len = common_prefix_len prev current in
    let suffix = drop prefix_len current in
    itoa prefix_len ++ (colon ∷ (itoa (length suffix) ++ (colon ∷ suffix)))

-- `n, err := strconv.Atoi(s); err != nil || n < 0`
abbrev pub non_negative : Option ℤ → Option ℕ
non_negative none = none
non_negative (some (pos n)) = some n
non_negative (some (negsuc n)) = none

pub decode_path_token_prefix : Bytes → Bytes → Result TokenError (Bytes × ℕ)
decode_path_token_prefix prev token = do
  first ← or_err (index_byte colon token) invalid_path_token
  after ← or_err (index_byte colon (drop (first + 1) token)) invalid_path_token
  let second = after + (first + 1)
  prefix_len ← or_err (non_negative (parse_int (take first token))) invalid_prefix_length
  guard (leb prefix_len (length prev)) prefix_exceeds
  suffix_len ←
      or_err (non_negative (parse_int (take (second - (first + 1)) (drop (first + 1) token))))
        invalid_suffix_length
  let suffix_start = second + 1
  guard (leb suffix_len (length token - suffix_start)) suffix_exceeds
  let suffix_end = suffix_start + suffix_len
  let suffix = take suffix_len (drop suffix_start token)
  guard (not (is_empty prev && not (prefix_len == 0))) first_prefix_nonzero
  ok (take prefix_len prev ++ suffix, suffix_end)

pub decode_path_token : Bytes → Bytes → Result TokenError Bytes
decode_path_token prev token = do
  (decoded, consumed) ← decode_path_token_prefix prev token
  guard (consumed == length token) suffix_mismatch
  ok decoded

abbrev pub all_digits : Bytes → Bool
all_digits [] = true
all_digits (c ∷ cs) = is_digit c && all_digits cs

pub encode_mtime_token : Bytes → Bytes → Result TokenError Bytes
encode_mtime_token prev current = do
  guard (not (is_empty current)) empty_mtime
  guard (all_digits current) not_digits
  let common = common_prefix_len prev current
  let prefix_len = if is_empty (drop common current) then length current - 1 else common
  ok (itoa prefix_len ++ (colon ∷ drop prefix_len current))

pub decode_mtime_token : Bytes → Bytes → Result TokenError Bytes
decode_mtime_token prev token = do
  cut ← or_err (index_byte colon token) invalid_mtime_token
  let suffix = drop (cut + 1) token
  prefix_len ← or_err (non_negative (parse_int (take cut token))) invalid_prefix_length
  guard (leb prefix_len (length prev)) prefix_exceeds
  guard (not (is_empty suffix)) empty_suffix
  guard (all_digits suffix) not_digits
  guard (not (is_empty prev && not (prefix_len == 0))) first_prefix_nonzero
  ok (take prefix_len prev ++ suffix)

-- `sep <= 0` also refuses a token that begins with the separator.
unfoldable parse_len_prefixed_prefix : Bytes → Result TokenError (Bytes × ℕ)
parse_len_prefixed_prefix raw = do
  sep ← or_err (index_byte colon raw) invalid_len_token
  guard (not (sep == 0)) invalid_len_token
  n ← or_err (non_negative (parse_int (take sep raw))) invalid_len_prefix
  let start = sep + 1
  guard (leb n (length raw - start)) len_mismatch
  ok (take n (drop start raw), start + n)
