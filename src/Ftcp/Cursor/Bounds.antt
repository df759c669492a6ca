-- ===== src/Ftcp/Cursor/Bounds.antt =====
-- How much of the line the cursor of internal/filexfer/ftcp/request.go leaves.
use tx.Base.{ℕ, ◌+◌, ◌≤◌, ◌<◌, ◌≡◌, refl, false, [], ◌∷◌, ok, length, arith, ◌==◌}
use tx.Base.Bytes.{Bytes}
use tx.Ftcp.Cursor.{space, skip_spaces, scan_token, token_at, read_token}

pub length-skip_spaces : (c : Bytes) → length (skip_spaces c) ≤ length c
unfolding skip_spaces
length-skip_spaces [] = omega arith
length-skip_spaces (c ∷ cs) = ground (arith, length-skip_spaces cs)

length-scan_token : (c : Bytes) → length (scan_token c).0 + length (scan_token c).1 ≡ length c
unfolding scan_token
length-scan_token [] = omega arith
length-scan_token (c ∷ cs) = ground (arith, length-scan_token cs)

skip_spaces-first : (s : Bytes) (c : ℕ) (cs : Bytes) → skip_spaces s ≡ c ∷ cs → (c == space) ≡ false
unfolding skip_spaces
skip_spaces-first [] c cs e = cc
skip_spaces-first (x ∷ s) c cs e = ground (arith, skip_spaces-first s c cs)

scan_token-nonempty :
    (c : ℕ) (cs : Bytes) → (c == space) ≡ false → 1 ≤ length (scan_token (c ∷ cs)).0
unfolding scan_token
scan_token-nonempty c cs h = rw h (omega arith)

token_at-shortens :
    (s tok rest : Bytes)
    → ((c : ℕ) (cs : Bytes) → s ≡ c ∷ cs → (c == space) ≡ false)
    → token_at s ≡ ok (tok, rest)
    → (1 ≤ length tok) × (length tok + length rest ≡ length s)
token_at-shortens [] tok rest first e = cc
token_at-shortens (c ∷ cs) tok rest first e =
    ground (arith, scan_token-nonempty c cs (first c cs refl), length-scan_token (c ∷ cs))

-- A token that was read has a byte, and what is left is shorter by it at least.
pub read_token-shortens :
    (c tok rest : Bytes)
    → read_token c ≡ ok (tok, rest)
    → (1 ≤ length tok) × (length rest < length c)
unfolding read_token
read_token-shortens c tok rest e = omega (
  arith,
  token_at-shortens (skip_spaces c) tok rest (skip_spaces-first c) e,
  length-skip_spaces c,
)
