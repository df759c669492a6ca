-- ===== src/Encoding/Hash.antt =====
-- The hash tokens of internal/filexfer/encoding: ValidHashToken of frame.go and the formats of
-- codec.go.
use tx.Base.{
  ℕ, zero, suc, ◌+◌, ◌/◌, ◌%◌, ◌^◌, Bool, false, ◌&&◌, not, none, some, [], ◌∷◌, ◌++◌,
  if◌then◌else◌, ltb,
}
use tx.Base.Bytes.{Bytes, codes, is_empty, cut}

unfoldable pub valid_hash_token : Bytes → Bool
valid_hash_token raw = elim (cut b':' raw) [
  | none ↦ false
  | some (algo, digest) ↦ not (is_empty algo) && not (is_empty digest)
]

abbrev pub hex_digit : ℕ → ℕ
hex_digit n = if ltb n 10 then 48 + n else 87 + n

-- `hex.EncodeToString`
unfoldable pub hex_encode : Bytes → Bytes
hex_encode [] = []
hex_encode (c ∷ cs) = hex_digit (c / 16 % 16) ∷ hex_digit (c % 16) ∷ hex_encode cs

-- `%x` in so many digits, padded with zeros
unfoldable pub hex_padded : ℕ → ℕ → Bytes
hex_padded zero v = []
hex_padded (suc k) v = hex_digit (v / 16 ^ k % 16) ∷ hex_padded k v

-- The eight bytes of a 64-bit number, the highest first.
abbrev pub be_bytes : ℕ → Bytes
be_bytes v =
    v / 2 ^ 56 % 256
    ∷ v / 2 ^ 48 % 256
    ∷ v / 2 ^ 40 % 256
    ∷ v / 2 ^ 32 % 256
    ∷ v / 2 ^ 24 % 256
    ∷ v / 2 ^ 16 % 256
    ∷ v / 2 ^ 8 % 256
    ∷ v % 256
    ∷ []

unfoldable pub format_xxh64_hash_token : ℕ → Bytes
format_xxh64_hash_token v = codes "xxh64:" ++ hex_encode (be_bytes v)

-- The argument is the hash's 16 bytes.
unfoldable pub format_xxh128_hash_token : Bytes → Bytes
format_xxh128_hash_token b = codes "xxh128:" ++ hex_encode b
