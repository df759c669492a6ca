-- ===== src/Tests/Tokens.antt =====
-- The manifest tokens and the line readers at concrete inputs.
use tx.Base.{◌≡◌, refl, ◌∷◌, ◌++◌, ok, ◌>>=◌, length, arith}
use tx.Base.Bytes.{Bytes, codes}
use tx.Base.Decimal.{itoa}
use tx.Encoding.Path.{
  common_prefix_len, encode_path_token, decode_path_token_prefix, decode_path_token,
  encode_mtime_token, decode_mtime_token,
}
use tx.Encoding.Path.Prefix.{shared, common_prefix_len-shared}
use tx.Encoding.Path.RoundTrip.{
  decode_path_token_prefix-encode, decode_path_token-encode, decode_mtime_token-encode,
}
use tx.Ftcp.Cursor.{read_path_value, quote}
use tx.Ftcp.Cursor.RoundTrip.{read_path_value-len, read_path_value-quoted, escape_all}

abbrev old_path : Bytes
old_path = codes "/data/photos/2024/a.jpg"

abbrev new_path : Bytes
new_path = codes "/data/photos/2025/b.jpg"

common_prefix_len-shared_example : common_prefix_len old_path new_path ≡ shared old_path new_path
common_prefix_len-shared_example = common_prefix_len-shared old_path new_path

decode_path_token_prefix-encode_example :
    decode_path_token_prefix old_path (encode_path_token old_path new_path ++ codes " 17")
    ≡ ok (new_path, length (encode_path_token old_path new_path))
decode_path_token_prefix-encode_example =
    decode_path_token_prefix-encode old_path new_path (codes " 17") (omega arith) (omega arith)

decode_path_token-encode_example :
    decode_path_token old_path (encode_path_token old_path new_path) ≡ ok new_path
decode_path_token-encode_example =
    decode_path_token-encode old_path new_path (omega arith) (omega arith)

decode_mtime_token-encode_example :
    (encode_mtime_token (codes "1700000000") (codes "1700000123")
      >>= decode_mtime_token (codes "1700000000"))
    ≡ ok (codes "1700000123")
decode_mtime_token-encode_example =
    decode_mtime_token-encode (codes "1700000000") (codes "1700000123") (omega arith) (omega arith)
      refl

read_path_value-len_example :
    read_path_value (itoa (length new_path) ++ (b':' ∷ (new_path ++ codes " comp=none")))
    ≡ ok (new_path, codes " comp=none")
read_path_value-len_example = read_path_value-len new_path (codes " comp=none") (omega arith) refl

read_path_value-quoted_example :
    read_path_value (quote ∷ (escape_all (codes "a b") ++ (quote ∷ codes " mode=x")))
    ≡ ok (codes "a b", codes " mode=x")
read_path_value-quoted_example = read_path_value-quoted (codes "a b") (codes " mode=x") refl
