-- ===== src/Encoding/Body/Hashes.antt =====
-- The hash tokens of a framed body, internal/filexfer/encoding/codec.go: both spellings of the frame's
-- hash, and the tokens of the chunks.
use tx.Base.{
  ℕ, ◌+◌, ◌/◌, ◌%◌, ◌<◌, ◌≡◌, refl, ap, ◌≢◌, true, [], ◌∷◌, ◌++◌, length, All, All-append, arith,
  map,
}
use tx.Base.Bytes.{Bytes, codes, Avoids, bytes_eq_self}
use tx.Encoding.Hash.{
  hex_digit, hex_encode, hex_padded, be_bytes, format_xxh64_hash_token, format_xxh128_hash_token,
  valid_hash_token,
}
use tx.Encoding.Frame.Tokens.{is_word-Avoids}
use tx.Encoding.Frame.Text.{IsPrintable, IsText, IsText-append, is_printable→All}
use tx.Encoding.Frame.Trailer.{hash_text, IsHashToken, IsGraphic-Avoids}
use tx.Encoding.Frame.{line_feed}
use tx.Encoding.Body.{Codecs, lower, equal_fold, frame_hash_token}
use tx.Ftcp.Items.RoundTrip.{IsGraphic}

digits_eq :
    (a b c d : ℕ) (s t : Bytes)
    → a ≡ c
    → b ≡ d
    → s ≡ t
    → hex_digit a ∷ hex_digit b ∷ s ≡ hex_digit c ∷ hex_digit d ∷ t
digits_eq a b c d s t p q r = cc

-- The digits byte by byte are the digits by place value.
hex_encode-padded : (v : ℕ) → hex_encode (be_bytes v) ≡ hex_padded 16 v
unfolding hex_encode hex_padded
hex_encode-padded v = digits_eq _ _ _ _ _ _ (omega arith) (omega arith) (
    digits_eq _ _ _ _ _ _ (omega arith) (omega arith) (
      digits_eq _ _ _ _ _ _ (omega arith) (omega arith) (
        digits_eq _ _ _ _ _ _ (omega arith) (omega arith) (
          digits_eq _ _ _ _ _ _ (omega arith) (omega arith) (
            digits_eq _ _ _ _ _ _ (omega arith) (omega arith) (
              digits_eq _ _ _ _ _ _ (omega arith) (omega arith)
                (digits_eq _ _ _ _ _ _ (omega arith) (omega arith) refl)))))))

-- The reader's spelling of the hash is the writer's.
pub frame_hash_token-hash_text :
    (k : Codecs) (header payload prefix : Bytes)
    → frame_hash_token k header payload prefix
      ≡ hash_text (k.sum64 (header ++ (line_feed ∷ (payload ++ prefix))))
unfolding frame_hash_token hash_text format_xxh64_hash_token
frame_hash_token-hash_text k header payload prefix =
    ap (λ (t : Bytes). codes "xxh64:" ++ t) (hex_encode-padded _)

digit : (n : ℕ) → n < 16 → IsGraphic (hex_digit n)
digit n h = ground arith

hex_encode-IsGraphic : (b : Bytes) → All IsGraphic (hex_encode b)
unfolding hex_encode
hex_encode-IsGraphic [] = tt
hex_encode-IsGraphic (c ∷ b) =
    (digit (c / 16 % 16) (omega arith), (digit (c % 16) (omega arith), hex_encode-IsGraphic b))

length-hex_encode : (b : Bytes) → length (hex_encode b) ≡ length b + length b
unfolding hex_encode
length-hex_encode [] = omega arith
length-hex_encode (c ∷ b) = omega (arith, length-hex_encode b)

pub IsGraphic→IsPrintable : (s : Bytes) → All IsGraphic s → All IsPrintable s
IsGraphic→IsPrintable [] h = tt
IsGraphic→IsPrintable (c ∷ s) (g, h) = (omega arith, IsGraphic→IsPrintable s h)

pub format_xxh128-IsText : (b : Bytes) → length b ≡ 16 → IsText 80 (format_xxh128_hash_token b)
unfolding format_xxh128_hash_token
format_xxh128-IsText b h =
    IsText-append 7 73 (codes "xxh128:") (hex_encode b)
      (is_printable→All (codes "xxh128:") refl, omega arith)
      (
        IsGraphic→IsPrintable (hex_encode b) (hex_encode-IsGraphic b),
        omega (arith, length-hex_encode b),
      )

prefix_word : (s t : Bytes) → All IsGraphic t → Avoids b' ' s → Avoids b' ' (s ++ t)
prefix_word s t g h = All-append (λ c. c ≢ b' ') s t h (IsGraphic-Avoids t g)

pub format_xxh128-IsHashToken :
    (b : Bytes) → length b ≡ 16 → IsHashToken (format_xxh128_hash_token b)
unfolding format_xxh128_hash_token valid_hash_token hex_encode
format_xxh128-IsHashToken [] h = absurd (omega arith)
format_xxh128-IsHashToken (c ∷ b) h = (
  (
    prefix_word (codes "xxh128:") (hex_encode (c ∷ b)) (hex_encode-IsGraphic (c ∷ b))
        (is_word-Avoids (codes "xxh128:") refl),
    omega arith,
  ),
  refl,
)

pub equal_fold_self : (a : Bytes) → equal_fold a a ≡ true
unfolding equal_fold
equal_fold_self a = bytes_eq_self (map lower a)
