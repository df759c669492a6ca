-- ===== src/Encoding/Frame/Text.antt =====
-- The lines of a frame of internal/filexfer/encoding/frame.go as text: no line breaks, and short.
use tx.Base.{
  ℕ, suc, ◌+◌, ◌*◌, ◌≤◌, ◌<◌, ◌^◌, ◌≡◌, refl, sym, ap, subst, Bool, true, ◌&&◌, none, List, [], ◌∷◌,
  ◌++◌, length, All, All-append, arith, length-append,
}
use tx.Base.Int.{ℤ, pos, negsuc}
use tx.Base.Bytes.{Bytes, codes, Avoids, between}
use tx.Base.Decimal.{itoa, itoa_int, itoa-IsDigit, IsDigit, length-itoa_le}
use tx.Encoding.Frame.{WriteArgs, frame_header, trailer_prefix, metadata_part, metadata_of}
use tx.Encoding.Frame.RoundTrip.{
  IsNatural, IsHeader, header_tokens, hint_tokens, frame_header-tokens,
}
use tx.Encoding.Frame.Trailer.{IsTrailer, trailer_list, hash_tokens, trailer_prefix-tokens}

abbrev pub IsPrintable : ℕ → Type 0
IsPrintable c = (32 ≤ c) × (c ≤ 126)

-- A text of one line and at most so many bytes.
abbrev pub IsText : ℕ → Bytes → Type 0
IsText n s = All IsPrintable s × (length s ≤ n)

abbrev pub is_printable : Bytes → Bool
is_printable [] = true
is_printable (c ∷ s) = between 32 126 c && is_printable s

pub is_printable→All : (s : Bytes) → is_printable s ≡ true → All IsPrintable s
is_printable→All [] h = tt
is_printable→All (c ∷ s) h = (ground arith, is_printable→All s (ground arith))

pub IsText-append : (m n : ℕ) (s t : Bytes) → IsText m s → IsText n t → IsText (m + n) (s ++ t)
IsText-append m n s t (p, h) (q, k) =
    (All-append IsPrintable s t p q, omega (arith, length-append s t))

pub IsText-longer : (m n : ℕ) (s : Bytes) → m ≤ n → IsText m s → IsText n s
IsText-longer m n s h (p, k) = (p, omega arith)

-- A key and its value.
pub IsText-key :
    (k s : Bytes) → is_printable k ≡ true → length k ≤ 20 → IsText 80 s → IsText 100 (k ++ s)
IsText-key k s h l t = IsText-append 20 80 k s (is_printable→All k h, l) t

digits : (s : Bytes) → All IsDigit s → All IsPrintable s
digits [] h = tt
digits (c ∷ s) (d, h) = (omega arith, digits s h)

pub itoa-IsText : (n : ℕ) → n < 2 ^ 64 → IsText 21 (itoa n)
itoa-IsText n h = (digits (itoa n) (itoa-IsDigit n), length-itoa_le n h)

pub itoa_int-IsText : (v : ℤ) → IsNatural v → IsText 80 (itoa_int v)
unfolding itoa_int
itoa_int-IsText (pos n) h = IsText-longer 21 80 (itoa n) (omega arith) (itoa-IsText n (omega arith))
itoa_int-IsText (negsuc n) h = absurd h

pub metadata_part-IsText :
    (ts : List Bytes) → All (IsText 100) ts → IsText (101 * length ts) (metadata_part ts)
metadata_part-IsText [] h = (tt, omega arith)
metadata_part-IsText (t ∷ ts) ((p, l), h) =
    let r = metadata_part-IsText ts h in
    (
      ((omega arith, omega arith), All-append IsPrintable t (metadata_part ts) p r.0),
      omega (arith, length-append t (metadata_part ts), r.1),
    )

pub IsPrintable→Avoids : (c : ℕ) (s : Bytes) → c < 32 → All IsPrintable s → Avoids c s
IsPrintable→Avoids c [] h k = tt
IsPrintable→Avoids c (d ∷ s) h (p, k) = (omega arith, IsPrintable→Avoids c s h k)

pub frame_header-IsText :
    (a : WriteArgs)
    → IsHeader a
    → a.max_wsize_hint ≡ none
    → IsText 80 a.comp
    → IsText 80 a.header_hash
    → IsText 1000 (frame_header a)
frame_header-IsText a h e c d =
    let f : All (IsText 100) (header_tokens a) =
      unfold header_tokens hint_tokens in
      rw e (
        IsText-longer 21 100 (itoa a.file_id) (omega arith) (itoa-IsText a.file_id h.id),
        (
          IsText-key (codes "offset=") _ refl (omega arith) (itoa_int-IsText a.offset h.offset),
          (
            IsText-key (codes "size=") _ refl (omega arith) (itoa_int-IsText a.size h.size),
            (
              IsText-key (codes "wsize=") _ refl (omega arith) (itoa_int-IsText a.wsize h.wsize),
              (
                IsText-key (codes "comp=") _ refl (omega arith) c,
                (
                  IsText-key (codes "hash=") _ refl (omega arith) d,
                  (
                    IsText-key (codes "ts=") _ refl (omega arith)
                        (itoa_int-IsText a.header_ts h.ts),
                    tt,
                  ),
                ),
              ),
            ),
          ),
        ),
      ) in
    let n : length (header_tokens a) ≡ 7 = unfold header_tokens hint_tokens in rw e refl in
    subst (IsText 1000) (sym (frame_header-tokens a)) (
      IsText-longer (4 + 101 * length (header_tokens a)) 1000
        (codes "FX/1" ++ metadata_part (header_tokens a)) (omega (arith, n))
        (IsText-append 4 _ (codes "FX/1") (metadata_part (header_tokens a))
          (is_printable→All (codes "FX/1") refl, omega arith)
          (metadata_part-IsText (header_tokens a) f)))

hash_tokens-IsText : (hs : List Bytes) → All (IsText 80) hs → All (IsText 100) (hash_tokens hs)
unfolding hash_tokens
hash_tokens-IsText [] h = tt
hash_tokens-IsText (t ∷ hs) (k, h) =
    (IsText-key (codes "file-hash=") t refl (omega arith) k, hash_tokens-IsText hs h)

length-hash_tokens : (hs : List Bytes) → length (hash_tokens hs) ≡ length hs
unfolding hash_tokens
length-hash_tokens [] = refl
length-hash_tokens (t ∷ hs) = ap suc (length-hash_tokens hs)

pub trailer_prefix-IsText :
    (a : WriteArgs)
    → IsTrailer a
    → a.metadata ≡ none
    → All (IsText 80) a.file_hashes
    → length a.file_hashes ≤ 1
    → IsText 600 (trailer_prefix a)
trailer_prefix-IsText a h e t l =
    let m : metadata_of a ≡ [] = unfold metadata_of in rw e refl in
    let f : All (IsText 100) (trailer_list a) =
      unfold trailer_list in
      rw m (
        IsText-longer 21 100 (itoa a.file_id) (omega arith) (itoa-IsText a.file_id h.id),
        (
          IsText-key (codes "status=ok") [] refl (omega arith) (tt, omega arith),
          (
            IsText-key (codes "ts=") _ refl (omega arith) (itoa_int-IsText a.trailer_ts h.ts),
            All-append (IsText 100) (hash_tokens a.file_hashes) _
                (hash_tokens-IsText a.file_hashes t)
                (
                  IsText-key (codes "next=") _ refl (omega arith) (itoa_int-IsText a.next h.next),
                  tt,
                ),
          ),
        ),
      ) in
    let n : length (trailer_list a) ≤ 5 =
      unfold trailer_list in
      rw m (
        omega (
          arith,
          length-append (hash_tokens a.file_hashes) ((codes "next=" ++ itoa_int a.next) ∷ []),
          length-hash_tokens a.file_hashes,
        )) in
    subst (IsText 600) (sym (trailer_prefix-tokens a h)) (
      IsText-longer (5 + 101 * length (trailer_list a)) 600
        (codes "FXT/1" ++ metadata_part (trailer_list a)) (omega (arith, n))
        (IsText-append 5 _ (codes "FXT/1") (metadata_part (trailer_list a))
          (is_printable→All (codes "FXT/1") refl, omega arith)
          (metadata_part-IsText (trailer_list a) f)))
