-- ===== src/Encoding/Frame/RoundTrip.antt =====
-- The header that WriteFrame writes and the one that ParseFXHeader reads,
-- internal/filexfer/encoding/frame.go.
use tx.Base.{
  ℕ, ◌≤◌, ◌<◌, ◌^◌, ◌≡◌, refl, ap, ◌∙◌, subst, ◌≢◌, true, false, ◌||◌, Option, none, some, List, [],
  ◌∷◌, ◌++◌, length, All, All-append, arith, Option-cases, inl, inr, ok,
}
use tx.Base.Int.{ℤ, pos, negsuc, is_neg, leb_ℤ}
use tx.Base.Bytes.{Bytes, codes, Avoids, is_empty}
use tx.Base.Decimal.{
  itoa, itoa_int, parse_int, parse_int-itoa, parse_uint-itoa, itoa-IsDigit, length-itoa, IsDigit,
}
use tx.Encoding.Hash.{valid_hash_token}
use tx.Encoding.Frame.{WriteArgs, frame_header, header_tail, metadata_part}
use tx.Encoding.Frame.Parse.{
  FileFrameMeta, fx_fields, parse_fx_header, header_fields, header_of, header_props,
  parse_header_int, header_hint, lookup,
}
use tx.Encoding.Frame.Tokens.{IsToken, IsToken-append, fx_fields-tokens}
use tx.Ftcp.Params.{Params, get, put}
use mathlib.Core.List.{append-nil}

-- An int64 that is not negative.
abbrev pub IsNatural : ℤ → Type 0
IsNatural (pos n) = n < 2 ^ 63
IsNatural (negsuc n) = ⊥

pub IsNatural→is_neg : (v : ℤ) → IsNatural v → is_neg v ≡ false
IsNatural→is_neg (pos n) h = refl
IsNatural→is_neg (negsuc n) h = absurd h

Avoids-longer : (t s : Bytes) → Avoids b' ' t → Avoids b' ' s → Avoids b' ' (t ++ s)
Avoids-longer t s = All-append (λ c. c ≢ b' ') t s

pub itoa-IsToken : (n : ℕ) → IsToken (itoa n)
itoa-IsToken n = (digits (itoa n) (itoa-IsDigit n), length-itoa n)
  where
    digits : (s : Bytes) → All IsDigit s → Avoids b' ' s
    digits [] h = tt
    digits (c ∷ s) (d, h) = (omega arith, digits s h)

pub itoa_int-Avoids : (v : ℤ) → IsNatural v → Avoids b' ' (itoa_int v)
unfolding itoa_int
itoa_int-Avoids (pos n) h = (itoa-IsToken n).0
itoa_int-Avoids (negsuc n) h = absurd h

pub parse_int-itoa_int : (v : ℤ) → IsNatural v → parse_int (itoa_int v) ≡ some v
unfolding itoa_int
parse_int-itoa_int (pos n) h = parse_int-itoa n h
parse_int-itoa_int (negsuc n) h = absurd h

pub not_empty : (s : Bytes) → 1 ≤ length s → is_empty s ≡ false
not_empty [] h = absurd (omega arith)
not_empty (c ∷ s) h = refl

pub token_filled : (t : Bytes) → IsToken t → is_empty t ≡ false
token_filled t h = not_empty t h.1

pub itoa_int-filled : (v : ℤ) → IsNatural v → is_empty (itoa_int v) ≡ false
unfolding itoa_int
itoa_int-filled (pos n) h = not_empty (itoa n) (length-itoa n)
itoa_int-filled (negsuc n) h = absurd h

parse_header_int-itoa_int : (v : ℤ) → IsNatural v → parse_header_int (itoa_int v) ≡ ok v
unfolding parse_header_int
parse_header_int-itoa_int v h = rw (itoa_int-filled v h, parse_int-itoa_int v h) refl

abbrev pub IsHint : Option ℤ → Type 0
IsHint none = Unit {0}
IsHint (some v) = IsNatural v × (leb_ℤ v (pos 0) ≡ false)

-- What a sender puts into a header: numbers in range, a codec's name, and a hash token or none.
pub record IsHeader (a : WriteArgs) : Type 0 where
  pub id : a.file_id < 2 ^ 64
  pub offset : IsNatural a.offset
  pub size : IsNatural a.size
  pub wsize : IsNatural a.wsize
  pub hint : IsHint a.max_wsize_hint
  pub ts : IsNatural a.header_ts
  pub comp : IsToken a.comp
  pub hash_one : Avoids b' ' a.header_hash
  pub hash_valid : is_empty a.header_hash || valid_hash_token a.header_hash ≡ true

unfoldable pub hint_tokens : Option ℤ → List Bytes
hint_tokens none = []
hint_tokens (some v) = (codes "max-wsize=" ++ itoa_int v) ∷ []

unfoldable pub header_tokens : WriteArgs → List Bytes
header_tokens a =
    itoa a.file_id
    ∷ (codes "offset=" ++ itoa_int a.offset)
    ∷ (codes "size=" ++ itoa_int a.size)
    ∷ (codes "wsize=" ++ itoa_int a.wsize)
    ∷ (codes "comp=" ++ a.comp)
    ∷ (codes "hash=" ++ a.header_hash)
    ∷ (hint_tokens a.max_wsize_hint ++ ((codes "ts=" ++ itoa_int a.header_ts) ∷ []))

header_tail-tokens :
    (a : WriteArgs)
    → header_tail a
      ≡ metadata_part (hint_tokens a.max_wsize_hint ++ ((codes "ts=" ++ itoa_int a.header_ts) ∷ []))
unfolding header_tail hint_tokens
header_tail-tokens a = elim (Option-cases a.max_wsize_hint) [
  | inl e ↦ rw (e, append-nil (itoa_int a.header_ts)) refl
  | inr (v, e) ↦ rw (e, append-nil (itoa_int a.header_ts)) refl
]

pub frame_header-tokens :
    (a : WriteArgs) → frame_header a ≡ codes "FX/1" ++ metadata_part (header_tokens a)
unfolding frame_header header_tokens
frame_header-tokens a = rw (header_tail-tokens a) refl

hint_tokens-IsToken : (o : Option ℤ) → IsHint o → All IsToken (hint_tokens o)
unfolding hint_tokens
hint_tokens-IsToken none h = tt
hint_tokens-IsToken (some v) (n, h) =
    (IsToken-append (codes "max-wsize=") _ refl (omega arith) (itoa_int-Avoids v n), tt)

header_tokens-IsToken : (a : WriteArgs) → IsHeader a → All IsToken (header_tokens a)
unfolding header_tokens
header_tokens-IsToken a h = (
  itoa-IsToken a.file_id,
  (
    IsToken-append (codes "offset=") _ refl (omega arith) (itoa_int-Avoids a.offset h.offset),
    (
      IsToken-append (codes "size=") _ refl (omega arith) (itoa_int-Avoids a.size h.size),
      (
        IsToken-append (codes "wsize=") _ refl (omega arith) (itoa_int-Avoids a.wsize h.wsize),
        (
          IsToken-append (codes "comp=") _ refl (omega arith) h.comp.0,
          (
            IsToken-append (codes "hash=") _ refl (omega arith) h.hash_one,
            All-append IsToken (hint_tokens a.max_wsize_hint) _
                (hint_tokens-IsToken a.max_wsize_hint h.hint)
                (
                  IsToken-append (codes "ts=") _ refl (omega arith)
                      (itoa_int-Avoids a.header_ts h.ts),
                  tt,
                ),
          ),
        ),
      ),
    ),
  ),
)

abbrev pub meta_of : WriteArgs → FileFrameMeta
meta_of a = record {
  file_id = a.file_id;
  comp = a.comp;
  offset = a.offset;
  size = a.size;
  wire_size = a.wsize;
  max_wire_size_hint = elim a.max_wsize_hint [ none ↦ pos 0 | some v ↦ v ];
  header_ts = a.header_ts;
  hash_token = a.header_hash;
}

-- The map of a header's properties.
props_of : WriteArgs → Params
props_of a =
    header_props
      (header_props [] (
        (codes "offset=" ++ itoa_int a.offset)
        ∷ (codes "size=" ++ itoa_int a.size)
        ∷ (codes "wsize=" ++ itoa_int a.wsize)
        ∷ (codes "comp=" ++ a.comp)
        ∷ (codes "hash=" ++ a.header_hash)
        ∷ []))
      (hint_tokens a.max_wsize_hint ++ ((codes "ts=" ++ itoa_int a.header_ts) ∷ []))

header_of-props : (a : WriteArgs) → IsHeader a → header_of a.file_id (props_of a) ≡ ok (meta_of a)
unfolding header_of props_of header_hint hint_tokens lookup get put
header_of-props a h = elim (Option-cases a.max_wsize_hint) [
  | inl e ↦ rw e (
      rw
        (
          parse_header_int-itoa_int a.offset h.offset,
          parse_header_int-itoa_int a.size h.size,
          parse_header_int-itoa_int a.wsize h.wsize,
          parse_header_int-itoa_int a.header_ts h.ts,
          IsNatural→is_neg a.offset h.offset,
          IsNatural→is_neg a.size h.size,
          IsNatural→is_neg a.wsize h.wsize,
          IsNatural→is_neg a.header_ts h.ts,
          token_filled a.comp h.comp,
          h.hash_valid,
        )
        refl)
  | inr (v, e) ↦ rw e (
      let n : IsHint (some v) = subst IsHint e h.hint in
      rw
        (
          parse_header_int-itoa_int a.offset h.offset,
          parse_header_int-itoa_int a.size h.size,
          parse_header_int-itoa_int a.wsize h.wsize,
          parse_header_int-itoa_int a.header_ts h.ts,
          parse_header_int-itoa_int v n.0,
          n.1,
          IsNatural→is_neg a.offset h.offset,
          IsNatural→is_neg a.size h.size,
          IsNatural→is_neg a.wsize h.wsize,
          IsNatural→is_neg a.header_ts h.ts,
          token_filled a.comp h.comp,
          h.hash_valid,
        )
        refl)
]

-- A header that is written from values in range is read back to exactly those values.
pub parse_fx_header-frame_header :
    (a : WriteArgs) → IsHeader a → parse_fx_header (frame_header a) ≡ ok (meta_of a)
unfolding parse_fx_header header_fields header_tokens
parse_fx_header-frame_header a h =
    ap (λ t. header_fields (fx_fields t)) (frame_header-tokens a)
    ∙ ap header_fields (
        fx_fields-tokens (codes "FX/1") (header_tokens a)
          (IsToken-append (codes "FX/1") [] refl (omega arith) tt) (header_tokens-IsToken a h))
    ∙ rw (header_fields, header_tokens, parse_uint-itoa a.file_id h.id)
        (unfold props_of in header_of-props a h)
