-- ===== src/Encoding/Frame/Tokens.antt =====
-- The tokens of a frame's lines, internal/filexfer/encoding/frame.go: how a line is written from
-- them and split into them.
use tx.Base.{
  ℕ, zero, suc, ◌≤◌, ◌<◌, ◌≡◌, refl, sym, ap, ◌∙◌, ◌≢◌, Bool, true, false, ◌&&◌, not, none, some,
  List, [], ◌∷◌, ◌++◌, ◌==◌, length, All, All-append, arith, length-append,
}
use tx.Base.Bytes.{Bytes, Avoids, cut, cut-append, is_empty}
use tx.Encoding.Frame.{metadata_part}
use tx.Encoding.Frame.Parse.{
  skip_blanks, token_of, next_fx_token, fields_loop, fx_fields, cut_last, hash_key,
}
use mathlib.Core.List.{append-nil, append_assoc}

-- A token of a line: it is not empty and has no space.
abbrev pub IsToken : Bytes → Type 0
IsToken t = Avoids b' ' t × (1 ≤ length t)

abbrev pub is_word : Bytes → Bool
is_word [] = true
is_word (c ∷ s) = not (c == b' ') && is_word s

pub is_word-Avoids : (s : Bytes) → is_word s ≡ true → Avoids b' ' s
is_word-Avoids [] h = tt
is_word-Avoids (c ∷ s) h = (ground arith, is_word-Avoids s (ground arith))

-- A key of one word, and a value behind it.
pub IsToken-append :
    (k s : Bytes) → is_word k ≡ true → 1 ≤ length k → Avoids b' ' s → IsToken (k ++ s)
IsToken-append k s h l t =
    (All-append (λ c. c ≢ b' ') k s (is_word-Avoids k h) t, omega (arith, length-append k s))

pub cut-none : (c : ℕ) (s : Bytes) → Avoids c s → cut c s ≡ none
cut-none c [] h = refl
cut-none c (d ∷ s) (n, h) = ground (arith, cut-none c s h)

pub skip_blanks-filled : (c : ℕ) (s : Bytes) → c ≢ b' ' → skip_blanks (c ∷ s) ≡ c ∷ s
unfolding skip_blanks
skip_blanks-filled c s n = ground arith

pub next_fx_token-last : (t : Bytes) → IsToken t → next_fx_token t ≡ (t, [])
unfolding next_fx_token token_of
next_fx_token-last [] (a, l) = absurd (omega arith)
next_fx_token-last (c ∷ t) ((n, a), l) =
    ap token_of (skip_blanks-filled c t n) ∙ rw (token_of, cut-none b' ' (c ∷ t) (n, a)) refl

pub next_fx_token-more :
    (t rest : Bytes) → IsToken t → next_fx_token (t ++ (b' ' ∷ rest)) ≡ (t, rest)
unfolding next_fx_token token_of
next_fx_token-more [] rest (a, l) = absurd (omega arith)
next_fx_token-more (c ∷ t) rest ((n, a), l) =
    ap token_of (skip_blanks-filled c (t ++ (b' ' ∷ rest)) n)
    ∙ rw (token_of, cut-append b' ' (c ∷ t) rest (n, a)) refl

pub filled : (t : Bytes) → IsToken t → is_empty t ≡ false
filled [] (a, l) = absurd (omega arith)
filled (c ∷ t) h = refl

fields_loop-tokens :
    (f : ℕ) (t : Bytes) (ts : List Bytes)
    → IsToken t
    → All IsToken ts
    → length (t ++ metadata_part ts) < f
    → fields_loop f (t ++ metadata_part ts) ≡ t ∷ ts
unfolding fields_loop
fields_loop-tokens zero t ts h hs l = absurd (omega arith)
fields_loop-tokens (suc zero) t [] h hs l = absurd (omega (arith, h.1, length-append t []))
fields_loop-tokens (suc (suc f)) t [] h hs l =
    rw (append-nil t, next_fx_token-last t h, filled t h)
      (unfold next_fx_token token_of skip_blanks in refl)
fields_loop-tokens (suc f) t (u ∷ ts) h (k, ks) l =
    rw
      (
        next_fx_token-more t (u ++ metadata_part ts) h,
        filled t h,
        fields_loop-tokens f u ts k ks
            (omega (arith, length-append t (b' ' ∷ (u ++ metadata_part ts)), h.1)),
      )
      refl

-- A line of tokens is split into them.
pub fx_fields-tokens :
    (t : Bytes) (ts : List Bytes)
    → IsToken t
    → All IsToken ts
    → fx_fields (t ++ metadata_part ts) ≡ t ∷ ts
unfolding fx_fields
fx_fields-tokens t ts h hs = fields_loop-tokens _ t ts h hs (omega arith)

pub metadata_part-append :
    (xs ys : List Bytes) → metadata_part (xs ++ ys) ≡ metadata_part xs ++ metadata_part ys
metadata_part-append [] ys = refl
metadata_part-append (x ∷ xs) ys =
    ap (λ (k : Bytes). b' ' ∷ (x ++ k)) (metadata_part-append xs ys)
    ∙ ap (λ (k : Bytes). b' ' ∷ k) (sym (append_assoc x (metadata_part xs) (metadata_part ys)))

-- A part without spaces has no separator that starts with one.
cut_last-none : (t : Bytes) → Avoids b' ' t → cut_last hash_key t ≡ none
unfolding cut_last
cut_last-none [] h = refl
cut_last-none (c ∷ t) (n, h) = rw (cut_last-none t h) (ground arith)

-- The last occurrence is the one that was written before the last token.
pub cut_last-append :
    (p t : Bytes) → Avoids b' ' t → cut_last hash_key (p ++ (hash_key ++ t)) ≡ some (p, t)
unfolding cut_last
cut_last-append [] t h = rw (cut_last-none t h) refl
cut_last-append (c ∷ p) t h = rw (cut_last-append p t h) refl
