-- ===== src/Ftcp/Items/RoundTrip.antt =====
-- parseItemLine of internal/filexfer/ftcp/items.go on lines in the form that a client writes.
use tx.Base.{
  ℕ, zero, suc, ◌^◌, ◌≤◌, ◌<◌, ◌≡◌, refl, true, false, List, [], ◌∷◌, ◌++◌, ok, if◌then◌else◌,
  length, All, All-append, arith, length-append,
}
use tx.Base.Bytes.{
  Bytes, codes, is_empty, Avoids, is_space, space_len, space_len_back, trim_go, trim_space,
  cut-append,
}
use tx.Base.Decimal.{itoa, itoa-IsDigit, IsDigit, length-itoa}
use tx.Ftcp.Cursor.{space, skip_spaces, eof, scan_token, read_token, read_path_value, delimited}
use tx.Ftcp.Cursor.RoundTrip.{read_path_value-len}
use tx.Ftcp.Params.{Params, put}
use tx.Ftcp.Request.{one_of}
use tx.Ftcp.Items.{key_fid, key_path, item_options, parse_item_line}
use mathlib.Core.List.{reverse, reverse-append, reverse-reverse}

-- Visible ASCII: neither a space nor a control character.
abbrev pub IsGraphic : ℕ → Type 0
IsGraphic c = (33 ≤ c) × (c ≤ 126)

space_len-graphic : (s : Bytes) → All IsGraphic s → space_len s ≡ 0
unfolding space_len
space_len-graphic [] h = refl
space_len-graphic (c ∷ []) (g, h) = ground arith
space_len-graphic (c ∷ d ∷ []) (g, h) = ground arith
space_len-graphic (c ∷ d ∷ e ∷ s) (g, h) = ground arith

not_space : (c : ℕ) → IsGraphic c → is_space c ≡ false
not_space c g = ground arith

space_len_back-graphic : (s : Bytes) → All IsGraphic s → space_len_back s ≡ 0
unfolding space_len_back
space_len_back-graphic [] h = refl
space_len_back-graphic (c ∷ []) (g, h) = space_len-graphic (c ∷ []) (g, tt)
space_len_back-graphic (c ∷ d ∷ []) (g, (k, h)) =
    rw (not_space c g, space_len-graphic (d ∷ c ∷ []) (k, (g, tt)))
space_len_back-graphic (c ∷ d ∷ e ∷ s) (g, (k, (l, h))) = rw (
  not_space c g,
  space_len-graphic (d ∷ c ∷ []) (k, (g, tt)),
  space_len-graphic (e ∷ d ∷ c ∷ []) (l, (k, (g, tt))),
)

pub trim_go-zero : (len : Bytes → ℕ) (fuel : ℕ) (s : Bytes) → len s ≡ 0 → trim_go len fuel s ≡ s
unfolding trim_go
trim_go-zero len zero s h = refl
trim_go-zero len (suc fuel) s h = rw h

pub All-reverse {κ} : (P : ℕ → Type κ) (s : Bytes) → All P s → All P (reverse s)
All-reverse P [] h = tt
All-reverse P (c ∷ s) (g, h) =
    rw (reverse-append (c ∷ []) s) (All-append P (reverse s) (c ∷ []) (All-reverse P s h) (g, tt))

-- Visible text is not trimmed.
pub trim_space-graphic : (s : Bytes) → All IsGraphic s → trim_space s ≡ s
unfolding trim_space
trim_space-graphic s h =
    let front = trim_go-zero space_len (length s) s (space_len-graphic s h) in
    let back =
      trim_go-zero space_len_back (length s) (reverse s)
        (space_len_back-graphic (reverse s) (All-reverse IsGraphic s h)) in
    rw (front, back) (reverse-reverse s)

scan_token-graphic :
    (s rest : Bytes) → All IsGraphic s → delimited rest ≡ true → scan_token (s ++ rest) ≡ (s, rest)
unfolding scan_token
scan_token-graphic [] [] h d = refl
scan_token-graphic [] (c ∷ rest) h d = ground arith
scan_token-graphic (c ∷ s) rest (g, h) d = ground (arith, scan_token-graphic s rest h d)

-- A visible token behind a space, before a space or the end of the line.
read_token-graphic :
    (s rest : Bytes)
    → 1 ≤ length s
    → All IsGraphic s
    → delimited rest ≡ true
    → (read_token (s ++ rest) ≡ ok (s, rest))
      × (read_token (space ∷ (s ++ rest)) ≡ ok (s, rest))
      × (eof (s ++ rest) ≡ false)
      × (eof (space ∷ (s ++ rest)) ≡ false)
unfolding read_token eof skip_spaces
read_token-graphic [] rest l h d = absurd (omega arith)
read_token-graphic (c ∷ s) rest l (g, h) d =
    ground (arith, scan_token-graphic (c ∷ s) rest (g, h) d)

-- The fields behind the path, as the client's writer appends them.
abbrev pub render : List (Bytes × Bytes) → Bytes
render [] = []
render ((k, v) ∷ kvs) = space ∷ ((k ++ (b'=' ∷ v)) ++ render kvs)

abbrev pub store : List Bytes → List (Bytes × Bytes) → Params → Params
store allowed [] item = item
store allowed ((k, v) ∷ kvs) item =
    store allowed kvs (if one_of allowed k then put k v item else item)

-- A field that a line can carry.
abbrev pub IsField : Bytes × Bytes → Type 0
IsField (k, v) = (1 ≤ length k) × All IsGraphic k × Avoids b'=' k × All IsGraphic v

delimited-render : (kvs : List (Bytes × Bytes)) → delimited (render kvs) ≡ true
delimited-render [] = refl
delimited-render ((k, v) ∷ kvs) = refl

item_options-render :
    (allowed : List Bytes) (kvs : List (Bytes × Bytes)) (fuel : ℕ) (item : Params)
    → All IsField kvs
    → length (render kvs) < fuel
    → item_options allowed fuel (render kvs) item ≡ ok (store allowed kvs item)
unfolding item_options
item_options-render allowed kvs zero item h f = absurd (omega arith)
item_options-render allowed [] (suc fuel) item h f = unfold eof in refl
item_options-render allowed ((k, v) ∷ kvs) (suc fuel) item ((l, gk, a, gv), h) f =
    let tok = k ++ (b'=' ∷ v) in
    let t =
      read_token-graphic tok (render kvs) (omega (arith, length-append k (b'=' ∷ v)))
        (All-append IsGraphic k (b'=' ∷ v) gk (omega arith, gv)) (delimited-render kvs) in
    rw (t.3, item_options)
      (rw (t.1, cut-append b'=' k v a)
        (item_options-render allowed kvs fuel (if one_of allowed k then put k v item else item) h
          (omega (arith, length-append tok (render kvs)))))

read_path_value-space : (s : Bytes) → read_path_value (space ∷ s) ≡ read_path_value s
unfolding read_path_value
read_path_value-space s = refl

not_empty : (s : Bytes) → 1 ≤ length s → is_empty s ≡ false
not_empty [] h = absurd (omega arith)
not_empty (c ∷ s) h = refl

pub IsDigit-IsGraphic : (s : Bytes) → All IsDigit s → All IsGraphic s
IsDigit-IsGraphic [] h = tt
IsDigit-IsGraphic (c ∷ s) (g, h) = (omega arith, IsDigit-IsGraphic s h)

abbrev pub item_line : ℕ → Bytes → List (Bytes × Bytes) → Bytes
item_line fid path kvs =
    codes "fd=" ++ (itoa fid ++ (space ∷ (itoa (length path) ++ (b':' ∷ (path ++ render kvs)))))

-- A line that is written from an id, a path of any bytes and fields of visible text is parsed to
-- the id's decimal, the path and those fields that the verb allows.
pub parse_item_line-item_line :
    (allowed : List Bytes) (fid : ℕ) (path : Bytes) (kvs : List (Bytes × Bytes))
    → length path < 2 ^ 63
    → All IsField kvs
    → parse_item_line allowed (item_line fid path kvs)
      ≡ ok (store allowed kvs (put key_path path (put key_fid (itoa fid) [])))
unfolding parse_item_line
parse_item_line-item_line allowed fid path kvs hp h =
    let value = itoa (length path) ++ (b':' ∷ (path ++ render kvs)) in
    let graphic = IsDigit-IsGraphic (itoa fid) (itoa-IsDigit fid) in
    let t =
      read_token-graphic (codes "fd=" ++ itoa fid) (space ∷ value) (omega arith)
        (omega arith, (omega arith, (omega arith, graphic))) refl in
    rw (t.2, t.0, trim_space-graphic (itoa fid) graphic, not_empty (itoa fid) (length-itoa fid))
      (rw (read_path_value-space, read_path_value-len path (render kvs) hp (delimited-render kvs))
        (item_options-render allowed kvs (suc (length (render kvs)))
          (put key_path path (put key_fid (itoa fid) [])) h (omega arith)))
