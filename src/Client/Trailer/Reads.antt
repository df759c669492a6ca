-- ===== src/Client/Trailer/Reads.antt =====
-- The loop over a trailer's tokens in parseFXTrailer of client.go, on the tokens that a server writes.
use tx.Base.{
  ℕ, zero, suc, ◌<◌, ◌≡◌, refl, ap, ◌∙◌, subst, true, false, Option, none, some, List, [], ◌∷◌,
  ◌++◌, Result, ok, err, ◌>>=◌, length, All, arith, Option-cases, inl, inr, length-append,
}
use tx.Base.Int.{ℤ}
use tx.Base.Bytes.{Bytes, codes, is_empty}
use tx.Base.Decimal.{itoa_int}
use tx.Encoding.Frame.{
  WriteArgs, FileFrameMetadata, trailer_prefix, trailer_tokens, metadata_part, metadata_of,
  underscored,
}
use tx.Encoding.Frame.Parse.{next_fx_token, skip_blanks, token_of}
use tx.Encoding.Frame.Tokens.{IsToken, next_fx_token-last, next_fx_token-more, filled}
use tx.Encoding.Frame.RoundTrip.{IsNatural, IsNatural→is_neg, parse_int-itoa_int}
use tx.Encoding.Frame.Trailer.{IsMetadata, MetadataFits, hash_tokens, last_hash, hash_text}
use mathlib.Core.List.{append-nil}
use tx.Client.Trailer.{
  FileTrailerMetadata, ClientTrailer, TrailerError, invalid_meta_size, invalid_meta_mtime,
  meta_number, ReadState, with_meta, read_plain, read_key, read_meta, read_tokens,
}

-- The loop on a list of tokens.
abbrev pub read_list : ReadState → List Bytes → Result TrailerError ReadState
read_list s [] = ok s
read_list s (t ∷ ts) = read_plain s t >>= λ u. (read_meta u t >>= λ v. read_list v ts)

>>=-cong :
    {A B : Type 0} (m : Result TrailerError A) (f g : A → Result TrailerError B)
    → ((x : A) → f x ≡ g x)
    → (m >>= f) ≡ (m >>= g)
>>=-cong (ok x) f g h = h x
>>=-cong (err e) f g h = refl

read_tokens-nil : (fuel : ℕ) (s : ReadState) → read_tokens fuel s [] ≡ ok s
unfolding read_tokens next_fx_token token_of skip_blanks
read_tokens-nil zero s = refl
read_tokens-nil (suc fuel) s = refl

read_tokens-round :
    (fuel : ℕ) (s : ReadState) (line : Bytes)
    → is_empty (next_fx_token line).0 ≡ false
    → read_tokens (suc fuel) s line ≡ (
        read_plain s (next_fx_token line).0 >>= λ u.
        (read_meta u (next_fx_token line).0 >>= λ v. read_tokens fuel v (next_fx_token line).1))
unfolding read_tokens
read_tokens-round fuel s line e = rw (e, read_tokens) refl

read_tokens-step :
    (fuel : ℕ) (s : ReadState) (line t more : Bytes)
    → next_fx_token line ≡ (t, more)
    → is_empty t ≡ false
    → read_tokens (suc fuel) s line
      ≡ (read_plain s t >>= λ u. (read_meta u t >>= λ v. read_tokens fuel v more))
read_tokens-step fuel s line t more h e =
    subst
      (λ (q : Bytes × Bytes).
        read_tokens (suc fuel) s line
        ≡ (read_plain s q.0 >>= λ u. (read_meta u q.0 >>= λ v. read_tokens fuel v q.1)))
      h (read_tokens-round fuel s line (ap (λ (q : Bytes × Bytes). is_empty q.0) h ∙ e))

pub read_tokens-list :
    (fuel : ℕ) (s : ReadState) (t : Bytes) (ts : List Bytes)
    → IsToken t
    → All IsToken ts
    → length (t ++ metadata_part ts) < fuel
    → read_tokens fuel s (t ++ metadata_part ts) ≡ read_list s (t ∷ ts)
read_tokens-list zero s t ts h hs l = absurd (omega arith)
read_tokens-list (suc fuel) s t [] h hs l =
    ap (read_tokens (suc fuel) s) (append-nil t)
    ∙ read_tokens-step fuel s t t [] (next_fx_token-last t h) (filled t h)
    ∙ >>=-cong (read_plain s t) _ _
        (λ v. >>=-cong (read_meta v t) _ _ (λ w. read_tokens-nil fuel w))
read_tokens-list (suc fuel) s t (u ∷ ts) h (k, ks) l =
    let rest = u ++ metadata_part ts in
    read_tokens-step fuel s (t ++ (b' ' ∷ rest)) t rest (next_fx_token-more t rest h) (filled t h)
    ∙ >>=-cong (read_plain s t) _ _ (λ v. >>=-cong (read_meta v t) _ _ (λ w.
      read_tokens-list fuel w u ts k ks (omega (arith, l, length-append t (b' ' ∷ rest), h.1))))

-- The metadata as it arrives: spaces in the names of users and groups have become underscores.
abbrev pub metadata_sent : Option FileFrameMetadata → Option FileTrailerMetadata
metadata_sent none = none
metadata_sent (some m) = some (record {
  size = m.size;
  mtime_ns = m.mtime_ns;
  mode = m.mode;
  uid = m.uid;
  gid = m.gid;
  user = underscored m.user;
  group = underscored m.group;
})

unfoldable pub client_trailer_sent : WriteArgs → ℕ → ClientTrailer
client_trailer_sent a v = record {
  file_id = a.file_id;
  ts = a.trailer_ts;
  hash_token = hash_text v;
  file_hash_token = last_hash [] a.file_hashes;
  checksum_prefix = trailer_prefix a;
  next = a.next;
  has_next = true;
  metadata = metadata_sent a.metadata;
}

pub read_list-hashes :
    (s : ReadState) (hs ts : List Bytes)
    → read_list s (hash_tokens hs ++ ts)
      ≡ read_list (record s { file_hash = last_hash s.file_hash hs }) ts
unfolding hash_tokens read_plain read_meta
read_list-hashes s [] ts = refl
read_list-hashes s (h ∷ hs) ts = read_list-hashes (record s { file_hash = h }) hs ts

-- The state that the metadata leaves.
abbrev pub meta_state : ReadState → Option FileFrameMetadata → ReadState
meta_state s none = s
meta_state s (some m) = with_meta s (record {
  size = m.size;
  mtime_ns = m.mtime_ns;
  mode = m.mode;
  uid = m.uid;
  gid = m.gid;
  user = underscored m.user;
  group = underscored m.group;
})

meta_number-itoa_int : (v : ℤ) (e : TrailerError) → IsNatural v → meta_number (itoa_int v) e ≡ ok v
meta_number-itoa_int v e h = rw (parse_int-itoa_int v h, IsNatural→is_neg v h) refl

read_meta-size :
    (s : ReadState) (v : ℤ)
    → IsNatural v
    → read_meta s (codes "meta:size=" ++ itoa_int v) ≡ ok (with_meta s (record s.meta { size = v }))
unfolding read_meta read_key
read_meta-size s v h = rw (meta_number-itoa_int v invalid_meta_size h) refl

read_meta-mtime :
    (s : ReadState) (v : ℤ)
    → IsNatural v
    → read_meta s (codes "meta:mtime_ns=" ++ itoa_int v)
      ≡ ok (with_meta s (record s.meta { mtime_ns = v }))
unfolding read_meta read_key
read_meta-mtime s v h = rw (meta_number-itoa_int v invalid_meta_mtime h) refl

-- The tokens behind the size and the time.
abbrev names_of : FileFrameMetadata → List Bytes
names_of m =
    (codes "meta:mode=" ++ m.mode)
    ∷ (codes "meta:uid=" ++ m.uid)
    ∷ (codes "meta:gid=" ++ m.gid)
    ∷ (codes "meta:user=" ++ underscored m.user)
    ∷ (codes "meta:group=" ++ underscored m.group)
    ∷ []

read_list-names :
    (m : FileFrameMetadata) (s : ReadState)
    → read_list s (names_of m)
      ≡ ok (
          with_meta s (record s.meta {
            mode = m.mode;
            uid = m.uid;
            gid = m.gid;
            user = underscored m.user;
            group = underscored m.group;
          }))
unfolding read_plain read_meta read_key
read_list-names m s = refl

read_list-step :
    (s u : ReadState) (t : Bytes) (ts : List Bytes)
    → read_plain s t ≡ ok s
    → read_meta s t ≡ ok u
    → read_list s (t ∷ ts) ≡ read_list u ts
read_list-step s u t ts h k = rw (h, k) refl

read_list-tokens :
    (m : FileFrameMetadata) (s : ReadState)
    → IsMetadata m
    → read_list s (trailer_tokens m) ≡ ok (meta_state s (some m))
unfolding trailer_tokens
read_list-tokens m s k =
    let u = with_meta s (record s.meta { size = m.size }) in
    let v = with_meta u (record u.meta { mtime_ns = m.mtime_ns }) in
    let time = codes "meta:mtime_ns=" ++ itoa_int m.mtime_ns in
    read_list-step s u (codes "meta:size=" ++ itoa_int m.size) (time ∷ names_of m)
      (unfold read_plain in refl) (read_meta-size s m.size k.size)
    ∙ read_list-step u v time (names_of m) (unfold read_plain in refl)
        (read_meta-mtime u m.mtime_ns k.mtime)
    ∙ read_list-names m v

pub read_list-metadata :
    (a : WriteArgs) (s : ReadState)
    → MetadataFits a.metadata
    → read_list s (metadata_of a) ≡ ok (meta_state s a.metadata)
unfolding metadata_of
read_list-metadata a s h = elim (Option-cases a.metadata) [
  | inl e ↦ rw e refl
  | inr (m, e) ↦ rw e (read_list-tokens m s (subst MetadataFits e h))
]
