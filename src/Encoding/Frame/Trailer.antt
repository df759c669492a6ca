-- ===== src/Encoding/Frame/Trailer.antt =====
-- The trailer that WriteFrame writes and the one that ParseFXTrailer reads,
-- internal/filexfer/encoding/frame.go.
use tx.Base.{
  ℕ, zero, suc, ◌<◌, ◌^◌, ◌/◌, ◌%◌, ◌≡◌, refl, sym, ap, ◌∙◌, subst, Bool, true, false, ◌&&◌, ◌||◌,
  Option, none, some, List, [], ◌∷◌, ◌++◌, All, All-append, arith, Option-cases, inl, inr, ok,
}
use tx.Base.Bytes.{Bytes, codes, Avoids, is_empty, between}
use tx.Base.Decimal.{itoa, itoa_int, parse_uint-itoa}
use tx.Encoding.Hash.{valid_hash_token, hex_padded, hex_digit}
use tx.Encoding.Frame.{
  WriteArgs, FileFrameMetadata, trailer_prefix, trailer_tokens, file_hash_part, metadata_part,
  metadata_of, frame_trailer, frame_header, line_feed, underscored,
}
use tx.Encoding.Frame.Parse.{
  FrameTrailer, TrailerState, no_trailer, parse_fx_trailer, trailer_fields, trailer_of,
  trailer_loop, trailer_token, trailer_ts, trailer_next, split_of, split_trailer_prefix_and_hash,
  hash_key, fx_fields,
}
use tx.Encoding.Frame.Tokens.{IsToken, IsToken-append, fx_fields-tokens, cut_last-append}
use tx.Encoding.Frame.RoundTrip.{
  IsNatural, IsNatural→is_neg, itoa-IsToken, itoa_int-Avoids, parse_int-itoa_int, token_filled,
}
use tx.Ftcp.Items.RoundTrip.{IsGraphic, trim_space-graphic}
use mathlib.Core.List.{append_assoc}

-- Metadata whose texts have no space; the names of users and groups may have.
pub record IsMetadata (m : FileFrameMetadata) : Type 0 where
  pub size : IsNatural m.size
  pub mtime : IsNatural m.mtime_ns
  pub mode : Avoids b' ' m.mode
  pub uid : Avoids b' ' m.uid
  pub gid : Avoids b' ' m.gid

abbrev pub MetadataFits : Option FileFrameMetadata → Type 0
MetadataFits none = Unit {0}
MetadataFits (some m) = IsMetadata m

abbrev pub IsHashToken : Bytes → Type 0
IsHashToken t = IsToken t × (valid_hash_token t ≡ true)

-- What a sender puts into a trailer.
pub record IsTrailer (a : WriteArgs) : Type 0 where
  pub id : a.file_id < 2 ^ 64
  pub ts : IsNatural a.trailer_ts
  pub next : IsNatural a.next
  pub hashes : All IsHashToken a.file_hashes
  pub metadata : MetadataFits a.metadata

unfoldable pub hash_tokens : List Bytes → List Bytes
hash_tokens [] = []
hash_tokens (h ∷ hs) = (codes "file-hash=" ++ h) ∷ hash_tokens hs

unfoldable pub trailer_list : WriteArgs → List Bytes
trailer_list a =
    itoa a.file_id
    ∷ codes "status=ok"
    ∷ (codes "ts=" ++ itoa_int a.trailer_ts)
    ∷ (hash_tokens a.file_hashes ++ ((codes "next=" ++ itoa_int a.next) ∷ metadata_of a))

file_hash_part-tokens :
    (hs ts : List Bytes)
    → All IsHashToken hs
    → file_hash_part hs ++ metadata_part ts ≡ metadata_part (hash_tokens hs ++ ts)
unfolding hash_tokens
file_hash_part-tokens [] ts h = refl
file_hash_part-tokens (t ∷ hs) ts (k, h) = rw (token_filled t k.0) (
    ap (λ (q : Bytes). codes " file-hash=" ++ q)
      (append_assoc t (file_hash_part hs) (metadata_part ts)
        ∙ ap (λ (q : Bytes). t ++ q) (file_hash_part-tokens hs ts h)))

pub trailer_prefix-tokens :
    (a : WriteArgs)
    → IsTrailer a
    → trailer_prefix a ≡ codes "FXT/1" ++ metadata_part (trailer_list a)
unfolding trailer_prefix trailer_list
trailer_prefix-tokens a h =
    rw
      (sym (
        file_hash_part-tokens a.file_hashes ((codes "next=" ++ itoa_int a.next) ∷ metadata_of a)
          h.hashes))
      refl

hash_tokens-IsToken : (hs : List Bytes) → All IsHashToken hs → All IsToken (hash_tokens hs)
unfolding hash_tokens
hash_tokens-IsToken [] h = tt
hash_tokens-IsToken (t ∷ hs) (k, h) =
    (IsToken-append (codes "file-hash=") t refl (omega arith) k.0.0, hash_tokens-IsToken hs h)

underscored-Avoids : (s : Bytes) → Avoids b' ' (underscored s)
underscored-Avoids [] = tt
underscored-Avoids (c ∷ s) = (ground arith, underscored-Avoids s)

metadata_of-IsToken : (a : WriteArgs) → MetadataFits a.metadata → All IsToken (metadata_of a)
unfolding metadata_of trailer_tokens
metadata_of-IsToken a h = elim (Option-cases a.metadata) [
  | inl e ↦ rw e tt
  | inr (m, e) ↦
      let k : IsMetadata m = subst MetadataFits e h in
      rw e (
        IsToken-append (codes "meta:size=") _ refl (omega arith) (itoa_int-Avoids m.size k.size),
        (
          IsToken-append (codes "meta:mtime_ns=") _ refl (omega arith)
              (itoa_int-Avoids m.mtime_ns k.mtime),
          (
            IsToken-append (codes "meta:mode=") _ refl (omega arith) k.mode,
            (
              IsToken-append (codes "meta:uid=") _ refl (omega arith) k.uid,
              (
                IsToken-append (codes "meta:gid=") _ refl (omega arith) k.gid,
                (
                  IsToken-append (codes "meta:user=") _ refl (omega arith)
                      (underscored-Avoids m.user),
                  (
                    IsToken-append (codes "meta:group=") _ refl (omega arith)
                        (underscored-Avoids m.group),
                    tt,
                  ),
                ),
              ),
            ),
          ),
        ),
      )
]

pub trailer_list-IsToken : (a : WriteArgs) → IsTrailer a → All IsToken (trailer_list a)
unfolding trailer_list
trailer_list-IsToken a h = (
  itoa-IsToken a.file_id,
  (
    IsToken-append (codes "status=ok") [] refl (omega arith) tt,
    (
      IsToken-append (codes "ts=") _ refl (omega arith) (itoa_int-Avoids a.trailer_ts h.ts),
      All-append IsToken (hash_tokens a.file_hashes) _ (hash_tokens-IsToken a.file_hashes h.hashes)
          (
            IsToken-append (codes "next=") _ refl (omega arith) (itoa_int-Avoids a.next h.next),
            metadata_of-IsToken a h.metadata,
          ),
    ),
  ),
)

-- The last file hash counts.
abbrev pub last_hash : Bytes → List Bytes → Bytes
last_hash h [] = h
last_hash h (t ∷ ts) = last_hash t ts

trailer_loop-hashes :
    (s : TrailerState) (hs ts : List Bytes)
    → trailer_loop s (hash_tokens hs ++ ts)
      ≡ trailer_loop (record s { file_hash = last_hash s.file_hash hs }) ts
unfolding hash_tokens trailer_loop trailer_token trailer_ts trailer_next
trailer_loop-hashes s [] ts = refl
trailer_loop-hashes s (h ∷ hs) ts = trailer_loop-hashes (record s { file_hash = h }) hs ts

trailer_loop-metadata : (a : WriteArgs) (s : TrailerState) → trailer_loop s (metadata_of a) ≡ ok s
unfolding metadata_of trailer_tokens trailer_loop trailer_token trailer_ts trailer_next
trailer_loop-metadata a s = elim (Option-cases a.metadata) [
  | inl e ↦ rw e refl
  | inr (m, e) ↦ rw e refl
]

abbrev pub trailer_state : WriteArgs → TrailerState
trailer_state a = record {
  status = codes "ok";
  ts = a.trailer_ts;
  file_hash = last_hash [] a.file_hashes;
  next = some a.next;
}

trailer_loop-written :
    (a : WriteArgs)
    → IsTrailer a
    → trailer_loop no_trailer (
        codes "status=ok"
        ∷ (codes "ts=" ++ itoa_int a.trailer_ts)
        ∷ (hash_tokens a.file_hashes ++ ((codes "next=" ++ itoa_int a.next) ∷ metadata_of a)))
      ≡ ok (trailer_state a)
unfolding trailer_loop trailer_token trailer_ts trailer_next
trailer_loop-written a h =
    rw
      (
        parse_int-itoa_int a.trailer_ts h.ts,
        IsNatural→is_neg a.trailer_ts h.ts,
        trailer_loop-hashes _ a.file_hashes _,
        parse_int-itoa_int a.next h.next,
        IsNatural→is_neg a.next h.next,
        trailer_loop-metadata a _,
      )
      refl

pub last_hash-valid :
    (t : Bytes) (hs : List Bytes)
    → is_empty t || valid_hash_token t ≡ true
    → All IsHashToken hs
    → is_empty (last_hash t hs) || valid_hash_token (last_hash t hs) ≡ true
last_hash-valid t [] h k = h
last_hash-valid t (u ∷ hs) h ((w, v), k) = last_hash-valid u hs (ground (arith, v)) k

pub hex_padded-IsGraphic : (k v : ℕ) → All IsGraphic (hex_padded k v)
unfolding hex_padded
hex_padded-IsGraphic zero v = tt
hex_padded-IsGraphic (suc k) v = (digit (v / 16 ^ k % 16) (omega arith), hex_padded-IsGraphic k v)
  where
    digit : (n : ℕ) → n < 16 → IsGraphic (hex_digit n)
    digit n h = ground arith

pub IsGraphic-Avoids : (s : Bytes) → All IsGraphic s → Avoids b' ' s
IsGraphic-Avoids [] h = tt
IsGraphic-Avoids (c ∷ s) (g, h) = (omega arith, IsGraphic-Avoids s h)

-- The token of a frame's hash.
unfoldable pub hash_text : ℕ → Bytes
hash_text v = codes "xxh64:" ++ hex_padded 16 v

pub hash_text-IsGraphic : (v : ℕ) → All IsGraphic (hash_text v)
unfolding hash_text
hash_text-IsGraphic v =
    All-append IsGraphic (codes "xxh64:") (hex_padded 16 v) (graphic_word (codes "xxh64:") refl)
      (hex_padded-IsGraphic 16 v)
  where
    graphic_text : Bytes → Bool
    graphic_text [] = true
    graphic_text (c ∷ s) = between 33 126 c && graphic_text s

    graphic_word : (s : Bytes) → graphic_text s ≡ true → All IsGraphic s
    graphic_word [] h = tt
    graphic_word (c ∷ s) h = (ground arith, graphic_word s (ground arith))

hash_text-valid : (v : ℕ) → valid_hash_token (hash_text v) ≡ true
unfolding hash_text valid_hash_token hex_padded
hash_text-valid v = refl

prefix_filled : (a : WriteArgs) → is_empty (trailer_prefix a) ≡ false
unfolding trailer_prefix
prefix_filled a = refl

pub split-frame :
    (a : WriteArgs) (v : ℕ)
    → split_trailer_prefix_and_hash (trailer_prefix a ++ (hash_key ++ hash_text v))
      ≡ ok (trailer_prefix a, hash_text v)
unfolding split_trailer_prefix_and_hash split_of
split-frame a v =
    ap (split_of (trailer_prefix a ++ (hash_key ++ hash_text v))) (
      cut_last-append (trailer_prefix a) (hash_text v)
        (IsGraphic-Avoids (hash_text v) (hash_text-IsGraphic v)))
    ∙ rw
        (
          split_of,
          prefix_filled a,
          trim_space-graphic (hash_text v) (hash_text-IsGraphic v),
          hash_text-valid v,
        )
        refl

unfoldable pub record_of_trailer : WriteArgs → ℕ → FrameTrailer
record_of_trailer a v = record {
  file_id = a.file_id;
  ts = a.trailer_ts;
  hash_token = hash_text v;
  file_hash_token = last_hash [] a.file_hashes;
  checksum_prefix = trailer_prefix a;
  next = some a.next;
}

trailer_of-written :
    (a : WriteArgs) (v : ℕ)
    → IsTrailer a
    → trailer_of a.file_id (trailer_prefix a) (hash_text v) (trailer_state a)
      ≡ ok (record_of_trailer a v)
unfolding trailer_of record_of_trailer
trailer_of-written a v h =
    rw (IsNatural→is_neg a.trailer_ts h.ts, last_hash-valid [] a.file_hashes refl h.hashes) refl

trailer_fields-written :
    (a : WriteArgs) (v : ℕ)
    → IsTrailer a
    → trailer_fields (trailer_prefix a) (hash_text v) (codes "FXT/1" ∷ trailer_list a)
      ≡ ok (record_of_trailer a v)
unfolding trailer_fields trailer_list
trailer_fields-written a v h =
    rw (parse_uint-itoa a.file_id h.id, trailer_loop-written a h) (trailer_of-written a v h)

pub parse_fx_trailer-text :
    (a : WriteArgs) (v : ℕ)
    → IsTrailer a
    → parse_fx_trailer (trailer_prefix a ++ (hash_key ++ hash_text v)) ≡ ok (record_of_trailer a v)
unfolding parse_fx_trailer
parse_fx_trailer-text a v h = rw (split-frame a v) (
    ap (λ t. trailer_fields (trailer_prefix a) (hash_text v) (fx_fields t))
      (trailer_prefix-tokens a h)
    ∙ ap (trailer_fields (trailer_prefix a) (hash_text v)) (
        fx_fields-tokens (codes "FXT/1") (trailer_list a)
          (IsToken-append (codes "FXT/1") [] refl (omega arith) tt) (trailer_list-IsToken a h))
    ∙ trailer_fields-written a v h)

-- A trailer is read back to its id, time, hashes and next offset; this parser skips the metadata.
pub parse_fx_trailer-frame_trailer :
    (sum64 : Bytes → ℕ) (a : WriteArgs)
    → IsTrailer a
    → parse_fx_trailer (frame_trailer sum64 a)
      ≡ ok (
          record_of_trailer a
            (sum64 (frame_header a ++ (line_feed ∷ (a.payload ++ trailer_prefix a)))))
unfolding frame_trailer
parse_fx_trailer-frame_trailer sum64 a h = unfold hash_text in parse_fx_trailer-text a _ h
