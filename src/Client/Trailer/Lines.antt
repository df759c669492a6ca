-- ===== src/Client/Trailer/Lines.antt =====
-- The trailer of a frame as a line: client.go reads it up to a line feed and trims its end.
use tx.Base.{
  ◌≤◌, ◌≡◌, ◌≢◌, refl, sym, subst, Bool, true, false, ◌&&◌, not, Option, none, some, List, [], ◌∷◌,
  ◌++◌, ◌==◌, length, All, All-append, arith, Option-cases, Bool-cases, inl, inr,
}
use tx.Base.Int.{ℤ, pos, negsuc}
use tx.Base.Bytes.{Bytes, codes, Avoids, is_empty}
use tx.Base.Decimal.{itoa, itoa_int, itoa-IsDigit, IsDigit}
use tx.Encoding.Frame.{
  WriteArgs, FileFrameMetadata, trailer_prefix, trailer_tokens, metadata_part, metadata_of,
  line_feed, underscored,
}
use tx.Encoding.Frame.RoundTrip.{IsNatural}
use tx.Encoding.Frame.Trailer.{
  IsTrailer, IsMetadata, MetadataFits, hash_tokens, trailer_list, trailer_prefix-tokens,
}
use tx.Ftcp.Items.RoundTrip.{IsGraphic}
use tx.Client.Trailer.{trim_line_end}

-- A trailer whose texts have no line feed.
abbrev pub IsMetadataLine : Option FileFrameMetadata → Type 0
IsMetadataLine none = Unit {0}
IsMetadataLine (some m) =
    Avoids line_feed m.mode
    × Avoids line_feed m.uid
    × Avoids line_feed m.gid
    × Avoids line_feed m.user
    × Avoids line_feed m.group

abbrev pub IsLine : WriteArgs → Type 0
IsLine a = All (Avoids line_feed) a.file_hashes × IsMetadataLine a.metadata

-- A key without a line feed, and what stands behind it.
abbrev pub is_line : Bytes → Bool
is_line [] = true
is_line (c ∷ s) = not (c == line_feed) && is_line s

pub line-Avoids : (s : Bytes) → is_line s ≡ true → Avoids line_feed s
line-Avoids [] h = tt
line-Avoids (c ∷ s) h = (ground arith, line-Avoids s (ground arith))

pub key_line : (k s : Bytes) → is_line k ≡ true → Avoids line_feed s → Avoids line_feed (k ++ s)
key_line k s h a = All-append (λ c. c ≢ line_feed) k s (line-Avoids k h) a

digits_line : (s : Bytes) → All IsDigit s → Avoids line_feed s
digits_line [] h = tt
digits_line (c ∷ s) (d, h) = (omega arith, digits_line s h)

number_line : (v : ℤ) → IsNatural v → Avoids line_feed (itoa_int v)
unfolding itoa_int
number_line (pos n) h = digits_line (itoa n) (itoa-IsDigit n)
number_line (negsuc n) h = absurd h

underscored-Avoids : (s : Bytes) → Avoids line_feed s → Avoids line_feed (underscored s)
underscored-Avoids [] h = tt
underscored-Avoids (c ∷ s) (n, h) = (ground arith, underscored-Avoids s h)

metadata_part-Avoids :
    (ts : List Bytes) → All (Avoids line_feed) ts → Avoids line_feed (metadata_part ts)
metadata_part-Avoids [] h = tt
metadata_part-Avoids (t ∷ ts) (a, h) = (
  omega arith,
  All-append (λ c. c ≢ line_feed) t (metadata_part ts) a (metadata_part-Avoids ts h),
)

trim_line_end-graphic : (t : Bytes) → All IsGraphic t → trim_line_end (t ++ (line_feed ∷ [])) ≡ t
unfolding trim_line_end
trim_line_end-graphic [] g = refl
trim_line_end-graphic (c ∷ t) (g, gs) =
    let a : (c == 13) ≡ false = ground arith in
    let b : (c == 10) ≡ false = ground arith in
    rw (trim_line_end-graphic t gs, a, b)
      (elim (Bool-cases (is_empty t)) [ inl e ↦ rw e refl | inr e ↦ rw e refl ])

filled-append : (s t : Bytes) → 1 ≤ length t → is_empty (s ++ t) ≡ false
filled-append [] [] l = absurd (omega arith)
filled-append [] (c ∷ t) l = refl
filled-append (c ∷ s) t l = refl

pub trim_line_end-kept :
    (s t : Bytes)
    → All IsGraphic t
    → 1 ≤ length t
    → trim_line_end (s ++ (t ++ (line_feed ∷ []))) ≡ s ++ t
unfolding trim_line_end
trim_line_end-kept [] t g l = trim_line_end-graphic t g
trim_line_end-kept (c ∷ s) t g l = rw (trim_line_end-kept s t g l, filled-append s t l) refl

hash_tokens-Avoids :
    (hs : List Bytes) → All (Avoids line_feed) hs → All (Avoids line_feed) (hash_tokens hs)
unfolding hash_tokens
hash_tokens-Avoids [] h = tt
hash_tokens-Avoids (t ∷ hs) (a, h) =
    (key_line (codes "file-hash=") t refl a, hash_tokens-Avoids hs h)

metadata_of-Avoids :
    (a : WriteArgs)
    → MetadataFits a.metadata
    → IsMetadataLine a.metadata
    → All (Avoids line_feed) (metadata_of a)
unfolding metadata_of trailer_tokens
metadata_of-Avoids a h k = elim (Option-cases a.metadata) [
  | inl e ↦ rw e tt
  | inr (m, e) ↦
      let f : IsMetadata m = subst MetadataFits e h in
      let (mode, uid, gid, user, group) = subst IsMetadataLine e k in
      rw e (
        key_line (codes "meta:size=") _ refl (number_line m.size f.size),
        (
          key_line (codes "meta:mtime_ns=") _ refl (number_line m.mtime_ns f.mtime),
          (
            key_line (codes "meta:mode=") _ refl mode,
            (
              key_line (codes "meta:uid=") _ refl uid,
              (
                key_line (codes "meta:gid=") _ refl gid,
                (
                  key_line (codes "meta:user=") _ refl (underscored-Avoids m.user user),
                  (key_line (codes "meta:group=") _ refl (underscored-Avoids m.group group), tt),
                ),
              ),
            ),
          ),
        ),
      )
]

pub trailer_prefix-Avoids :
    (a : WriteArgs) → IsTrailer a → IsLine a → Avoids line_feed (trailer_prefix a)
unfolding trailer_list
trailer_prefix-Avoids a h (k, l) = subst (Avoids line_feed) (sym (trailer_prefix-tokens a h)) (
    key_line (codes "FXT/1") (metadata_part (trailer_list a)) refl (
      metadata_part-Avoids (trailer_list a) (
        digits_line (itoa a.file_id) (itoa-IsDigit a.file_id),
        (
          key_line (codes "status=ok") [] refl tt,
          (
            key_line (codes "ts=") _ refl (number_line a.trailer_ts h.ts),
            All-append (Avoids line_feed) (hash_tokens a.file_hashes) _
                (hash_tokens-Avoids a.file_hashes k)
                (
                  key_line (codes "next=") _ refl (number_line a.next h.next),
                  metadata_of-Avoids a h.metadata l,
                ),
          ),
        ),
      )))

pub graphic_line : (s : Bytes) → All IsGraphic s → Avoids line_feed s
graphic_line [] h = tt
graphic_line (c ∷ s) (g, h) = (omega arith, graphic_line s h)
