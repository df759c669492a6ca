-- ===== src/Encoding/Frame.antt =====
-- The frames of internal/filexfer/encoding/frame.go, as they are written. The xxh3 hash of a byte
-- string is a parameter.
pub mod Parse
pub mod Tokens
pub mod RoundTrip
pub mod Trailer
pub mod Text
use tx.Base.{ℕ, Bool, Option, none, some, List, [], ◌∷◌, ◌++◌, if◌then◌else◌, ◌==◌, map}
use tx.Base.Int.{ℤ}
use tx.Base.Bytes.{Bytes, codes, is_empty}
use tx.Base.Decimal.{itoa, itoa_int}
use tx.Encoding.Hash.{hex_padded}

pub record FileFrameMetadata : Type 0 where
  pub size : ℤ
  pub mtime_ns : ℤ
  pub mode : Bytes
  pub uid : Bytes
  pub gid : Bytes
  pub user : Bytes
  pub group : Bytes

pub record WriteArgs : Type 0 where
  pub file_id : ℕ
  pub offset : ℤ
  pub size : ℤ
  pub wsize : ℤ
  pub comp : Bytes
  pub header_hash : Bytes
  pub max_wsize_hint : Option ℤ
  pub header_ts : ℤ
  pub payload : Bytes
  pub trailer_ts : ℤ
  pub file_hashes : List Bytes
  pub next : ℤ
  pub metadata : Option FileFrameMetadata

-- `strings.ReplaceAll(s, " ", "_")`
abbrev pub underscored : Bytes → Bytes
underscored = map (λ c. if c == b' ' then b'_' else c)

unfoldable pub trailer_tokens : FileFrameMetadata → List Bytes
trailer_tokens m =
    (codes "meta:size=" ++ itoa_int m.size)
    ∷ (codes "meta:mtime_ns=" ++ itoa_int m.mtime_ns)
    ∷ (codes "meta:mode=" ++ m.mode)
    ∷ (codes "meta:uid=" ++ m.uid)
    ∷ (codes "meta:gid=" ++ m.gid)
    ∷ (codes "meta:user=" ++ underscored m.user)
    ∷ (codes "meta:group=" ++ underscored m.group)
    ∷ []

-- The tail of the header behind the hash.
pub header_tail : WriteArgs → Bytes
header_tail a = elim a.max_wsize_hint [
  | none ↦ codes " ts=" ++ itoa_int a.header_ts
  | some hint ↦ codes " max-wsize=" ++ (itoa_int hint ++ (codes " ts=" ++ itoa_int a.header_ts))
]

-- The header, less its line feed.
unfoldable pub frame_header : WriteArgs → Bytes
frame_header a =
    codes "FX/1 "
    ++ (itoa a.file_id
        ++ (codes " offset="
            ++ (itoa_int a.offset
                ++ (codes " size="
                    ++ (itoa_int a.size
                        ++ (codes " wsize="
                            ++ (itoa_int a.wsize
                                ++ (codes " comp="
                                    ++ (a.comp
                                        ++ (codes " hash="
                                            ++ (a.header_hash ++ header_tail a)))))))))))

abbrev pub file_hash_part : List Bytes → Bytes
file_hash_part [] = []
file_hash_part (token ∷ tokens) =
    let rest = file_hash_part tokens in
    if is_empty token then rest else codes " file-hash=" ++ (token ++ rest)

abbrev pub metadata_part : List Bytes → Bytes
metadata_part [] = []
metadata_part (token ∷ tokens) = b' ' ∷ (token ++ metadata_part tokens)

unfoldable pub metadata_of : WriteArgs → List Bytes
metadata_of a = elim a.metadata [ none ↦ [] | some m ↦ trailer_tokens m ]

unfoldable pub trailer_prefix : WriteArgs → Bytes
trailer_prefix a =
    codes "FXT/1 "
    ++ (itoa a.file_id
        ++ (codes " status=ok ts="
            ++ (itoa_int a.trailer_ts
                ++ (file_hash_part a.file_hashes
                    ++ (codes " next=" ++ (itoa_int a.next ++ metadata_part (metadata_of a)))))))

abbrev pub line_feed : ℕ
line_feed = 10

module _ (sum64 : Bytes → ℕ) where
  unfoldable pub frame_trailer : WriteArgs → Bytes
  frame_trailer a =
      trailer_prefix a
      ++ (codes " hash="
          ++ (codes "xxh64:"
              ++ hex_padded 16
                  (sum64 (frame_header a ++ (line_feed ∷ (a.payload ++ trailer_prefix a))))))

  -- What WriteFrame writes where no write fails.
  unfoldable pub write_frame : WriteArgs → Bytes
  write_frame a =
      frame_header a ++ (line_feed ∷ (a.payload ++ (frame_trailer a ++ (line_feed ∷ []))))
