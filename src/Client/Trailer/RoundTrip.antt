-- ===== src/Client/Trailer/RoundTrip.antt =====
-- parseFXTrailer of client.go on the trailers that WriteFrame writes: the metadata arrives.
use tx.Base.{
  ℕ, suc, ◌≡◌, ◌≢◌, refl, sym, ap, ◌∙◌, subst, true, false, ◌&&◌, not, some, List, [], ◌∷◌, ◌++◌,
  ok, ◌>>=◌, ◌>>◌, guard, or_err, length, All, All-append, arith, Option-cases, inl, inr,
}
use tx.Base.Int.{ℤ}
use tx.Base.Bytes.{Bytes, codes, Avoids, is_empty, bytes_eq, cut, cut-append}
use tx.Base.Decimal.{itoa, itoa_int, parse_uint, parse_uint-itoa}
use tx.Encoding.Frame.{
  WriteArgs, trailer_prefix, metadata_part, metadata_of, frame_trailer, frame_header, line_feed,
}
use tx.Encoding.Frame.Parse.{
  next_fx_token, skip_blanks, hash_key, invalid_trailer, invalid_trailer_id,
}
use tx.Encoding.Frame.Tokens.{IsToken, IsToken-append, next_fx_token-more}
use tx.Encoding.Frame.RoundTrip.{IsNatural, IsNatural→is_neg, parse_int-itoa_int}
use tx.Encoding.Frame.Trailer.{
  IsTrailer, IsMetadata, MetadataFits, hash_tokens, trailer_list, trailer_prefix-tokens,
  trailer_list-IsToken, last_hash, last_hash-valid, hash_text, hash_text-IsGraphic, split-frame,
}
use mathlib.Core.List.{append_assoc}
use tx.Client.Trailer.{
  ReadState, nothing_read, read_plain, read_meta, read_tokens, metadata_read, client_trailer_of,
  read_prefix, frame_error, parse_client_trailer, trim_line_end,
}
use tx.Client.Trailer.Reads.{
  read_list, read_tokens-list, client_trailer_sent, read_list-hashes, meta_state,
  read_list-metadata,
}
use tx.Client.Trailer.Lines.{
  IsLine, key_line, graphic_line, trim_line_end-kept, trailer_prefix-Avoids,
}

-- The state after the tokens of a trailer behind its id.
abbrev state_sent : WriteArgs → ReadState
state_sent a =
    meta_state
      (record nothing_read {
        status = codes "ok";
        ts = a.trailer_ts;
        file_hash = last_hash [] a.file_hashes;
        next = a.next;
        has_next = true;
      })
      a.metadata

abbrev tokens_sent : WriteArgs → List Bytes
tokens_sent a =
    (codes "ts=" ++ itoa_int a.trailer_ts)
    ∷ (hash_tokens a.file_hashes ++ ((codes "next=" ++ itoa_int a.next) ∷ metadata_of a))

read_plain-ts :
    (s : ReadState) (v : ℤ)
    → IsNatural v
    → read_plain s (codes "ts=" ++ itoa_int v) ≡ ok (record s { ts = v })
unfolding read_plain
read_plain-ts s v h = rw (parse_int-itoa_int v h, IsNatural→is_neg v h) refl

read_plain-next :
    (s : ReadState) (v : ℤ)
    → IsNatural v
    → read_plain s (codes "next=" ++ itoa_int v) ≡ ok (record s { next = v; has_next = true })
unfolding read_plain
read_plain-next s v h = rw (parse_int-itoa_int v h, IsNatural→is_neg v h) refl

read_list-plain :
    (s u : ReadState) (t : Bytes) (ts : List Bytes)
    → read_plain s t ≡ ok u
    → read_meta u t ≡ ok u
    → read_list s (t ∷ ts) ≡ read_list u ts
read_list-plain s u t ts h k = rw (h, k) refl

read_list-sent :
    (a : WriteArgs)
    → IsTrailer a
    → read_list nothing_read (codes "status=ok" ∷ tokens_sent a) ≡ ok (state_sent a)
read_list-sent a h =
    let s₁ = record nothing_read { status = codes "ok" } in
    let s₂ = record s₁ { ts = a.trailer_ts } in
    let s₃ = record s₂ { file_hash = last_hash [] a.file_hashes } in
    let s₄ = record s₃ { next = a.next; has_next = true } in
    let next = codes "next=" ++ itoa_int a.next in
    let hashes = hash_tokens a.file_hashes ++ (next ∷ metadata_of a) in
    read_list-plain nothing_read s₁ (codes "status=ok") (tokens_sent a) (unfold read_plain in refl)
      (unfold read_meta in refl)
    ∙ read_list-plain s₁ s₂ (codes "ts=" ++ itoa_int a.trailer_ts) hashes
        (read_plain-ts s₁ a.trailer_ts h.ts) (unfold read_meta in refl)
    ∙ read_list-hashes s₂ a.file_hashes (next ∷ metadata_of a)
    ∙ read_list-plain s₃ s₄ next (metadata_of a) (read_plain-next s₃ a.next h.next)
        (unfold read_meta in refl)
    ∙ read_list-metadata a s₄ h.metadata

client_trailer_of-sent :
    (a : WriteArgs) (v : ℕ)
    → IsTrailer a
    → client_trailer_of a.file_id (trailer_prefix a) (hash_text v) (state_sent a)
      ≡ ok (client_trailer_sent a v)
unfolding client_trailer_of client_trailer_sent metadata_read
client_trailer_of-sent a v h = elim (Option-cases a.metadata) [
  | inl e ↦
      rw e (
        rw (IsNatural→is_neg a.trailer_ts h.ts, last_hash-valid [] a.file_hashes refl h.hashes)
          refl)
  | inr (m, e) ↦
      let k : IsMetadata m = subst MetadataFits e h.metadata in
      rw e (
        rw
          (
            IsNatural→is_neg a.trailer_ts h.ts,
            last_hash-valid [] a.file_hashes refl h.hashes,
            IsNatural→is_neg m.size k.size,
            IsNatural→is_neg m.mtime_ns k.mtime,
          )
          refl)
]

read_prefix-of :
    (prefix hash version more raw_id rest : Bytes)
    → next_fx_token prefix ≡ (version, more)
    → next_fx_token more ≡ (raw_id, rest)
    → read_prefix prefix hash ≡ (
        guard
          (bytes_eq version (codes "FXT/1") && not (is_empty (skip_blanks rest)))
          (frame_error invalid_trailer)
        >> (or_err (parse_uint raw_id) (frame_error invalid_trailer_id) >>= λ id.
            (read_tokens (suc (length rest)) nothing_read rest >>= λ s.
            client_trailer_of id prefix hash s)))
unfolding read_prefix
read_prefix-of prefix hash version more raw_id rest h k = rw (h, k, read_prefix) refl

status_first : (s : Bytes) → is_empty (skip_blanks (codes "status=ok" ++ s)) ≡ false
unfolding skip_blanks
status_first s = refl

read_prefix-sent :
    (a : WriteArgs) (v : ℕ)
    → IsTrailer a
    → read_prefix (trailer_prefix a) (hash_text v) ≡ ok (client_trailer_sent a v)
read_prefix-sent a v h =
    let tokens = codes "status=ok" ++ metadata_part (tokens_sent a) in
    let list : All IsToken (trailer_list a) = trailer_list-IsToken a h in
    let written : trailer_prefix a ≡ codes "FXT/1" ++ (b' ' ∷ (itoa a.file_id ++ (b' ' ∷ tokens))) =
      trailer_prefix-tokens a h ∙ unfold trailer_list in refl in
    let all : All IsToken (itoa a.file_id ∷ codes "status=ok" ∷ tokens_sent a) =
      unfold trailer_list in list in
    let version =
      ap next_fx_token written
      ∙ next_fx_token-more (codes "FXT/1") (itoa a.file_id ++ (b' ' ∷ tokens))
          (IsToken-append (codes "FXT/1") [] refl (omega arith) tt) in
    let body =
      read_tokens-list (suc (length tokens)) nothing_read (codes "status=ok") (tokens_sent a)
        all.1.0 all.1.1 (omega arith) in
    read_prefix-of (trailer_prefix a) (hash_text v) (codes "FXT/1") _ (itoa a.file_id) tokens
      version (next_fx_token-more (itoa a.file_id) tokens all.0)
    ∙ rw
        (
          status_first (metadata_part (tokens_sent a)),
          parse_uint-itoa a.file_id h.id,
          body ∙ read_list-sent a h,
        )
        (client_trailer_of-sent a v h)

pub parse_client_trailer-text :
    (a : WriteArgs) (v : ℕ)
    → IsTrailer a
    → parse_client_trailer (trailer_prefix a ++ (hash_key ++ hash_text v))
      ≡ ok (client_trailer_sent a v)
unfolding parse_client_trailer
parse_client_trailer-text a v h = rw (split-frame a v) (read_prefix-sent a v h)

frame_text : Bytes → ℕ → Bytes
frame_text prefix v = prefix ++ (hash_key ++ hash_text v)

frame_text-Avoids :
    (prefix : Bytes) (v : ℕ) → Avoids line_feed prefix → Avoids line_feed (frame_text prefix v)
unfolding frame_text
frame_text-Avoids prefix v a =
    All-append (λ c. c ≢ line_feed) prefix (hash_key ++ hash_text v) a
      (key_line hash_key (hash_text v) refl (graphic_line (hash_text v) (hash_text-IsGraphic v)))

trim_line_end-frame_text :
    (prefix : Bytes) (v : ℕ)
    → trim_line_end (frame_text prefix v ++ (line_feed ∷ [])) ≡ frame_text prefix v
unfolding frame_text
trim_line_end-frame_text prefix v =
    let s = prefix ++ hash_key in
    let e : prefix ++ (hash_key ++ hash_text v) ≡ s ++ hash_text v =
      sym (append_assoc prefix hash_key (hash_text v)) in
    ap (λ (q : Bytes). trim_line_end (q ++ (line_feed ∷ []))) e
    ∙ ap trim_line_end (append_assoc s (hash_text v) (line_feed ∷ []))
    ∙ trim_line_end-kept s (hash_text v) (hash_text-IsGraphic v) (unfold hash_text in omega arith)
    ∙ sym e

frame_trailer-text :
    (sum64 : Bytes → ℕ) (a : WriteArgs)
    → frame_trailer sum64 a
      ≡ frame_text
          (trailer_prefix a)
          (sum64 (frame_header a ++ (line_feed ∷ (a.payload ++ trailer_prefix a))))
unfolding frame_trailer frame_text hash_text
frame_trailer-text sum64 a = refl

-- A trailer that is written from numbers in range, hash tokens and metadata without line feeds, where
-- only the names of user and group have spaces, ends with the first line feed of the stream; the client
-- that reads this line gets the id, the times, the last file hash, the next offset, the frame's hash and
-- each of the file's metadata as they were, but for underscores in place of the spaces of the names.
pub parse_client_trailer-frame_trailer :
    (sum64 : Bytes → ℕ) (a : WriteArgs) (rest : Bytes)
    → IsTrailer a
    → IsLine a
    → (cut line_feed (frame_trailer sum64 a ++ (line_feed ∷ rest))
        ≡ some (frame_trailer sum64 a, rest))
      × (parse_client_trailer (trim_line_end (frame_trailer sum64 a ++ (line_feed ∷ [])))
          ≡ ok (
              client_trailer_sent a
                (sum64 (frame_header a ++ (line_feed ∷ (a.payload ++ trailer_prefix a))))))
parse_client_trailer-frame_trailer sum64 a rest h k =
    let v = sum64 (frame_header a ++ (line_feed ∷ (a.payload ++ trailer_prefix a))) in
    let text = frame_text (trailer_prefix a) v in
    rw (frame_trailer-text sum64 a) (
      cut-append line_feed text rest
          (frame_text-Avoids (trailer_prefix a) v (trailer_prefix-Avoids a h k)),
      ap parse_client_trailer (trim_line_end-frame_text (trailer_prefix a) v)
          ∙ unfold frame_text in parse_client_trailer-text a v h,
    )
