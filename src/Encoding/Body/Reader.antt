-- ===== src/Encoding/Body/Reader.antt =====
-- One frame of a body, from FramedBodyWriter.flushChunk to FramedBodyReader.readNextFrame of
-- internal/filexfer/encoding/body_frame.go.
use tx.Base.{
  ℕ, suc, ◌+◌, ◌≤◌, ◌<◌, ◌^◌, ◌≡◌, refl, sym, ap, ◌∙◌, subst, Bool, true, false, ◌||◌, [], ◌∷◌,
  ◌++◌, ok, if◌then◌else◌, length, arith, inl, inr, ◌⊎◌, ◌==◌, Bool-cases, drop, drop-append,
}
use tx.Base.Int.{pos, leb_ℤ, sub_ℕ, pos_part}
use tx.Base.Bytes.{Bytes, codes, is_empty, bytes_eq, starts_with}
use tx.Encoding.Hash.{format_xxh128_hash_token, hex_padded}
use tx.Encoding.Frame.{
  WriteArgs, frame_header, frame_trailer, trailer_prefix, write_frame, line_feed,
}
use tx.Encoding.Frame.Parse.{parse_fx_trailer, hash_key}
use tx.Encoding.Frame.Tokens.{IsToken, is_word-Avoids}
use tx.Encoding.Frame.RoundTrip.{IsHeader, meta_of, parse_fx_header-frame_header}
use tx.Encoding.Frame.Trailer.{
  IsTrailer, hash_text, hash_text-IsGraphic, record_of_trailer, parse_fx_trailer-frame_trailer,
}
use tx.Encoding.Frame.Text.{
  IsText, IsText-longer, IsText-append, is_printable→All, frame_header-IsText,
  trailer_prefix-IsText,
}
use tx.Encoding.Body.{
  Codecs, FramedBodyReader, FramedBodyReaderOpts, zstd_name, none_name, chunk_args, encode_wire,
  decode_wire, read_frame_line, read_wire, check_meta, check_header, check_trailer_of,
  check_trailer, accept_next, read_next_frame, equal_fold, frame_hash_token, or_frame,
}
use tx.Encoding.Body.Hashes.{
  IsGraphic→IsPrintable, format_xxh128-IsText, format_xxh128-IsHashToken, equal_fold_self,
  frame_hash_token-hash_text,
}
use tx.Encoding.Body.Lines.{read_frame_line-text, read_wire-append}
use tx.Bufpool.{max_bucket}
use mathlib.Core.List.{append_assoc}

-- The hash has 16 bytes.
abbrev pub IsHash : Codecs → Type 0
IsHash k = (b : Bytes) → length (k.sum128 b) ≡ 16

-- A chunk at an offset, in the form that the reader decodes to it and within the reader's limits.
pub record Fits (k : Codecs) (opts : FramedBodyReaderOpts) (comp : Bytes) (o : ℕ)
    (chunk wire : Bytes) : Type 0 where
  pub comp_known : (comp ≡ zstd_name) ⊎ (comp ≡ none_name)
  pub encodes : encode_wire k comp chunk ≡ ok wire
  pub decodes : decode_wire k comp wire (length chunk) (length wire) ≡ ok chunk
  pub wire_fits : length wire ≤ opts.max_wire_size
  pub bucket_fits : length wire ≤ max_bucket
  pub frame_fits : length chunk ≤ opts.max_frame_logical_bytes
  pub body_fits : (opts.max_logical_bytes ≡ 0) ⊎ (o + length chunk ≤ opts.max_logical_bytes)
  pub in_range : o + length chunk < 2 ^ 63

comp-IsToken :
    (comp : Bytes) → (comp ≡ zstd_name) ⊎ (comp ≡ none_name) → IsToken comp × IsText 80 comp
comp-IsToken comp c = elim c [
  | inl e ↦
      subst (λ t. IsToken t × IsText 80 t) (sym e)
        (
          (is_word-Avoids zstd_name refl, omega arith),
          (is_printable→All zstd_name refl, omega arith),
        )
  | inr e ↦
      subst (λ t. IsToken t × IsText 80 t) (sym e)
        (
          (is_word-Avoids none_name refl, omega arith),
          (is_printable→All none_name refl, omega arith),
        )
]

module _ (k : Codecs) (opts : FramedBodyReaderOpts) (comp : Bytes) (o now : ℕ)
    (hashed chunk wire : Bytes) (terminal : Bool) (hash : IsHash k) (clock : now < 2 ^ 63)
    (fits : Fits k opts comp o chunk wire) where
  args : WriteArgs
  args = chunk_args k comp o hashed chunk terminal wire now

  args-IsHeader : IsHeader args
  unfolding args chunk_args
  args-IsHeader =
      let t = format_xxh128-IsHashToken (k.sum128 chunk) (hash chunk) in
      record {
        id = omega arith;
        offset = omega (arith, fits.in_range);
        size = omega (arith, fits.in_range);
        wsize = omega (arith, fits.bucket_fits);
        hint = tt;
        ts = clock;
        comp = (comp-IsToken comp fits.comp_known).0;
        hash_one = t.0.0;
        hash_valid = ground (arith, t.1);
      }

  file_hash : Bytes
  file_hash = format_xxh128_hash_token (k.sum128 (hashed ++ chunk))

  args-IsTrailer : IsTrailer args
  unfolding args chunk_args
  args-IsTrailer = elim (Bool-cases terminal) [
    | inl e ↦ rw e (record {
      id = omega arith;
      ts = clock;
      next = omega arith;
      hashes = (format_xxh128-IsHashToken _ (hash _), tt);
      metadata = tt;
    })
    | inr e ↦
        rw e (record {
          id = omega arith;
          ts = clock;
          next = fits.in_range;
          hashes = tt;
          metadata = tt;
        })
  ]

  header-IsText : IsText 1000 (frame_header args)
  header-IsText =
      frame_header-IsText args args-IsHeader (unfold args chunk_args in refl)
        (unfold args chunk_args in (comp-IsToken comp fits.comp_known).1)
        (unfold args chunk_args in format_xxh128-IsText _ (hash chunk))

  prefix-IsText : IsText 600 (trailer_prefix args)
  prefix-IsText = elim (Bool-cases terminal) [
    | inl e ↦
        trailer_prefix-IsText args args-IsTrailer (unfold args chunk_args in refl)
          (unfold args chunk_args in rw e (format_xxh128-IsText _ (hash _), tt))
          (unfold args chunk_args in rw e (omega arith))
    | inr e ↦
        trailer_prefix-IsText args args-IsTrailer (unfold args chunk_args in refl)
          (unfold args chunk_args in rw e tt) (unfold args chunk_args in rw e (omega arith))
  ]

  sum : ℕ
  sum = k.sum64 (frame_header args ++ (line_feed ∷ (args.payload ++ trailer_prefix args)))

  trailer-text : frame_trailer k.sum64 args ≡ trailer_prefix args ++ (hash_key ++ hash_text sum)
  unfolding frame_trailer hash_text sum
  trailer-text = refl

  trailer-IsText : IsText 1000 (frame_trailer k.sum64 args)
  trailer-IsText = subst (IsText 1000) (sym trailer-text) (
      IsText-longer (600 + (6 + 22)) 1000 _ (omega arith) (
        IsText-append 600 (6 + 22) (trailer_prefix args) (hash_key ++ hash_text sum) prefix-IsText (
          IsText-append 6 22 hash_key (hash_text sum) (is_printable→All hash_key refl, omega arith)
            (
              IsGraphic→IsPrintable (hash_text sum) (hash_text-IsGraphic sum),
              unfold hash_text hex_padded in omega arith,
            ))))

  hash_text-filled : (v : ℕ) → is_empty (hash_text v) ≡ false
  unfolding hash_text
  hash_text-filled v = refl

  check_trailer_of-written :
      check_trailer_of k (frame_header args) wire (record_of_trailer args sum) ≡ ok tt
  unfolding check_trailer_of record_of_trailer
  check_trailer_of-written =
      let e : frame_hash_token k (frame_header args) wire (trailer_prefix args) ≡ hash_text sum =
        unfold sum in unfold args chunk_args in frame_hash_token-hash_text k _ _ _ in
      rw (hash_text-filled sum, e, equal_fold_self (hash_text sum)) (unfold args chunk_args in refl)

  check_trailer-written :
      check_trailer k (frame_header args) wire (frame_trailer k.sum64 args)
      ≡ ok (record_of_trailer args sum)
  unfolding check_trailer or_frame
  check_trailer-written =
      let p : parse_fx_trailer (frame_trailer k.sum64 args) ≡ ok (record_of_trailer args sum) =
        unfold sum in parse_fx_trailer-frame_trailer k.sum64 args args-IsTrailer in
      rw (p, check_trailer_of-written) refl

  module _ (r : FramedBodyReader) (at : r.offset ≡ o) where
    check_meta-written : check_meta opts r (meta_of args) ≡ ok tt
    unfolding check_meta args chunk_args
    check_meta-written =
        let a : leb_ℤ (pos o) (pos r.offset) ≡ true = ground arith in
        let b : leb_ℤ (pos r.offset) (pos o) ≡ true = ground arith in
        let c : leb_ℤ (pos (length wire)) (pos opts.max_wire_size) ≡ true =
          ground (arith, fits.wire_fits) in
        let d : leb_ℤ (pos (length chunk)) (pos opts.max_frame_logical_bytes) ≡ true =
          ground (arith, fits.frame_fits) in
        let e : opts.max_logical_bytes == 0
              || leb_ℤ (pos (length chunk)) (sub_ℕ opts.max_logical_bytes r.offset)
            ≡ true =
          ground (arith, fits.body_fits) in
        rw (a, b, c, d, e) (unfold format_xxh128_hash_token in refl)

    check_header-written : check_header opts r (frame_header args) ≡ ok (meta_of args)
    unfolding check_header or_frame
    check_header-written =
        let s : starts_with (codes "ERR ") (frame_header args) ≡ false =
          unfold frame_header in refl in
        let t : bytes_eq (frame_header args) (codes "OK") ≡ false = unfold frame_header in refl in
        let u : starts_with (codes "OK ") (frame_header args) ≡ false =
          unfold frame_header in refl in
        rw (s, t, u, parse_fx_header-frame_header args args-IsHeader, check_meta-written) refl

  file_hash-filled : is_empty file_hash ≡ false
  unfolding file_hash format_xxh128_hash_token
  file_hash-filled = refl

  -- What the reader has behind the frame.
  abbrev taken : FramedBodyReader → Bytes → FramedBodyReader
  taken r rest = record r {
    input = rest;
    hashed = r.hashed ++ chunk;
    buf = r.buf ++ chunk;
    offset = r.offset + length chunk;
  }

  abbrev behind : FramedBodyReader → Bytes → FramedBodyReader
  behind r rest = record r {
    input = rest;
    hashed = r.hashed ++ chunk;
    buf = r.buf ++ chunk;
    offset = r.offset + length chunk;
    frame_idx = suc r.frame_idx;
    done = if terminal then true else r.done;
    file_hash_token = if terminal then file_hash else r.file_hash_token;
  }

  module _ (r : FramedBodyReader) (rest : Bytes) (at : r.offset ≡ o) (seen : r.hashed ≡ hashed)
      (progress : terminal ≡ false → 1 ≤ length chunk) where
    accept_next-terminal :
        terminal ≡ true
        → accept_next k (taken r rest) (record_of_trailer args sum) args.next ≡ ok (behind r rest)
    unfolding accept_next record_of_trailer args chunk_args file_hash
    accept_next-terminal e =
        let token = format_xxh128_hash_token (k.sum128 (hashed ++ chunk)) in
        let g : is_empty token ≡ false = unfold format_xxh128_hash_token in refl in
        let f : equal_fold token (format_xxh128_hash_token (k.sum128 (r.hashed ++ chunk))) ≡ true =
          ap (λ t. equal_fold token (format_xxh128_hash_token (k.sum128 (t ++ chunk)))) seen
          ∙ equal_fold_self token in
        rw (e, g, f) refl

    accept_next-more :
        terminal ≡ false
        → accept_next k (taken r rest) (record_of_trailer args sum) args.next ≡ ok (behind r rest)
    unfolding accept_next record_of_trailer args chunk_args
    accept_next-more e =
        let p = progress e in
        let a : leb_ℤ (pos (o + length chunk)) (pos 0) ≡ false = ground arith in
        let b : leb_ℤ (pos (o + length chunk)) (pos (r.offset + length chunk)) ≡ true =
          ground arith in
        let c : leb_ℤ (pos (r.offset + length chunk)) (pos (o + length chunk)) ≡ true =
          ground arith in
        rw (e, a, b, c) refl

    accept_next-written :
        accept_next k (taken r rest) (record_of_trailer args sum) args.next ≡ ok (behind r rest)
    accept_next-written = elim (Bool-cases terminal) [
      | inl e ↦ accept_next-terminal e
      | inr e ↦ accept_next-more e
    ]

    tail : Bytes
    tail = frame_trailer k.sum64 args ++ (line_feed ∷ rest)

    write_frame-rest :
        write_frame k.sum64 args ++ rest ≡ frame_header args ++ (line_feed ∷ (wire ++ tail))
    unfolding write_frame tail
    write_frame-rest =
        let t = frame_trailer k.sum64 args in
        append_assoc (frame_header args) (line_feed ∷ (args.payload ++ (t ++ (line_feed ∷ []))))
          rest
        ∙ ap (λ (q : Bytes). frame_header args ++ (line_feed ∷ q))
            (append_assoc args.payload (t ++ (line_feed ∷ [])) rest
              ∙ ap (λ (q : Bytes). args.payload ++ q) (append_assoc t (line_feed ∷ []) rest))
        ∙ unfold args chunk_args in refl

    -- A frame that is written for a chunk is read to the chunk, and what follows it is left.
    read_next_frame-written :
        read_next_frame k opts (record r { input = write_frame k.sum64 args ++ rest })
        ≡ ok (behind r rest)
    unfolding read_next_frame record_of_trailer
    read_next_frame-written =
        let i : write_frame k.sum64 args ++ rest
            ≡ frame_header args ++ (line_feed ∷ (wire ++ tail)) =
          write_frame-rest in
        let s : FramedBodyReader = record r { input = write_frame k.sum64 args ++ rest } in
        let h : read_frame_line (write_frame k.sum64 args ++ rest)
            ≡ ok (frame_header args, wire ++ tail) =
          ap read_frame_line i
          ∙ read_frame_line-text (frame_header args) (wire ++ tail) header-IsText in
        let w : read_wire (pos_part args.wsize) (wire ++ tail) ≡ ok wire =
          unfold args chunk_args in read_wire-append wire tail fits.bucket_fits in
        let d : decode_wire k args.comp wire (pos_part args.size) (pos_part args.wsize) ≡ ok chunk =
          unfold args chunk_args in fits.decodes in
        let q : equal_fold args.header_hash (format_xxh128_hash_token (k.sum128 chunk)) ≡ true =
          unfold args chunk_args in equal_fold_self (format_xxh128_hash_token (k.sum128 chunk)) in
        let dropped : drop (pos_part args.wsize) (wire ++ tail) ≡ tail =
          unfold args chunk_args in drop-append (length wire) wire tail refl in
        let l : read_frame_line (drop (pos_part args.wsize) (wire ++ tail))
            ≡ ok (frame_trailer k.sum64 args, rest) =
          ap read_frame_line dropped
          ∙ unfold tail in read_frame_line-text (frame_trailer k.sum64 args) rest trailer-IsText in
        let e : accept_next k (taken r rest) (record_of_trailer args sum) args.next
            ≡ ok (behind r rest) =
          accept_next-written in
        let z : r.offset + pos_part args.size ≡ r.offset + length chunk =
          unfold args chunk_args in refl in
        rw (h, check_header-written s at, w, d, q, l, check_trailer-written, z) e

    -- The same, for the frame as flushChunk writes it.
    pub read_next_frame-chunk :
        read_next_frame k opts (record r {
          input = write_frame k.sum64 (chunk_args k comp o hashed chunk terminal wire now) ++ rest;
        })
        ≡ ok (record r {
          input = rest;
          hashed = r.hashed ++ chunk;
          buf = r.buf ++ chunk;
          offset = r.offset + length chunk;
          frame_idx = suc r.frame_idx;
          done = if terminal then true else r.done;
          file_hash_token =
              if terminal
              then format_xxh128_hash_token (k.sum128 (hashed ++ chunk))
              else r.file_hash_token;
        })
    read_next_frame-chunk = unfold args file_hash in read_next_frame-written
