-- ===== src/Encoding/Body/RoundTrip.antt =====
-- Both ends of a framed body, internal/filexfer/encoding/body_frame.go: what is written to the writer
-- and what is read from the reader.
use tx.Base.{
  ℕ, ◌+◌, ◌≤◌, ◌<◌, ◌^◌, ◌≡◌, refl, sym, ap, ◌∙◌, subst, Bool, true, false, List, [], ◌∷◌, ◌++◌,
  Result, ok, ◌>>=◌, if◌then◌else◌, length, arith, length-append, take, drop, ltb, ◌==◌, inl, inr,
  ◌⊎◌, some, ==-self,
}
use tx.Base.Bytes.{Bytes, is_empty}
use tx.Encoding.Frame.{write_frame, frame_header}
use tx.Encoding.Body.{
  Codecs, BodyError, FramedBodyWriter, FramedBodyReader, FramedBodyReaderOpts, chunk_args,
  encode_wire, decode_wire, decompress_zstd_n, flush_chunk, write, close, read_all, new_writer,
  new_reader, zstd_name, none_name,
}
use tx.Encoding.Body.Reader.{IsHash, Fits}
use tx.Encoding.Body.Streams.{chunks, frame_at, render, AllFit, Ended, read_all-render}
use tx.Encoding.Body.Writer.{Carries, Wrote, write-Wrote}
use tx.Bufpool.{max_bucket}
use mathlib.Core.List.{append_assoc, append-nil}

-- The calls of Write, one after the other, each with whether its flush interval has passed.
pub write_all :
    Codecs → (ℕ → ℕ) → FramedBodyWriter → List (Bool × Bytes) → Result BodyError FramedBodyWriter
write_all k clock w [] = ok w
write_all k clock w ((due, p) ∷ ps) = write k clock due w p >>= λ v. write_all k clock v ps

abbrev pub all_bytes : List (Bool × Bytes) → Bytes
all_bytes [] = []
all_bytes ((due, p) ∷ ps) = p ++ all_bytes ps

-- What zstd promises: it decodes what it has encoded, for chunks of at most so many bytes, and what
-- it has encoded is within the reader's limits.
pub record Zstd (k : Codecs) (opts : FramedBodyReaderOpts) (size : ℕ) : Type 0 where
  pub law :
      (c : Bytes)
      → length c ≤ size
      → (w : Bytes) × (k.compress c ≡ some w)
        × (k.decompress w ≡ some c)
        × (length w ≤ opts.max_wire_size)
        × (length w ≤ max_bucket)
  pub ceiling : size ≤ k.frame_ceiling

-- A codec by its name, with chunks of at most so many bytes.
abbrev pub Carrier : Codecs → FramedBodyReaderOpts → Bytes → ℕ → Type 0
Carrier k opts comp size =
    ((comp ≡ none_name) × (size ≤ opts.max_wire_size) × (size ≤ max_bucket))
    ⊎ ((comp ≡ zstd_name) × Zstd k opts size)

-- Both ends agree on the limits: the reader takes frames of the writer's chunk size and bodies of so
-- many bytes.
pub record Agreed (k : Codecs) (opts : FramedBodyReaderOpts) (comp : Bytes) (size total : ℕ)
    : Type 0 where
  pub carrier : Carrier k opts comp size
  pub cut : 1 ≤ size
  pub frames : size ≤ opts.max_frame_logical_bytes
  pub body : (opts.max_logical_bytes ≡ 0) ⊎ (total ≤ opts.max_logical_bytes)
  pub range : total < 2 ^ 63

body_fits : (m total n : ℕ) → (m ≡ 0) ⊎ (total ≤ m) → n ≤ total → (m ≡ 0) ⊎ (n ≤ m)
body_fits m total n h l = elim h [ inl e ↦ inl e | inr e ↦ inr (omega arith) ]

decode_wire-none : (k : Codecs) (c : Bytes) → decode_wire k none_name c (length c) (length c) ≡ ok c
unfolding decode_wire
decode_wire-none k c = rw (==-self (length c)) refl

decode_wire-zstd :
    (k : Codecs) (c w : Bytes)
    → k.decompress w ≡ some c
    → length c ≤ k.frame_ceiling
    → decode_wire k zstd_name w (length c) (length w) ≡ ok c
unfolding decode_wire decompress_zstd_n
decode_wire-zstd k c w d l =
    let a : ltb k.frame_ceiling (length c) ≡ false = ground arith in
    rw (a, d, ==-self (length c)) refl

Agreed→Carries :
    (k : Codecs) (clock : ℕ → ℕ) (opts : FramedBodyReaderOpts) (comp : Bytes) (size total : ℕ)
    → Agreed k opts comp size total
    → Carries k clock opts comp size total
Agreed→Carries k clock opts comp size total a o c l m = elim a.carrier [
  | inl (e, s, t) ↦ (
    c,
    record {
      comp_known = inr e;
      encodes = ap (λ q. encode_wire k q c) e ∙ unfold encode_wire in refl;
      decodes = ap (λ q. decode_wire k q c (length c) (length c)) e ∙ decode_wire-none k c;
      wire_fits = omega arith;
      bucket_fits = omega arith;
      frame_fits = omega (arith, a.frames);
      body_fits = body_fits opts.max_logical_bytes total (o + length c) a.body m;
      in_range = omega (arith, a.range);
    },
  )
  | inr (e, z) ↦
      let (w, p, q, s, t) = z.law c l in
      (
        w,
        record {
          comp_known = inl e;
          encodes = ap (λ y. encode_wire k y c) e ∙ unfold encode_wire in rw p refl;
          decodes =
              ap (λ y. decode_wire k y w (length c) (length w)) e
              ∙ decode_wire-zstd k c w q (omega (arith, z.ceiling));
          wire_fits = s;
          bucket_fits = t;
          frame_fits = omega (arith, a.frames);
          body_fits = body_fits opts.max_logical_bytes total (o + length c) a.body m;
          in_range = omega (arith, a.range);
        },
      )
]

take_all : (s : Bytes) → take (length s) s ≡ s
take_all [] = refl
take_all (c ∷ s) = ap (λ (t : Bytes). c ∷ t) (take_all s)

module _ (k : Codecs) (clock : ℕ → ℕ) (opts : FramedBodyReaderOpts) (comp : Bytes) where
  frame_filled :
      (o : ℕ) (hashed c w : Bytes) (t : Bool) → 1 ≤ length (frame_at k clock comp o hashed c w t)
  unfolding write_frame frame_header
  frame_filled o hashed c w t = omega arith

  length-render :
      (o : ℕ) (hashed : Bytes) (cs : List (Bytes × Bytes))
      → length cs ≤ length (render k clock comp o hashed cs)
  unfolding render
  length-render o hashed [] = omega arith
  length-render o hashed ((c, w) ∷ cs) = omega (
    arith,
    frame_filled o hashed c w false,
    length-render (o + length c) (hashed ++ c) cs,
    length-append (frame_at k clock comp o hashed c w false)
        (render k clock comp (o + length c) (hashed ++ c) cs),
  )

  module _ (size total : ℕ) (agreed : Agreed k opts comp size total) where
    write_all-Wrote :
        (ps : List (Bool × Bytes)) (w : FramedBodyWriter) (given : Bytes)
        → Wrote k clock opts comp size total w given
        → length w.buf < size
        → length (given ++ all_bytes ps) ≤ total
        → (v : FramedBodyWriter) × (write_all k clock w ps ≡ ok v)
          × Wrote k clock opts comp size total v (given ++ all_bytes ps)
          × (length v.buf < size)
    unfolding write_all
    write_all-Wrote [] w given h b l =
        (w, refl, subst (Wrote k clock opts comp size total w) (sym (append-nil given)) h, b)
    write_all-Wrote ((due, p) ∷ ps) w given h b l =
        let j = append_assoc given p (all_bytes ps) in
        let m : length (given ++ p) ≤ total =
          omega (arith, ap length j, length-append (given ++ p) (all_bytes ps)) in
        let (v, e, g, c) =
          write-Wrote k clock opts comp size total
            (Agreed→Carries k clock opts comp size total agreed) agreed.cut due w given p h m in
        let (u, e', g', c') = write_all-Wrote ps v (given ++ p) g c (omega (arith, ap length j)) in
        (u, rw (e, e') refl, subst (Wrote k clock opts comp size total u) j g', c')

    -- The terminal frame holds what is left in the buffer.
    close-terminal :
        (w : FramedBodyWriter) (given : Bytes)
        → (h : Wrote k clock opts comp size total w given) → length w.buf < size
        → length given ≤ total
        → (v : FramedBodyWriter) × (wire : Bytes) × (close k clock w ≡ ok v)
          × Fits k opts comp (0 + length (chunks h.parts)) w.buf wire
          × (v.out
              ≡ render k clock comp 0 [] h.parts
                ++ frame_at k clock comp
                    (0 + length (chunks h.parts))
                    ([] ++ chunks h.parts)
                    w.buf
                    wire
                    true)
    unfolding close flush_chunk
    close-terminal w given h b l =
        let n : ℕ = 0 + length (chunks h.parts) in
        let z : length (chunks h.parts) ≡ n = omega arith in
        let g : length given ≡ length (chunks h.parts) + length w.buf =
          ap length h.kept ∙ length-append (chunks h.parts) w.buf in
        let (wire, f) =
          Agreed→Carries k clock opts comp size total agreed n w.buf (omega arith) (omega arith) in
        let e : encode_wire k w.comp (take (length w.buf) w.buf) ≡ ok wire =
          ap (encode_wire k w.comp) (take_all w.buf)
          ∙ ap (λ t. encode_wire k t w.buf) h.comp_same
          ∙ f.encodes in
        let frame : Bytes = write_frame k.sum64 (
          chunk_args k w.comp w.offset w.hashed (take (length w.buf) w.buf) true wire
            (clock w.offset)) in
        let v : FramedBodyWriter = record w {
          offset = w.offset + length (take (length w.buf) w.buf);
          buf = drop (length w.buf) w.buf;
          hashed = w.hashed ++ take (length w.buf) w.buf;
          out = w.out ++ frame;
          closed = true;
        } in
        (
          v,
          wire,
          ap
                (λ t.
                  if t
                  then ok w
                  else flush_chunk k clock (record w { closed = true }) (length w.buf) true)
                h.going
              ∙ rw (flush_chunk, e) refl,
          f,
          ap (λ (t : Bytes). t ++ frame) h.out
              ∙ ap (λ (t : Bytes). render k clock comp 0 [] h.parts ++ t)
                  (ap
                      (λ q.
                        write_frame k.sum64
                          (chunk_args k w.comp w.offset w.hashed q true wire (clock w.offset)))
                      (take_all w.buf)
                    ∙ ap
                        (λ q.
                          write_frame k.sum64
                            (chunk_args k q w.offset w.hashed w.buf true wire (clock w.offset)))
                        h.comp_same
                    ∙ ap (λ q. frame_at k clock comp q w.hashed w.buf wire true) (h.offset ∙ z)
                    ∙ ap (λ q. frame_at k clock comp n q w.buf wire true) h.hashed),
        )

    new_writer-Wrote :
        is_empty comp ≡ false → Wrote k clock opts comp size total (new_writer comp size) []
    new_writer-Wrote f =
        let s : (size == 0) ≡ false = (let c = agreed.cut in ground arith) in
        record {
          parts = [];
          fit = unfold AllFit in tt;
          out = unfold render in refl;
          hashed = refl;
          offset = refl;
          kept = refl;
          comp_same = rw f refl;
          size_same = rw s refl;
          going = refl;
        }

    comp_named : is_empty comp ≡ false
    comp_named = elim agreed.carrier [ inl (e, h, i) ↦ ap is_empty e | inr (e, h) ↦ ap is_empty e ]

    -- Where both ends agree on codec and limits, the body has no more than `total` bytes, clocks are
    -- below 2^63 and the 128-bit hash has 16 bytes: every sequence of writes succeeds, and so does the
    -- close; the reader then reads exactly the bytes that were written, in order, ends with their hash
    -- token, and leaves what follows the body, whatever it is.
    pub write_all-read_all :
        (ps : List (Bool × Bytes)) (rest : Bytes)
        → IsHash k
        → ((o : ℕ) → clock o < 2 ^ 63)
        → length (all_bytes ps) ≤ total
        → (w : FramedBodyWriter) × (s : FramedBodyReader) × ((write_all k clock
                (new_writer comp size)
                ps
              >>= λ v. close k clock v)
            ≡ ok w)
          × (read_all k opts (length w.out + 1) (new_reader (w.out ++ rest)) ≡ ok s)
          × Ended k clock comp opts (new_reader (w.out ++ rest)) s [] (all_bytes ps) rest
    write_all-read_all ps rest hash ticks l =
        let cut = agreed.cut in
        let s : (size == 0) ≡ false = ground arith in
        let (v, e, h, b) =
          write_all-Wrote ps (new_writer comp size) [] (new_writer-Wrote comp_named) (omega arith)
            l in
        let (w, wire, e', f, o) = close-terminal v (all_bytes ps) h b l in
        let last =
          frame_at k clock comp (0 + length (chunks h.parts)) ([] ++ chunks h.parts) v.buf wire
            true in
        let n : length h.parts < length w.out + 1 = omega (
          arith,
          ap length o,
          length-append (render k clock comp 0 [] h.parts) last,
          length-render 0 [] h.parts,
        ) in
        let i : w.out ++ rest ≡ render k clock comp 0 [] h.parts ++ (last ++ rest) =
          ap (λ (t : Bytes). t ++ rest) o
          ∙ append_assoc (render k clock comp 0 [] h.parts) last rest in
        let (r, q, d) =
          read_all-render k clock comp opts hash ticks (length w.out + 1) 0 [] h.parts v.buf wire
            rest (new_reader (w.out ++ rest)) n h.fit f refl refl refl in
        let j : chunks h.parts ++ v.buf ≡ all_bytes ps = sym h.kept in
        (
          w,
          r,
          rw e e',
          ap (λ t. read_all k opts (length w.out + 1) (new_reader t)) i ∙ q,
          subst (λ t. Ended k clock comp opts (new_reader (w.out ++ rest)) r [] t rest) j d,
        )
