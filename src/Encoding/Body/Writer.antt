-- ===== src/Encoding/Body/Writer.antt =====
-- FramedBodyWriter of internal/filexfer/encoding/body_frame.go: what its calls write.
use tx.Base.{
  ℕ, zero, suc, ◌+◌, ◌≤◌, ◌<◌, ◌≡◌, refl, sym, ap, ◌∙◌, subst, Bool, false, ◌&&◌, not, List, [],
  ◌∷◌, ◌++◌, ok, ◌>>◌, guard, length, arith, length-append, take, drop, take-append-drop,
  length-take, length-drop, leb, ltb, Bool-cases, inl, inr,
}
use tx.Base.Bytes.{Bytes}
use tx.Encoding.Frame.{write_frame}
use tx.Encoding.Body.{
  Codecs, FramedBodyWriter, FramedBodyReaderOpts, chunk_args, encode_wire, flush_chunk, flush_full,
  write_buffered, write, closed_writer,
}
use tx.Encoding.Body.Reader.{Fits}
use tx.Encoding.Body.Streams.{chunks, frame_at, render, render-append, AllFit, AllFit-append}
use mathlib.Core.List.{append_assoc, append-nil}

module _ (k : Codecs) (clock : ℕ → ℕ) (opts : FramedBodyReaderOpts) (comp : Bytes)
    (size total : ℕ) where
  -- Every chunk that the writer may cut is encoded so that the reader takes it.
  abbrev pub Carries : Type 0
  Carries =
      (o : ℕ) (c : Bytes)
      → length c ≤ size
      → o + length c ≤ total
      → (w : Bytes) × Fits k opts comp o c w

  -- What a writer has written and kept of the bytes it was given.
  pub record Wrote (w : FramedBodyWriter) (given : Bytes) : Type 0 where
    pub parts : List (Bytes × Bytes)
    pub fit : AllFit k clock comp opts 0 parts
    pub out : w.out ≡ render k clock comp 0 [] parts
    pub hashed : w.hashed ≡ chunks parts
    pub offset : w.offset ≡ length (chunks parts)
    pub kept : given ≡ chunks parts ++ w.buf
    pub comp_same : w.comp ≡ comp
    pub size_same : w.chunk_size ≡ size
    pub going : w.closed ≡ false

  chunks-append :
      (cs : List (Bytes × Bytes)) (c v : Bytes) → chunks (cs ++ ((c, v) ∷ [])) ≡ chunks cs ++ c
  chunks-append [] c v = append-nil c
  chunks-append ((d, u) ∷ cs) c v =
      ap (λ (t : Bytes). d ++ t) (chunks-append cs c v) ∙ sym (append_assoc d (chunks cs) c)

  module _ (carries : Carries) where
    flush_chunk-Wrote :
        (w : FramedBodyWriter) (given : Bytes) (n : ℕ)
        → Wrote w given
        → 1 ≤ n
        → n ≤ length w.buf
        → n ≤ size
        → length given ≤ total
        → (v : FramedBodyWriter) × (flush_chunk k clock w n false ≡ ok v)
          × Wrote v given
          × (v.buf ≡ drop n w.buf)
    unfolding flush_chunk
    flush_chunk-Wrote w given n h a b c d =
        let chunk = take n w.buf in
        let l : length chunk ≡ n = omega (arith, length-take n w.buf) in
        let g : length given ≡ length (chunks h.parts) + length w.buf =
          ap length h.kept ∙ length-append (chunks h.parts) w.buf in
        let (wire, f) = carries (length (chunks h.parts)) chunk (omega arith) (omega arith) in
        let e : encode_wire k w.comp chunk ≡ ok wire =
          ap (λ t. encode_wire k t chunk) h.comp_same ∙ f.encodes in
        let z : length (chunks h.parts) ≡ 0 + length (chunks h.parts) = omega arith in
        let ca = chunks-append h.parts chunk wire in
        let frame =
          write_frame k.sum64
            (chunk_args k w.comp w.offset w.hashed chunk false wire (clock w.offset)) in
        let v : FramedBodyWriter = record w {
          offset = w.offset + length chunk;
          buf = drop n w.buf;
          hashed = w.hashed ++ chunk;
          out = w.out ++ frame;
        } in
        (
          v,
          rw e refl,
          record {
            parts = h.parts ++ ((chunk, wire) ∷ []);
            fit =
                AllFit-append k clock comp opts 0 h.parts chunk wire h.fit
                  (subst (λ q. Fits k opts comp q chunk wire) z f) (omega arith);
            out =
                ap (λ (t : Bytes). t ++ frame) h.out
                ∙ ap (λ (t : Bytes). render k clock comp 0 [] h.parts ++ t)
                    (ap
                        (λ q.
                          write_frame k.sum64
                            (chunk_args k q w.offset w.hashed chunk false wire (clock w.offset)))
                        h.comp_same
                      ∙ ap (λ q. frame_at k clock comp q w.hashed chunk wire false) (h.offset ∙ z)
                      ∙ ap
                          (λ q.
                            frame_at k clock comp (0 + length (chunks h.parts)) q chunk wire false)
                          h.hashed)
                ∙ sym (render-append k clock comp 0 [] h.parts chunk wire);
            hashed = ap (λ (t : Bytes). t ++ chunk) h.hashed ∙ sym ca;
            offset = omega (arith, h.offset, ap length ca, length-append (chunks h.parts) chunk);
            kept =
                h.kept
                ∙ ap (λ (t : Bytes). chunks h.parts ++ t) (sym (take-append-drop n w.buf))
                ∙ sym (append_assoc (chunks h.parts) chunk (drop n w.buf))
                ∙ ap (λ (t : Bytes). t ++ drop n w.buf) (sym ca);
            comp_same = h.comp_same;
            size_same = h.size_same;
            going = h.going;
          },
          refl,
        )

    module _ (cut : 1 ≤ size) where
      flush_full-Wrote :
          (fuel : ℕ) (w : FramedBodyWriter) (given : Bytes)
          → Wrote w given
          → length w.buf ≤ fuel
          → length given ≤ total
          → (v : FramedBodyWriter) × (flush_full k clock fuel w ≡ ok v)
            × Wrote v given
            × (length v.buf < size)
      unfolding flush_full
      flush_full-Wrote zero w given h l d = (w, refl, h, omega arith)
      flush_full-Wrote (suc fuel) w given h l d =
          elim (Bool-cases (leb w.chunk_size (length w.buf))) [
            | inr b ↦ (w, rw (flush_full, b) refl, h, ground (arith, h.size_same))
            | inl b ↦
                let q = h.size_same in
                let (v, e, g, c) =
                  flush_chunk-Wrote w given w.chunk_size h (omega arith) (ground arith)
                    (omega arith) d in
                let (u, e', g', c') =
                  flush_full-Wrote fuel v given g
                    (omega (arith, ap length c, length-drop w.chunk_size w.buf)) d in
                (u, rw (flush_full, b, e, e') refl, g', c')
          ]

      write_buffered-Wrote :
          (due : Bool) (w : FramedBodyWriter) (given p : Bytes)
          → Wrote w given
          → length (given ++ p) ≤ total
          → (v : FramedBodyWriter) × (write_buffered k clock due w p ≡ ok v)
            × Wrote v (given ++ p)
            × (length v.buf < size)
      unfolding write_buffered
      write_buffered-Wrote due w given p h l =
          let w' : FramedBodyWriter = record w { buf = w.buf ++ p } in
          let h' : Wrote w' (given ++ p) = record {
            parts = h.parts;
            fit = h.fit;
            out = h.out;
            hashed = h.hashed;
            offset = h.offset;
            kept = ap (λ (t : Bytes). t ++ p) h.kept ∙ append_assoc (chunks h.parts) w.buf p;
            comp_same = h.comp_same;
            size_same = h.size_same;
            going = h.going;
          } in
          let (v, e, g, c) =
            flush_full-Wrote (length (w.buf ++ p)) w' (given ++ p) h' (omega arith) l in
          elim (Bool-cases (due && ltb 0 (length v.buf))) [
            | inr b ↦ (v, rw (e, b) refl, g, c)
            | inl b ↦
                let b1 : 1 ≤ length v.buf = ground arith in
                let (u, e', g', c') =
                  flush_chunk-Wrote v (given ++ p) (length v.buf) g b1 (omega arith) (omega arith)
                    l in
                (
                  u,
                  rw (e, b, e') refl,
                  g',
                  omega (arith, ap length c', length-drop (length v.buf) v.buf),
                )
          ]

      -- A write keeps what it is given: part in frames, and less than a chunk in the buffer.
      pub write-Wrote :
          (due : Bool) (w : FramedBodyWriter) (given p : Bytes)
          → Wrote w given
          → length (given ++ p) ≤ total
          → (v : FramedBodyWriter) × (write k clock due w p ≡ ok v)
            × Wrote v (given ++ p)
            × (length v.buf < size)
      unfolding write
      write-Wrote due w given p h l =
          let (v, e, g, c) = write_buffered-Wrote due w given p h l in
          (
            v,
            ap (λ b. guard (not b) closed_writer >> write_buffered k clock due w p) h.going ∙ e,
            g,
            c,
          )
