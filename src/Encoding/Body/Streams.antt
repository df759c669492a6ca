-- ===== src/Encoding/Body/Streams.antt =====
-- A framed body of internal/filexfer/encoding/body_frame.go as its chunks: how it is written, and how
-- it is read frame after frame.
use tx.Base.{
  ℕ, zero, suc, ◌+◌, ◌≤◌, ◌<◌, ◌^◌, ◌≡◌, refl, sym, ap, ◌∙◌, subst, Bool, true, false, List, [],
  ◌∷◌, ◌++◌, ok, length, arith, length-append,
}
use tx.Base.Bytes.{Bytes}
use tx.Encoding.Hash.{format_xxh128_hash_token}
use tx.Encoding.Frame.{write_frame}
use tx.Encoding.Body.{Codecs, FramedBodyReader, FramedBodyReaderOpts, chunk_args, read_all}
use tx.Encoding.Body.Reader.{IsHash, Fits, read_next_frame-chunk}
use mathlib.Core.List.{append_assoc, append-nil}

-- The bytes of the chunks, each of which stands with its wire form.
abbrev pub chunks : List (Bytes × Bytes) → Bytes
chunks [] = []
chunks ((c, w) ∷ cs) = c ++ chunks cs

module _ (k : Codecs) (clock : ℕ → ℕ) (comp : Bytes) where
  abbrev pub frame_at : ℕ → Bytes → Bytes → Bytes → Bool → Bytes
  frame_at o hashed c w terminal =
      write_frame k.sum64 (chunk_args k comp o hashed c terminal w (clock o))

  -- The frames that are not the last.
  unfoldable pub render : ℕ → Bytes → List (Bytes × Bytes) → Bytes
  render o hashed [] = []
  render o hashed ((c, w) ∷ cs) =
      frame_at o hashed c w false ++ render (o + length c) (hashed ++ c) cs

  pub render-append :
      (o : ℕ) (hashed : Bytes) (cs : List (Bytes × Bytes)) (c w : Bytes)
      → render o hashed (cs ++ ((c, w) ∷ []))
        ≡ render o hashed cs ++ frame_at (o + length (chunks cs)) (hashed ++ chunks cs) c w false
  unfolding render
  render-append o hashed [] c w =
      let e : o ≡ o + 0 = omega arith in
      append-nil (frame_at o hashed c w false)
      ∙ ap (λ n. frame_at n hashed c w false) e
      ∙ ap (λ t. frame_at (o + 0) t c w false) (sym (append-nil hashed))
  render-append o hashed ((d, v) ∷ cs) c w =
      let e : o + length d + length (chunks cs) ≡ o + length (d ++ chunks cs) =
        omega (arith, length-append d (chunks cs)) in
      ap (λ (t : Bytes). frame_at o hashed d v false ++ t)
        (render-append (o + length d) (hashed ++ d) cs c w
          ∙ ap (λ (t : Bytes). render (o + length d) (hashed ++ d) cs ++ t)
              (ap (λ n. frame_at n ((hashed ++ d) ++ chunks cs) c w false) e
                ∙ ap (λ t. frame_at (o + length (d ++ chunks cs)) t c w false)
                    (append_assoc hashed d (chunks cs))))
      ∙ sym (append_assoc (frame_at o hashed d v false) (render (o + length d) (hashed ++ d) cs) _)

  module _ (opts : FramedBodyReaderOpts) where
    -- Every chunk fits at its offset, and is not empty.
    unfoldable pub AllFit : ℕ → List (Bytes × Bytes) → Type 0
    AllFit o [] = Unit {0}
    AllFit o ((c, w) ∷ cs) = Fits k opts comp o c w × (1 ≤ length c) × AllFit (o + length c) cs

    pub AllFit-append :
        (o : ℕ) (cs : List (Bytes × Bytes)) (c w : Bytes)
        → AllFit o cs
        → Fits k opts comp (o + length (chunks cs)) c w
        → 1 ≤ length c
        → AllFit o (cs ++ ((c, w) ∷ []))
    unfolding AllFit
    AllFit-append o [] c w h f l =
        (let e : o + 0 ≡ o = omega arith in (subst (λ n. Fits k opts comp n c w) e f, l, tt))
    AllFit-append o ((d, v) ∷ cs) c w (p, q, h) f l =
        let e : o + length (d ++ chunks cs) ≡ o + length d + length (chunks cs) =
          omega (arith, length-append d (chunks cs)) in
        (p, q, AllFit-append (o + length d) cs c w h (subst (λ n. Fits k opts comp n c w) e f) l)

    -- The reader at the end of a body.
    pub record Ended (r s : FramedBodyReader) (hashed body rest : Bytes) : Type 0 where
      pub bytes : s.buf ≡ r.buf ++ body
      pub left : s.input ≡ rest
      pub ended : s.done ≡ true
      pub token : s.file_hash_token ≡ format_xxh128_hash_token (k.sum128 (hashed ++ body))

    module _ (hash : IsHash k) (ticks : (o : ℕ) → clock o < 2 ^ 63) where
      -- A body is read to its chunks, and what follows the terminal frame is left.
      pub read_all-render :
          (fuel : ℕ) (o : ℕ) (hashed : Bytes) (cs : List (Bytes × Bytes)) (c w rest : Bytes)
          (r : FramedBodyReader)
          → length cs < fuel
          → AllFit o cs
          → Fits k opts comp (o + length (chunks cs)) c w
          → r.offset ≡ o
          → r.hashed ≡ hashed
          → r.done ≡ false
          → (s : FramedBodyReader) × (read_all k opts fuel (record r {
            input =
                render o hashed cs
                ++ (frame_at (o + length (chunks cs)) (hashed ++ chunks cs) c w true ++ rest);
          })
              ≡ ok s)
            × Ended r s hashed (chunks cs ++ c) rest
      unfolding read_all render AllFit
      read_all-render zero o hashed cs c w rest r l h f at seen going = absurd (omega arith)
      read_all-render (suc fuel) o hashed [] c w rest r l h f at seen going =
          let e : o + 0 ≡ o = omega arith in
          let step =
            read_next_frame-chunk k opts comp (o + 0) (clock (o + 0)) (hashed ++ []) c w true hash
              (ticks (o + 0)) f r rest (at ∙ sym e) (seen ∙ sym (append-nil hashed))
              (λ n. absurd cc) in
          let s : FramedBodyReader = record r {
            input = rest;
            hashed = r.hashed ++ c;
            buf = r.buf ++ c;
            offset = r.offset + length c;
            frame_idx = suc r.frame_idx;
            done = true;
            file_hash_token = format_xxh128_hash_token (k.sum128 ((hashed ++ []) ++ c));
          } in
          (
            s,
            rw step refl,
            record {
              bytes = refl;
              left = refl;
              ended = refl;
              token = ap (λ t. format_xxh128_hash_token (k.sum128 (t ++ c))) (append-nil hashed);
            },
          )
      read_all-render (suc fuel) o hashed ((d, v) ∷ cs) c w rest r l (p, q, h) f at seen going =
          let m : o + length (d ++ chunks cs) ≡ o + length d + length (chunks cs) =
            omega (arith, length-append d (chunks cs)) in
          let f' = subst (λ n. Fits k opts comp n c w) m f in
          let last =
            frame_at (o + length d + length (chunks cs)) ((hashed ++ d) ++ chunks cs) c w true in
          let more = render (o + length d) (hashed ++ d) cs ++ (last ++ rest) in
          let i : (frame_at o hashed d v false ++ render (o + length d) (hashed ++ d) cs)
                ++ (frame_at (o + length (d ++ chunks cs)) (hashed ++ (d ++ chunks cs)) c w true
                    ++ rest)
              ≡ frame_at o hashed d v false ++ more =
            append_assoc (frame_at o hashed d v false) (render (o + length d) (hashed ++ d) cs) _
            ∙ ap
                (λ (t : Bytes).
                  frame_at o hashed d v false
                  ++ (render (o + length d) (hashed ++ d) cs ++ (t ++ rest)))
                (ap (λ n. frame_at n (hashed ++ (d ++ chunks cs)) c w true) m
                  ∙ ap (λ t. frame_at (o + length d + length (chunks cs)) t c w true)
                      (sym (append_assoc hashed d (chunks cs)))) in
          let step =
            read_next_frame-chunk k opts comp o (clock o) hashed d v false hash (ticks o) p r more
              at seen (λ n. q) in
          let r' : FramedBodyReader = record r {
            input = more;
            hashed = r.hashed ++ d;
            buf = r.buf ++ d;
            offset = r.offset + length d;
            frame_idx = suc r.frame_idx;
            done = false;
          } in
          let (s, e, g) =
            read_all-render fuel (o + length d) (hashed ++ d) cs c w rest r' (omega arith) h f'
              (ap (λ n. n + length d) at) (ap (λ (t : Bytes). t ++ d) seen) refl in
          (
            s,
            ap (λ (t : Bytes). read_all k opts (suc fuel) (record r { input = t })) i
                ∙ rw (read_all, step, going) e,
            record {
              bytes =
                  g.bytes
                  ∙ append_assoc r.buf d (chunks cs ++ c)
                  ∙ ap (λ (t : Bytes). r.buf ++ t) (sym (append_assoc d (chunks cs) c));
              left = g.left;
              ended = g.ended;
              token =
                  g.token
                  ∙ ap (λ t. format_xxh128_hash_token (k.sum128 t))
                      (append_assoc hashed d (chunks cs ++ c)
                        ∙ ap (λ (t : Bytes). hashed ++ t) (sym (append_assoc d (chunks cs) c)));
            },
          )
