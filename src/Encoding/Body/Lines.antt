-- ===== src/Encoding/Body/Lines.antt =====
-- What the reader of internal/filexfer/encoding/body_frame.go takes off its input: lines and payloads.
use tx.Base.{
  ℕ, ◌+◌, ◌≤◌, ◌≡◌, refl, ap, ◌∙◌, false, [], ◌∷◌, ◌++◌, length, arith, length-append, ltb, ok,
  ◌==◌, take-append, inl, inr, ==-self,
}
use tx.Base.Int.{ℤ, pos}
use tx.Base.Bytes.{Bytes, cut-append}
use tx.Bufpool.{Growing, initial_bytes, new_growing, acquire, bucket_size, max_bucket}
use tx.Bufpool.Growth.{read_from-Filled}
use tx.Encoding.Frame.{line_feed}
use tx.Encoding.Frame.Text.{IsText, IsPrintable→Avoids}
use tx.Encoding.Body.{
  line_of, filled_wire, read_frame_line, max_frame_line_bytes, read_wire, or_buffer,
}
use tx.Ftcp.Items.Lines.{trim_line_terminator-append}
use mathlib.Core.List.{append-nil}

-- A line of text is read back without its line feed.
pub read_frame_line-text :
    (line rest : Bytes)
    → IsText 1000 line
    → read_frame_line (line ++ (line_feed ∷ rest)) ≡ ok (line, rest)
unfolding read_frame_line line_of
read_frame_line-text line rest (p, l) =
    ap (line_of (line ++ (line_feed ∷ rest)))
      (cut-append line_feed line rest (IsPrintable→Avoids line_feed line (omega arith) p))
    ∙ rw
        (
          line_of,
          short,
          trim_line_terminator-append line (IsPrintable→Avoids 13 line (omega arith) p),
        )
        refl
  where
    short : ltb max_frame_line_bytes (length line + 1) ≡ false
    short = ground arith

acquire-ok : (n : ℕ) → 1 ≤ n → n ≤ max_bucket → acquire n ≡ ok (bucket_size n)
unfolding acquire
acquire-ok n h k =
    let a : (n == 0) ≡ false = ground arith in
    let b : ltb max_bucket n ≡ false = ground arith in rw (a, b) refl

initial_bytes-range : (v : ℤ) → (1 ≤ initial_bytes v) × (initial_bytes v ≤ max_bucket)
unfolding initial_bytes
initial_bytes-range v = (ground arith, ground arith)

-- A new buffer is never refused.
pub new_growing-empty :
    (v : ℤ) → new_growing v ≡ ok (record { buf = []; capacity = bucket_size (initial_bytes v) })
unfolding new_growing
new_growing-empty v =
    let r = initial_bytes-range v in rw (acquire-ok (initial_bytes v) r.0 r.1) refl

filled_wire-all : (w : Bytes) → length w ≤ max_bucket → filled_wire (length w) w ≡ ok w
unfolding filled_wire or_buffer
filled_wire-all w h =
    let g : Growing = record {
      buf = [];
      capacity = bucket_size (initial_bytes (pos (length w)));
    } in
    elim (read_from-Filled (length w + 1) g (w ∷ []) (omega arith) (omega arith)) [
      | inr (e, m) ↦ absurd (omega (arith, m, length-append w []))
      | inl (r, e, f) ↦
          let b : r.buf ≡ w = f.bytes ∙ append-nil w in
          rw (new_growing-empty (pos (length w)), e, b, ==-self (length w)) refl
    ]

-- A payload that is all there and fits in the largest bucket is read whole.
pub read_wire-append :
    (w rest : Bytes) → length w ≤ max_bucket → read_wire (length w) (w ++ rest) ≡ ok w
unfolding read_wire
read_wire-append [] rest h = refl
read_wire-append (b ∷ w) rest h =
    let n : (length (b ∷ w) == 0) ≡ false = ground arith in
    rw n (
      ap (filled_wire (length (b ∷ w))) (take-append (length (b ∷ w)) (b ∷ w) rest refl)
      ∙ filled_wire-all (b ∷ w) h)
