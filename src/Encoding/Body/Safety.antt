-- ===== src/Encoding/Body/Safety.antt =====
-- What FramedBodyReader of internal/filexfer/encoding/body_frame.go has checked of a body that it
-- accepts, whatever its input is.
use tx.Base.{
  ℕ, zero, suc, ◌+◌, ◌≤◌, ◌≡◌, refl, sym, ap, ◌∙◌, subst, Bool, true, false, ◌&&◌, ◌||◌, some, ◌++◌,
  ok, ◌>>=◌, ◌>>◌, guard, or_err, length, arith, length-append, ◌==◌, take, drop, Bool-cases,
  Result-cases, Option-cases, inl, inr, ◌⊎◌, ==→eq,
}
use tx.Base.Int.{ℤ, pos, negsuc, leb_ℤ, sub_ℕ, pos_part}
use tx.Base.Bytes.{Bytes}
use tx.Encoding.Hash.{format_xxh128_hash_token}
use tx.Encoding.Frame.Parse.{FileFrameMeta, FrameTrailer}
use tx.Encoding.Body.{
  Codecs, FramedBodyReader, FramedBodyReaderOpts, read_next_frame, read_all, check_header,
  check_meta, read_wire, filled_wire, decode_wire, decompress_zstd_n, accept_next, check_trailer,
  read_frame_line, equal_fold, new_reader, header_hash_mismatch, missing_next,
}

-- The cumulative limit, if there is one.
abbrev pub Within : FramedBodyReaderOpts → ℕ → Type 0
Within opts n = (opts.max_logical_bytes ≡ 0) ⊎ (n ≤ opts.max_logical_bytes)

below_limit : (z : ℤ) (m o : ℕ) → leb_ℤ z (sub_ℕ m o) ≡ true → o ≤ m → o + pos_part z ≤ m
below_limit (pos n) m o h l = ground arith
below_limit (negsuc n) m o h l = omega arith

check_meta-limit :
    (opts : FramedBodyReaderOpts) (r : FramedBodyReader) (m : FileFrameMeta)
    → check_meta opts r m ≡ ok tt
    → Within opts r.offset
    → Within opts (r.offset + pos_part m.size)
unfolding check_meta
check_meta-limit opts r m e w =
    elim (Bool-cases
      (opts.max_logical_bytes == 0 || leb_ℤ m.size (sub_ℕ opts.max_logical_bytes r.offset))) [
        | inl b ↦ elim w [
          | inl q ↦ inl q
          | inr q ↦ elim (Bool-cases (opts.max_logical_bytes == 0)) [
            | inl y ↦ inl (==→eq opts.max_logical_bytes 0 y)
            | inr y ↦
                inr (below_limit m.size opts.max_logical_bytes r.offset (ground (arith, b, y)) q)
          ]
        ]
        | inr b ↦ absurd (ground (arith, e, b))
      ]

decode_wire-length :
    (k : Codecs) (comp wire : Bytes) (n w : ℕ) (c : Bytes)
    → decode_wire k comp wire n w ≡ ok c
    → length wire ≡ w
    → length c ≡ n
unfolding decode_wire decompress_zstd_n
decode_wire-length k comp wire n w c e l = ground (arith, e, l)

filled_wire-length : (n : ℕ) (piece w : Bytes) → filled_wire n piece ≡ ok w → length w ≡ n
unfolding filled_wire
filled_wire-length n piece w e = ground (arith, e)

read_wire-length : (n : ℕ) (input w : Bytes) → read_wire n input ≡ ok w → length w ≡ n
unfolding read_wire
read_wire-length n input w e = ground (arith, filled_wire-length n (take n input) w)

-- What the end of a frame leaves as it was, and what it has compared if it was the terminal one.
record Accepted (k : Codecs) (r s : FramedBodyReader) : Type 0 where
  pub hashed_same : s.hashed ≡ r.hashed
  pub buf_same : s.buf ≡ r.buf
  pub offset_same : s.offset ≡ r.offset
  pub compared :
      s.done ≡ true
      → (r.done ≡ true)
        ⊎ (equal_fold s.file_hash_token (format_xxh128_hash_token (k.sum128 s.hashed)) ≡ true)

accept_next-Accepted :
    (k : Codecs) (r s : FramedBodyReader) (t : FrameTrailer) (next : ℤ)
    → accept_next k r t next ≡ ok s
    → Accepted k r s
unfolding accept_next
accept_next-Accepted k r s t next e = elim (Bool-cases (leb_ℤ next (pos 0) && leb_ℤ (pos 0) next)) [
  | inl b ↦ terminal b
  | inr b ↦ continued b
]
  where
    matches : Bool
    matches = equal_fold t.file_hash_token (format_xxh128_hash_token (k.sum128 r.hashed))

    ended : FramedBodyReader
    ended = record r {
      file_hash_token = t.file_hash_token;
      done = true;
      frame_idx = suc r.frame_idx;
    }

    terminal : leb_ℤ next (pos 0) && leb_ℤ (pos 0) next ≡ true → Accepted k r s
    terminal b =
        let m : matches ≡ true = ground (arith, e, b, matches) in
        let q : ended ≡ s = ground (arith, e, b, ended) in
        subst (Accepted k r) q (record {
          hashed_same = refl;
          buf_same = refl;
          offset_same = refl;
          compared = λ d. inr m;
        })

    continued : leb_ℤ next (pos 0) && leb_ℤ (pos 0) next ≡ false → Accepted k r s
    continued b =
        let q : record r { frame_idx = suc r.frame_idx } ≡ s = ground (arith, e, b) in
        subst (Accepted k r) q (record {
          hashed_same = refl;
          buf_same = refl;
          offset_same = refl;
          compared = λ d. inl d;
        })

-- The bytes that have been handed on are those hashed, the offset is their number, and they are within
-- the limit.
pub record IsTracked (k : Codecs) (opts : FramedBodyReaderOpts) (r : FramedBodyReader)
    : Type 0 where
  pub hashed : r.hashed ≡ r.buf
  pub counted : r.offset ≡ length r.buf
  pub limited : Within opts r.offset
  pub compared :
      r.done ≡ true
      → equal_fold r.file_hash_token (format_xxh128_hash_token (k.sum128 r.buf)) ≡ true

check_header-limit :
    (opts : FramedBodyReaderOpts) (r : FramedBodyReader) (line : Bytes) (m : FileFrameMeta)
    → check_header opts r line ≡ ok m
    → Within opts r.offset
    → Within opts (r.offset + pos_part m.size)
unfolding check_header
check_header-limit opts r line m e w =
    let c : check_meta opts r m ≡ ok tt = ground (arith, e) in check_meta-limit opts r m c w

-- The last step of a frame.
tracked :
    (k : Codecs) (opts : FramedBodyReaderOpts) (r s : FramedBodyReader) (m : FileFrameMeta)
    (chunk rest : Bytes) (t : FrameTrailer) (next : ℤ)
    → accept_next k
        (record r {
          input = rest;
          hashed = r.hashed ++ chunk;
          buf = r.buf ++ chunk;
          offset = r.offset + pos_part m.size;
        })
        t
        next
      ≡ ok s
    → length chunk ≡ pos_part m.size
    → Within opts (r.offset + pos_part m.size)
    → r.done ≡ false
    → IsTracked k opts r
    → IsTracked k opts s
tracked k opts r s m chunk rest t next e l w going i =
    let q : FramedBodyReader = record r {
      input = rest;
      hashed = r.hashed ++ chunk;
      buf = r.buf ++ chunk;
      offset = r.offset + pos_part m.size;
    } in
    let a : Accepted k q s = accept_next-Accepted k q s t next e in
    let h : s.hashed ≡ s.buf =
      a.hashed_same ∙ ap (λ (b : Bytes). b ++ chunk) i.hashed ∙ sym a.buf_same in
    record {
      hashed = h;
      counted =
          omega
            (arith, a.offset_same, i.counted, l, length-append r.buf chunk, ap length a.buf_same);
      limited = subst (Within opts) (sym a.offset_same) w;
      compared = λ d. elim (a.compared d) [
        | inl f ↦ absurd cc
        | inr f ↦
            subst (λ b. equal_fold s.file_hash_token (format_xxh128_hash_token (k.sum128 b)) ≡ true)
              h f
      ];
    }

-- From the payload on.
decoded :
    (k : Codecs) (opts : FramedBodyReaderOpts) (r s : FramedBodyReader) (h : Bytes × Bytes)
    (m : FileFrameMeta) (wire : Bytes)
    → length wire ≡ pos_part m.wire_size
    → Within opts (r.offset + pos_part m.size)
    → (decode_wire k m.comp wire (pos_part m.size) (pos_part m.wire_size) >>= λ chunk.
        (guard
            (equal_fold m.hash_token (format_xxh128_hash_token (k.sum128 chunk)))
            header_hash_mismatch
          >> (read_frame_line (drop (pos_part m.wire_size) h.1) >>= λ l.
              (check_trailer k h.0 wire l.0 >>= λ t.
              (or_err t.next missing_next >>= λ next.
              accept_next k
                (record r {
                  input = l.1;
                  hashed = r.hashed ++ chunk;
                  buf = r.buf ++ chunk;
                  offset = r.offset + pos_part m.size;
                })
                t
                next)))))
      ≡ ok s
    → r.done ≡ false
    → IsTracked k opts r
    → IsTracked k opts s
decoded k opts r s h m wire n w e going i =
    elim (Result-cases (decode_wire k m.comp wire (pos_part m.size) (pos_part m.wire_size))) [
      | inr (x, q) ↦ absurd (cc (rw q at e))
      | inl (chunk, q) ↦
          let e1 = (rw q at e) in
          elim (Bool-cases (equal_fold m.hash_token (format_xxh128_hash_token (k.sum128 chunk)))) [
            | inr b ↦ absurd (cc (rw b at e1))
            | inl b ↦
                let e2 = (rw b at e1) in
                elim (Result-cases (read_frame_line (drop (pos_part m.wire_size) h.1))) [
                  | inr (x, q3) ↦ absurd (cc (rw q3 at e2))
                  | inl (l, q3) ↦
                      let e3 = (rw q3 at e2) in
                      elim (Result-cases (check_trailer k h.0 wire l.0)) [
                        | inr (x, q4) ↦ absurd (cc (rw q4 at e3))
                        | inl (t, q4) ↦
                            let e4 = (rw q4 at e3) in
                            elim (Option-cases t.next) [
                              | inl q5 ↦ absurd (cc (rw q5 at e4))
                              | inr (next, q5) ↦
                                  tracked k opts r s m chunk l.1 (record t { next = some next })
                                    next (rw q5 at e4)
                                    (decode_wire-length k m.comp wire _ _ chunk q n) w going i
                            ]
                      ]
                ]
          ]
    ]

read_next_frame-IsTracked :
    (k : Codecs) (opts : FramedBodyReaderOpts) (r s : FramedBodyReader)
    → read_next_frame k opts r ≡ ok s
    → r.done ≡ false
    → IsTracked k opts r
    → IsTracked k opts s
unfolding read_next_frame
read_next_frame-IsTracked k opts r s e going i = elim (Result-cases (read_frame_line r.input)) [
  | inr (x, q) ↦ absurd (cc (rw q at e))
  | inl (h, q) ↦
      let e1 = (rw q at e) in
      elim (Result-cases (check_header opts r h.0)) [
        | inr (x, q1) ↦ absurd (cc (rw q1 at e1))
        | inl (m, q1) ↦
            let e2 = (rw q1 at e1) in
            elim (Result-cases (read_wire (pos_part m.wire_size) h.1)) [
              | inr (x, q2) ↦ absurd (cc (rw q2 at e2))
              | inl (wire, q2) ↦
                  let e3 = (rw q2 at e2) in
                  decoded k opts r s h m wire (read_wire-length _ h.1 wire q2)
                    (check_header-limit opts r h.0 m q1 i.limited) e3 going i
            ]
      ]
]

new_reader-IsTracked :
    (k : Codecs) (opts : FramedBodyReaderOpts) (input : Bytes) → IsTracked k opts (new_reader input)
new_reader-IsTracked k opts input = record {
  hashed = refl;
  counted = refl;
  limited = inr (omega arith);
  compared = λ d. absurd cc;
}

read_all-IsTracked :
    (k : Codecs) (opts : FramedBodyReaderOpts) (fuel : ℕ) (r s : FramedBodyReader)
    → read_all k opts fuel r ≡ ok s
    → r.done ≡ false
    → IsTracked k opts r
    → IsTracked k opts s × (s.done ≡ true)
unfolding read_all
read_all-IsTracked k opts zero r s e going i = absurd cc
read_all-IsTracked k opts (suc fuel) r s e going i =
    elim (Result-cases (read_next_frame k opts r)) [
      | inr (x, q) ↦ absurd (cc (rw q at e))
      | inl (v, q) ↦
          let e1 = (rw q at e) in
          let t = read_next_frame-IsTracked k opts r v q going i in
          elim (Bool-cases v.done) [
            | inl d ↦
                let p : ok v ≡ ok s = (rw d at e1) in
                let z : v ≡ s = cc in subst (λ y. IsTracked k opts y × (y.done ≡ true)) z (t, d)
            | inr d ↦ read_all-IsTracked k opts fuel v s (rw d at e1) d t
          ]
    ]

-- Whatever bytes the peer sends: a body that the reader accepts has the hash that its terminal frame
-- gives, up to case, and is within the limit on a body's bytes, where one is set.
pub read_all-hash :
    (k : Codecs) (opts : FramedBodyReaderOpts) (fuel : ℕ) (input : Bytes) (s : FramedBodyReader)
    → read_all k opts fuel (new_reader input) ≡ ok s
    → (equal_fold s.file_hash_token (format_xxh128_hash_token (k.sum128 s.buf)) ≡ true)
      × Within opts (length s.buf)
read_all-hash k opts fuel input s e =
    let (t, d) =
      read_all-IsTracked k opts fuel (new_reader input) s e refl
        (new_reader-IsTracked k opts input) in
    (t.compared d, subst (Within opts) t.counted t.limited)
