-- ===== src/Aead/Records/RoundTrip.antt =====
-- session.go: a message that was sealed as records is read back, and what follows it is left.
use tx.Base.{
  ℕ, zero, suc, ◌+◌, ◌*◌, ◌/◌, ◌%◌, ◌≤◌, ◌<◌, ◌≡◌, refl, sym, ap, ◌∙◌, subst, Bool, true, false,
  List, [], ◌∷◌, ◌++◌, Result, ok, err, ◌>>=◌, >>=-eq-ok, ltb, length, take, drop, All, arith,
  Bool-cases, inl, inr, length-append, take-append, drop-append,
}
use tx.Base.Bytes.{Bytes}
use tx.Aead.{Aeads, RecordCipher, CipherError, set_nonce, seal}
use tx.Aead.Steps.{Inverts, seal-parts, open_record-seal}
use tx.Aead.Records.{
  SessionError, record_data, record_end, max_record_ciphertext, aead_tag_size, record_header,
  or_cipher, seal_payload, read_body, read_record, read_message,
}
use mathlib.Core.List.{append_assoc}

-- What an AEAD with a tag of 16 bytes documents of the length of a sealed text.
abbrev pub Expands : {K : Type 0} → Aeads K → Type 0
Expands {K} a =
    (k : K) (nonce plaintext ad : Bytes)
    → length (a.seal_with k nonce plaintext ad) ≡ length plaintext + aead_tag_size

or_cipher-eq-ok : {A : Type 0} (m : Result CipherError A) (x : A) → or_cipher m ≡ ok x → m ≡ ok x
or_cipher-eq-ok (ok y) x h = (let q : y ≡ x = cc in ap ok q)
or_cipher-eq-ok (err e) x h = absurd (cc)

number-record_header : (n : ℕ) → n ≤ max_record_ciphertext → n / 256 % 256 * 256 + n % 256 ≡ n
number-record_header n h = omega arith

module _ {K : Type 0} (a : Aeads K) where
  -- The records of a message: data records, and the END record that may carry a payload too.
  abbrev pub seal_message :
      RecordCipher K → List Bytes → Bytes → Result SessionError (Bytes × RecordCipher K)
  seal_message c [] last = seal_payload a c record_end last
  seal_message c (p ∷ ps) last = seal_payload a c record_data p >>= λ s.
      (seal_message s.1 ps last >>= λ t. ok (s.0 ++ t.0, t.1))

  abbrev pub message : List Bytes → Bytes → Bytes
  message [] last = last
  message (p ∷ ps) last = p ++ message ps last

  seal_payload-parts :
      (c : RecordCipher K) (kind : ℕ) (p : Bytes) (r : Bytes × RecordCipher K)
      → seal_payload a c kind p ≡ ok r
      → (length p + aead_tag_size ≤ max_record_ciphertext)
        × (s : Bytes × RecordCipher K) × (seal a c p (record_header (length p + aead_tag_size) kind)
            ≡ ok s)
        × ((record_header (length p + aead_tag_size) kind ++ s.0, s.1) ≡ r)
  unfolding seal_payload
  seal_payload-parts c kind p r h =
      let n = length p + aead_tag_size in
      elim (Bool-cases (ltb max_record_ciphertext (length p + aead_tag_size))) [
        | inl e ↦ absurd (let k : err _ ≡ ok r = (rw e at h) in cc)
        | inr e ↦
            let k : (or_cipher (seal a c p (record_header n kind)) >>= λ s.
            ok (record_header n kind ++ s.0, s.1))
                ≡ ok r =
              (rw e at h) in
            let (s, f, g) = >>=-eq-ok (or_cipher (seal a c p (record_header n kind))) _ r k in
            (ground arith, s, or_cipher-eq-ok _ s f, cc)
      ]

  read_body-sealed :
      Inverts a
      → Expands a
      → (c : RecordCipher K) (kind : ℕ) (p hdr rest : Bytes) (s : Bytes × RecordCipher K)
      → seal a c p hdr ≡ ok s
      → read_body a c (length p + aead_tag_size) kind hdr (s.0 ++ rest) ≡ ok (kind, p, s.1, rest)
  unfolding read_body
  read_body-sealed v x c kind p hdr rest s h =
      let (u, f, w) = seal-parts a c p hdr s h in
      let m : length s.0 ≡ length p + aead_tag_size =
        ap length (sym w) ∙ x c.aead (set_nonce c.alg c.n) p hdr in
      let t : take (length p + aead_tag_size) (s.0 ++ rest) ≡ s.0 =
        take-append (length p + aead_tag_size) s.0 rest (sym m) in
      let d : drop (length p + aead_tag_size) (s.0 ++ rest) ≡ rest =
        drop-append (length p + aead_tag_size) s.0 rest (sym m) in
      let b : ltb (length p + aead_tag_size) aead_tag_size ≡ false = ground arith in
      let l : ltb (length (s.0 ++ rest)) (length p + aead_tag_size) ≡ false =
        ground (arith, length-append s.0 rest, m) in
      let o = open_record-seal a v c p hdr s h in rw (b, l, t, o, d) refl

  read_record-sealed :
      Inverts a
      → Expands a
      → (c : RecordCipher K) (start : Bool) (kind : ℕ) (p rest : Bytes) (r : Bytes × RecordCipher K)
      → seal_payload a c kind p ≡ ok r
      → read_record a c start (r.0 ++ rest) ≡ ok (kind, p, r.1, rest)
  read_record-sealed v x c start kind p rest r h =
      let n = length p + aead_tag_size in
      let (b, s, e, q) = seal_payload-parts c kind p r h in
      subst
        (λ (r : Bytes × RecordCipher K).
          read_record a c start (r.0 ++ rest) ≡ ok (kind, p, r.1, rest))
        q
        (unfold read_record in
          ap (λ m. read_body a c m kind (record_header n kind) (s.0 ++ rest))
            (number-record_header n b)
          ∙ read_body-sealed v x c kind p (record_header n kind) rest s e)

  read_message-data :
      (fuel : ℕ) (c : RecordCipher K) (start : Bool) (p input rest : Bytes) (d : RecordCipher K)
      → read_record a c start input ≡ ok (record_data, p, d, rest)
      → 1 ≤ length p
      → read_message a (suc fuel) c start input
        ≡ (read_message a fuel d false rest >>= λ t. ok (p ++ t.0, t.1, t.2))
  unfolding read_message
  read_message-data fuel c start p input rest d h l =
      let b : ltb 0 (length p) ≡ true = ground arith in rw (h, b) refl

  read_message-end :
      (fuel : ℕ) (c : RecordCipher K) (start : Bool) (p input rest : Bytes) (d : RecordCipher K)
      → read_record a c start input ≡ ok (record_end, p, d, rest)
      → read_message a (suc fuel) c start input ≡ ok (p, d, rest)
  unfolding read_message
  read_message-end fuel c start p input rest d h = rw h refl

  -- With an AEAD whose Open inverts its Seal and whose tag has 16 bytes, a message that was sealed as
  -- non-empty data records and an END record is read whole, in a round for each record, by a receiver
  -- with the sender's key and counter; the bytes that follow it are left for the next message, and
  -- both ciphers end alike.
  pub read_message-sealed :
      Inverts a
      → Expands a
      → (ps : List Bytes) (last rest : Bytes) (fuel : ℕ) (c : RecordCipher K) (start : Bool)
        (r : Bytes × RecordCipher K)
      → All (λ p. 1 ≤ length p) ps
      → length ps < fuel
      → seal_message c ps last ≡ ok r
      → read_message a fuel c start (r.0 ++ rest) ≡ ok (message ps last, r.1, rest)
  read_message-sealed v x ps last rest zero c start r h l e = absurd (omega arith)
  read_message-sealed v x [] last rest (suc fuel) c start r h l e =
      read_message-end fuel c start last (r.0 ++ rest) rest r.1
        (read_record-sealed v x c start record_end last rest r e)
  read_message-sealed v x (p ∷ ps) last rest (suc fuel) c start r (h, hs) l e =
      let (s, f, g) = >>=-eq-ok (seal_payload a c record_data p) _ r e in
      let (t, i, j) = >>=-eq-ok (seal_message s.1 ps last) _ r g in
      let q : (s.0 ++ t.0, t.1) ≡ r = cc in
      let first = read_record-sealed v x c start record_data p (t.0 ++ rest) s f in
      let later = read_message-sealed v x ps last rest fuel s.1 false t hs (omega arith) i in
      subst
        (λ (r : Bytes × RecordCipher K).
          read_message a (suc fuel) c start (r.0 ++ rest) ≡ ok (p ++ message ps last, r.1, rest))
        q
        (ap (λ w. read_message a (suc fuel) c start w) (append_assoc s.0 t.0 rest)
          ∙ read_message-data fuel c start p (s.0 ++ (t.0 ++ rest)) (t.0 ++ rest) s.1 first h
          ∙ rw later refl)
