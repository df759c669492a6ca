-- ===== src/Aead/Steps.antt =====
-- recordCipher of session.go: two ciphers that start alike stay in step, across rekeys.
use tx.Base.{
  ℕ, ◌+◌, ◌*◌, ◌≤◌, ◌≡◌, refl, sym, ap, ◌∙◌, subst, false, some, List, [], ◌∷◌, Result, ok, err,
  ◌>>=◌, >>=-eq-ok, leb, ◌≢◌, All, length, Bool-cases, inl, inr,
}
use tx.Base.Bytes.{Bytes}
use tx.Aead.{
  Aeads, Algorithm, RecordCipher, CipherError, max_uint64, set_nonce, advance, seal, open_record,
}

-- What an AEAD documents: Open with the nonce and the data of Seal gives the text back.
abbrev pub Inverts : {K : Type 0} → Aeads K → Type 0
Inverts {K} a =
    (k : K) (nonce plaintext ad : Bytes)
    → a.open_with k nonce (a.seal_with k nonce plaintext ad) ad ≡ some plaintext

module _ {K : Type 0} (a : Aeads K) where
  -- The records of one direction, each with its associated data.
  abbrev pub seal_all :
      RecordCipher K
      → List (Bytes × Bytes)
      → Result CipherError (List (Bytes × Bytes) × RecordCipher K)
  seal_all c [] = ok ([], c)
  seal_all c ((p, ad) ∷ rs) =
      seal a c p ad >>= λ s. (seal_all s.1 rs >>= λ t. ok ((s.0, ad) ∷ t.0, t.1))

  abbrev pub open_all :
      RecordCipher K
      → List (Bytes × Bytes)
      → Result CipherError (List (Bytes × Bytes) × RecordCipher K)
  open_all c [] = ok ([], c)
  open_all c ((q, ad) ∷ rs) =
      open_record a c q ad >>= λ s. (open_all s.1 rs >>= λ t. ok ((s.0, ad) ∷ t.0, t.1))

  pub seal-parts :
      (c : RecordCipher K) (p ad : Bytes) (r : Bytes × RecordCipher K)
      → seal a c p ad ≡ ok r
      → (leb max_uint64 c.n ≡ false)
        × (advance a c ≡ ok r.1)
        × (a.seal_with c.aead (set_nonce c.alg c.n) p ad ≡ r.0)
  unfolding seal
  seal-parts c p ad r h = elim (Bool-cases (leb max_uint64 c.n)) [
    | inl e ↦ absurd (let k : err _ ≡ ok r = (rw e at h) in cc)
    | inr e ↦
        let k : (advance a c >>= λ c₁. ok (a.seal_with c.aead (set_nonce c.alg c.n) p ad, c₁))
            ≡ ok r =
          (rw e at h) in
        let (c₁, f, i) = >>=-eq-ok (advance a c) _ r k in (e, cc, cc)
  ]

  pub open_record-seal :
      Inverts a
      → (c : RecordCipher K) (p ad : Bytes) (r : Bytes × RecordCipher K) → seal a c p ad ≡ ok r
      → open_record a c r.0 ad ≡ ok (p, r.1)
  unfolding open_record
  open_record-seal v c p ad r h =
      let (e, f, s) = seal-parts c p ad r h in
      let o : a.open_with c.aead (set_nonce c.alg c.n) r.0 ad ≡ some p =
        ap (λ q. a.open_with c.aead (set_nonce c.alg c.n) q ad) (sym s)
        ∙ v c.aead (set_nonce c.alg c.n) p ad in
      rw (e, o, f) refl

  -- With an AEAD whose Open inverts its Seal, a receiver that starts with the sender's key and counter
  -- opens the records that were sealed, in order and across rekeys, to the texts that were sent, and
  -- ends with the sender's key and counter.
  pub open_all-seal_all :
      Inverts a
      → (c : RecordCipher K) (rs : List (Bytes × Bytes)) (r : List (Bytes × Bytes) × RecordCipher K)
      → seal_all c rs ≡ ok r
      → open_all c r.0 ≡ ok (rs, r.1)
  open_all-seal_all v c [] r h =
      let q : ([], c) ≡ r = cc in
      subst (λ (r : List (Bytes × Bytes) × RecordCipher K). open_all c r.0 ≡ ok ([], r.1)) q refl
  open_all-seal_all v c ((p, ad) ∷ rs) r h =
      let (s, e, k) = >>=-eq-ok (seal a c p ad) _ r h in
      let (t, f, l) = >>=-eq-ok (seal_all s.1 rs) _ r k in
      let i = open_all-seal_all v s.1 rs t f in
      let q : ((s.0, ad) ∷ t.0, t.1) ≡ r = cc in
      let o = open_record-seal v c p ad s e in
      subst (λ (r : List (Bytes × Bytes) × RecordCipher K). open_all c r.0 ≡ ok ((p, ad) ∷ rs, r.1))
        q (rw (o, i) refl)

-- The number that eight bytes give, the highest first.
abbrev number : Bytes → ℕ → ℕ
number [] n = n
number (x ∷ xs) n = number xs (n * 256 + x)

-- The nonces of records that are sealed from a counter on.
abbrev pub nonces : {A : Type 0} → Algorithm → ℕ → List A → List Bytes
nonces alg n [] = []
nonces alg n (r ∷ rs) = set_nonce alg n ∷ nonces alg (n + 1) rs

abbrev pub Distinct : List Bytes → Type 0
Distinct [] = Unit {0}
Distinct (x ∷ xs) = All (λ y. x ≢ y) xs × Distinct xs

module _ {K : Type 0} (a : Aeads K) where
  -- Each text was sealed with its own nonce of the list, under some key.
  abbrev pub Uses : List (Bytes × Bytes) → List (Bytes × Bytes) → List Bytes → Type 0
  Uses [] qs xs = Unit {0}
  Uses (p ∷ ps) [] xs = ⊥
  Uses (p ∷ ps) (q ∷ qs) [] = ⊥
  Uses (p ∷ ps) (q ∷ qs) (x ∷ xs) = ((k : K) × (q.0 ≡ a.seal_with k x p.0 p.1)) × Uses ps qs xs

  -- What the nonces of one run are.
  pub record Fresh (c : RecordCipher K) (rs : List (Bytes × Bytes))
      (r : List (Bytes × Bytes) × RecordCipher K) : Type 0 where
    pub uses : Uses rs r.0 (nonces c.alg c.n rs)
    pub count : r.1.n ≡ c.n + length rs
    pub room : c.n + length rs ≤ max_uint64
