-- ===== src/Client/Requests/Chunks.antt =====
-- The chunks that `visitEncodedRequests` of client_requests.go hands to its visitor.
use tx.Base.{
  ℕ, ◌+◌, ◌≤◌, ◌<◌, ◌≡◌, refl, sym, ap, ◌∙◌, Bool, true, false, ◌&&◌, not, List, [], ◌∷◌, ◌++◌,
  Result, ok, ◌>>=◌, if◌then◌else◌, length, ltb, leb, All, All-append, arith, length-append,
  Bool-cases, inl, inr, le→leb,
}
use tx.Base.Bytes.{Bytes, is_empty}
use tx.Client.Requests.{
  RequestChunk, RequestLimits, Batch, flush, add_item, visit_loop, visit_encoded_requests,
}
use mathlib.Core.List.{append-nil, append_assoc}

-- A visitor that keeps every chunk.
abbrev pub collect : {E : Type 0} → List RequestChunk → RequestChunk → Result E (List RequestChunk)
collect chunks c = ok (chunks ++ (c ∷ []))

abbrev pub bodies : List RequestChunk → Bytes
bodies [] = []
bodies (c ∷ cs) = c.body ++ bodies cs

-- The chunks take up the items from `lo` to `hi`, each a part that is not empty, with no gap.
abbrev pub Spans : ℕ → List RequestChunk → ℕ → Type 0
Spans lo [] hi = lo ≡ hi
Spans lo (c ∷ cs) hi = (c.lo ≡ lo) × (c.lo < c.hi) × Spans c.hi cs hi

abbrev pub encode_all {ℓ} :
    {T : Type ℓ} {E : Type 0} → (T → Result E Bytes) → List T → Result E Bytes
encode_all encode [] = ok []
encode_all encode (x ∷ xs) = do e ← encode x; es ← encode_all encode xs; ok (e ++ es)

bodies-snoc :
    (cs : List RequestChunk) (c : RequestChunk) → bodies (cs ++ (c ∷ [])) ≡ bodies cs ++ c.body
bodies-snoc [] c = append-nil c.body
bodies-snoc (d ∷ cs) c = rw (bodies-snoc cs c) (sym (append_assoc d.body (bodies cs) c.body))

Spans-snoc :
    (lo mid : ℕ) (cs : List RequestChunk) (c : RequestChunk)
    → Spans lo cs mid
    → c.lo ≡ mid
    → c.lo < c.hi
    → Spans lo (cs ++ (c ∷ [])) c.hi
Spans-snoc lo mid [] c s e h = (omega arith, h, refl)
Spans-snoc lo mid (d ∷ cs) c (p, q, s) e h = (p, q, Spans-snoc d.hi mid cs c s e h)

Spans-at : (lo hi hi' : ℕ) (cs : List RequestChunk) → hi ≡ hi' → Spans lo cs hi → Spans lo cs hi'
Spans-at lo hi hi' cs p s = rw (sym p) s

module _ {ℓ} {T : Type ℓ} {E : Type 0} (limits : RequestLimits) (encode : T → Result E Bytes) where
  abbrev IsBounded : RequestChunk → Type 0
  IsBounded c = length c.body ≤ limits.max_size

  -- Between two items: `i` items are encoded to `enc`.
  record Inv (i : ℕ) (enc : Bytes) (b : Batch (List RequestChunk)) : Type 0 where
    joined : bodies b.state ++ b.body ≡ enc
    bounded : All IsBounded b.state
    fits : length b.body ≤ limits.max_size
    spans : Spans 0 b.state b.lo
    behind : is_empty b.body ≡ false → b.lo < i
    level : is_empty b.body ≡ true → b.lo ≡ i

  abbrev flushed : ℕ → Batch (List RequestChunk) → Batch (List RequestChunk)
  flushed hi b = record {
    body = [];
    lo = hi;
    state =
        b.state ++ (record { lo = b.lo; hi = hi; body = b.body; max_bytes = limits.max_size } ∷ []);
  }

  flush-collect :
      (hi : ℕ) (b : Batch (List RequestChunk))
      → flush limits encode collect hi b ≡ ok (flushed hi b)
  unfolding flush
  flush-collect hi b = refl

  flushed-Inv :
      (i : ℕ) (enc : Bytes) (b : Batch (List RequestChunk))
      → Inv i enc b
      → is_empty b.body ≡ false
      → Inv i enc (flushed i b)
  flushed-Inv i enc b v h = record {
    joined = append-nil _ ∙ (bodies-snoc b.state _ ∙ v.joined);
    bounded = All-append IsBounded b.state _ v.bounded (v.fits, tt);
    fits = omega arith;
    spans = Spans-snoc 0 b.lo b.state _ v.spans refl (v.behind h);
    behind = λ e. cc;
    level = λ e. refl;
  }

  nonempty_append : (s e : Bytes) → 1 ≤ length e → is_empty (s ++ e) ≡ false
  nonempty_append [] [] h = absurd (omega arith)
  nonempty_append [] (c ∷ e) h = refl
  nonempty_append (c ∷ s) e h = refl

  lo_le : (i : ℕ) (enc : Bytes) (b : Batch (List RequestChunk)) → Inv i enc b → b.lo ≤ i
  lo_le i enc b v = elim (Bool-cases (is_empty b.body)) [
    | inl e ↦ omega (arith, v.level e)
    | inr e ↦ omega (arith, v.behind e)
  ]

  grown-Inv :
      (i : ℕ) (enc e : Bytes) (b : Batch (List RequestChunk))
      → Inv i enc b
      → 1 ≤ length e
      → length e + length b.body ≤ limits.max_size
      → Inv (i + 1) (enc ++ e) (record b { body = b.body ++ e })
  grown-Inv i enc e b v h f = record {
    joined = sym (append_assoc (bodies b.state) b.body e) ∙ ap (λ (t : Bytes). t ++ e) v.joined;
    bounded = v.bounded;
    fits = omega (arith, length-append b.body e);
    spans = v.spans;
    behind = λ p. omega (arith, lo_le i enc b v);
    level = λ p. cc (nonempty_append b.body e h);
  }

  empty_body : (s : Bytes) → is_empty s ≡ true → s ≡ []
  empty_body [] h = refl
  empty_body (c ∷ s) h = cc

  if_ok {κ} :
      {F : Type 0} {A : Type κ} (c : Bool) (x y : Result F A) (a b : A)
      → x ≡ ok a
      → y ≡ ok b
      → (if c then x else y) ≡ ok (if c then a else b)
  if_ok true x y a b p q = p
  if_ok false x y a b p q = q

  empty_length : (s : Bytes) → is_empty s ≡ true → length s ≡ 0
  empty_length [] h = refl
  empty_length (c ∷ s) h = cc

  -- An item that the limits allow: its encoding is not empty and fits in one body.
  abbrev pub Encodes : T → Type 0
  Encodes x = (e : Bytes) × (encode x ≡ ok e) × (1 ≤ length e) × (length e ≤ limits.max_size)

  -- The batch before the item is appended.
  abbrev room_for : ℕ → Bytes → Batch (List RequestChunk) → Batch (List RequestChunk)
  room_for i e b =
      if not (is_empty b.body) && ltb limits.max_size (length e + length b.body)
      then flushed i b
      else b

  room_for-Inv :
      (i : ℕ) (enc e : Bytes) (b : Batch (List RequestChunk))
      → Inv i enc b
      → length e ≤ limits.max_size
      → Inv i enc (room_for i e b) × (length e + length (room_for i e b).body ≤ limits.max_size)
  room_for-Inv i enc e b v h = elim (Bool-cases (is_empty b.body)) [
    | inl p ↦ rw p (v, omega (arith, empty_length b.body p))
    | inr p ↦ elim (Bool-cases (ltb limits.max_size (length e + length b.body))) [
      | inl q ↦ rw (p, q) (flushed-Inv i enc b v p, omega arith)
      | inr q ↦ rw (p, q) (v, (ground arith))
    ]
  ]

  abbrev appended : Bytes → Batch (List RequestChunk) → Batch (List RequestChunk)
  appended e b = record b { body = b.body ++ e }

  abbrev after_item : ℕ → Bytes → Batch (List RequestChunk) → Batch (List RequestChunk)
  after_item i e b =
      let grown = appended e (room_for i e b) in
      if leb limits.target (length grown.body) then flushed (i + 1) grown else grown

  after_item-Inv :
      (i : ℕ) (enc e : Bytes) (b : Batch (List RequestChunk))
      → Inv i enc b
      → 1 ≤ length e
      → length e ≤ limits.max_size
      → Inv (i + 1) (enc ++ e) (after_item i e b)
  after_item-Inv i enc e b v h k =
      let (w, f) = room_for-Inv i enc e b v k in
      let grown = grown-Inv i enc e (room_for i e b) w h f in
      elim (Bool-cases (leb limits.target (length (appended e (room_for i e b)).body))) [
        | inl q ↦ rw q (
            flushed-Inv (i + 1) (enc ++ e) (appended e (room_for i e b)) grown
              (nonempty_append (room_for i e b).body e h))
        | inr q ↦ rw q grown
      ]

  add_item-ok :
      (i : ℕ) (x : T) (e : Bytes) (b : Batch (List RequestChunk))
      → encode x ≡ ok e
      → length e ≤ limits.max_size
      → add_item limits encode collect i x b ≡ ok (after_item i e b)
  unfolding add_item
  add_item-ok i x e b p h =
      elim (Bool-cases (not (is_empty b.body) && ltb limits.max_size (length e + length b.body))) [
        | inl q ↦ rw (p, le→leb (length e) limits.max_size h, q) (if_ok _ _ _ _ _ refl refl)
        | inr q ↦ rw (p, le→leb (length e) limits.max_size h, q) (if_ok _ _ _ _ _ refl refl)
      ]

  Inv-at :
      (i j : ℕ) (enc enc' : Bytes) (b : Batch (List RequestChunk))
      → i ≡ j
      → enc ≡ enc'
      → Inv i enc b
      → Inv j enc' b
  Inv-at i j enc enc' b p q v = rw (sym p, sym q) v

  visit_loop-Inv :
      (xs : List T) (i : ℕ) (enc : Bytes) (b : Batch (List RequestChunk))
      → All Encodes xs
      → Inv i enc b
      → (b' : Batch (List RequestChunk)) × (rest : Bytes) × (visit_loop limits encode collect i xs b
          ≡ ok b')
        × (encode_all encode xs ≡ ok rest)
        × (b'.body ≡ [])
        × Inv (i + length xs) (enc ++ rest) b'
  unfolding visit_loop
  visit_loop-Inv [] i enc b h v = elim (Bool-cases (is_empty b.body)) [
    | inl p ↦ (
      b,
      [],
      rw p refl,
      refl,
      empty_body b.body p,
      Inv-at i (i + 0) enc (enc ++ []) b (omega arith) (sym (append-nil enc)) v,
    )
    | inr p ↦ (
      flushed i b,
      [],
      rw p refl,
      refl,
      refl,
      Inv-at i (i + 0) enc (enc ++ []) (flushed i b) (omega arith) (sym (append-nil enc))
          (flushed-Inv i enc b v p),
    )
  ]
  visit_loop-Inv (x ∷ xs) i enc b ((e, p, l, k), h) v =
      let b₁ = after_item i e b in
      let (b', rest, run, all, done, w) =
        visit_loop-Inv xs (i + 1) (enc ++ e) b₁ h (after_item-Inv i enc e b v l k) in
      (
        b',
        e ++ rest,
        rw (add_item-ok i x e b p k) run,
        rw (p, all) refl,
        done,
        Inv-at (i + 1 + length xs) (i + length (x ∷ xs)) ((enc ++ e) ++ rest) (enc ++ (e ++ rest))
            b' (omega arith) (append_assoc enc e rest) w,
      )

  -- What the chunks of one call are to the items and their joined encodings.
  pub record IsCut (xs : List T) (enc : Bytes) (chunks : List RequestChunk) : Type 0 where
    pub joined : bodies chunks ≡ enc
    pub bounded : All IsBounded chunks
    pub spans : Spans 0 chunks (length xs)

  -- Where every item's encoding is not empty and fits in one body, the call succeeds: its chunks'
  -- bodies are the encodings in order, each body is within the size limit, and the chunks' index
  -- ranges are the whole list, without a gap or an empty range.
  pub visit_encoded_requests-IsCut :
      (x : T) (xs : List T)
      → All Encodes (x ∷ xs)
      → (chunks : List RequestChunk) × (enc : Bytes) × (visit_encoded_requests limits encode collect
            (x ∷ xs)
            []
          ≡ ok chunks)
        × (encode_all encode (x ∷ xs) ≡ ok enc)
        × IsCut (x ∷ xs) enc chunks
  unfolding visit_encoded_requests
  visit_encoded_requests-IsCut x xs h =
      let v₀ : Inv 0 [] (record { body = []; lo = 0; state = [] }) = record {
        joined = refl;
        bounded = tt;
        fits = omega arith;
        spans = refl;
        behind = λ p. cc;
        level = λ p. refl;
      } in
      let (b, enc, run, all, done, v) =
        visit_loop-Inv (x ∷ xs) 0 [] (record { body = []; lo = 0; state = [] }) h v₀ in
      (
        b.state,
        enc,
        rw run refl,
        all,
        record {
          joined =
              sym (append-nil (bodies b.state))
              ∙ (ap (λ (t : Bytes). bodies b.state ++ t) (sym done) ∙ v.joined);
          bounded = v.bounded;
          spans =
              Spans-at 0 b.lo (length (x ∷ xs)) b.state (omega (arith, v.level (ap is_empty done)))
                v.spans;
        },
      )
