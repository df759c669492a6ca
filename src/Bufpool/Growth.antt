-- ===== src/Bufpool/Growth.antt =====
-- Growing of internal/bufpool/growing.go: what its buffer holds, and how large it gets.
use tx.Base.{
  ℕ, zero, suc, ◌+◌, ◌-◌, ◌≤◌, ◌<◌, ◌≡◌, refl, sym, ap, ◌∙◌, max, Bool, true, false, ◌&&◌, List, [],
  ◌∷◌, ◌++◌, ok, err, leb, ltb, ◌==◌, length, take, drop, All, arith, Bool-cases, inl, inr, ◌⊎◌,
  length-append, take-append-drop, length-take, length-drop,
}
use tx.Base.Bytes.{Bytes}
use tx.Bufpool.{
  Growing, growing_too_large, buckets, max_bucket, first_bucket, bucket_size, acquire, grow, read,
  probe_round, read_round, read_from,
}
use mathlib.Core.List.{append_assoc, append-nil}

first_bucket-fits : (bs : List ℕ) (n : ℕ) → n ≤ max_bucket → n ≤ first_bucket bs n
unfolding first_bucket
first_bucket-fits [] n h = h
first_bucket-fits (b ∷ bs) n h = ground (arith, first_bucket-fits bs n)

first_bucket-bounded :
    (bs : List ℕ) (n : ℕ) → All (λ b. b ≤ max_bucket) bs → first_bucket bs n ≤ max_bucket
unfolding first_bucket
first_bucket-bounded [] n h = omega arith
first_bucket-bounded (b ∷ bs) n (p, h) = ground (arith, first_bucket-bounded bs n)

abbrev Ascending : List ℕ → Type 0
Ascending [] = Unit {0}
Ascending (b ∷ bs) = ((b ≤ max_bucket) × All (λ c. b ≤ c) bs) × Ascending bs

first_bucket-over :
    (a : ℕ) (bs : List ℕ) (n : ℕ) → a ≤ max_bucket → All (λ c. a ≤ c) bs → a ≤ first_bucket bs n
unfolding first_bucket
first_bucket-over a [] n h k = h
first_bucket-over a (b ∷ bs) n h (p, k) = ground (arith, first_bucket-over a bs n h k)

first_bucket-monotone :
    (bs : List ℕ) (m n : ℕ) → Ascending bs → m ≤ n → first_bucket bs m ≤ first_bucket bs n
unfolding first_bucket
first_bucket-monotone [] m n a h = omega arith
first_bucket-monotone (b ∷ bs) m n ((p, q), a) h =
    ground (arith, first_bucket-monotone bs m n a h, first_bucket-over b bs n p q)

abbrev all_leb : ℕ → List ℕ → Bool
all_leb a [] = true
all_leb a (b ∷ bs) = leb a b && all_leb a bs

All-all_leb : (a : ℕ) (bs : List ℕ) → all_leb a bs ≡ true → All (λ c. a ≤ c) bs
All-all_leb a [] h = tt
All-all_leb a (b ∷ bs) h = (ground arith, All-all_leb a bs (ground arith))

abbrev is_ascending : List ℕ → Bool
is_ascending [] = true
is_ascending (b ∷ bs) = leb b max_bucket && all_leb b bs && is_ascending bs

is_ascending→Ascending : (bs : List ℕ) → is_ascending bs ≡ true → Ascending bs
is_ascending→Ascending [] h = tt
is_ascending→Ascending (b ∷ bs) h =
    ((ground arith, All-all_leb b bs (ground arith)), is_ascending→Ascending bs (ground arith))

buckets-Ascending : Ascending buckets
buckets-Ascending = is_ascending→Ascending buckets refl

Ascending→All : (bs : List ℕ) → Ascending bs → All (λ b. b ≤ max_bucket) bs
Ascending→All [] h = tt
Ascending→All (b ∷ bs) ((p, q), h) = (p, Ascending→All bs h)

pub bucket_size-fits : (n : ℕ) → n ≤ max_bucket → n ≤ bucket_size n
unfolding bucket_size
bucket_size-fits n h = first_bucket-fits buckets n h

pub bucket_size-bounded : (n : ℕ) → bucket_size n ≤ max_bucket
unfolding bucket_size
bucket_size-bounded n = first_bucket-bounded buckets n (Ascending→All buckets buckets-Ascending)

bucket_size-monotone : (m n : ℕ) → m ≤ n → bucket_size m ≤ bucket_size n
unfolding bucket_size
bucket_size-monotone m n h = first_bucket-monotone buckets m n buckets-Ascending h

abbrev pub joined : List Bytes → Bytes
joined [] = []
joined (p ∷ ps) = p ++ joined ps

abbrev pub cost : List Bytes → ℕ
cost [] = 0
cost (p ∷ ps) = suc (length p + cost ps)

read-joined : (room : ℕ) (ps : List Bytes) → (read room ps).0 ++ joined (read room ps).1 ≡ joined ps
unfolding read
read-joined room [] = refl
read-joined room (p ∷ ps) = elim (Bool-cases (leb (length p) room)) [
  | inl l ↦ rw l refl
  | inr l ↦ rw l (
      sym (append_assoc (take room p) (drop room p) (joined ps))
      ∙ ap (λ (q : Bytes). q ++ joined ps) (take-append-drop room p))
]

read-cost :
    (room : ℕ) (p : Bytes) (ps : List Bytes)
    → 1 ≤ room
    → cost (read room (p ∷ ps)).1 < cost (p ∷ ps)
unfolding read
read-cost room p ps h = elim (Bool-cases (leb (length p) room)) [
  | inl l ↦ rw l (omega arith)
  | inr l ↦ rw l (ground (arith, length-drop room p))
]

read-room : (room : ℕ) (ps : List Bytes) → length (read room ps).0 ≤ room
unfolding read
read-room room [] = omega arith
read-room room (p ∷ ps) = elim (Bool-cases (leb (length p) room)) [
  | inl l ↦ rw l (ground arith)
  | inr l ↦ rw l (omega (arith, length-take room p))
]

-- A buffer within its capacity.
abbrev pub IsWithin : Growing → Type 0
IsWithin g = length g.buf ≤ g.capacity

-- What one round leaves: the same bytes in all, a smaller cost, and a capacity that is no larger than
-- before or than the bucket of what has arrived.
record Round (g : Growing) (ps : List Bytes) (r : Growing × List Bytes) : Type 0 where
  pub bytes : r.0.buf ++ joined r.1 ≡ g.buf ++ joined ps
  pub less : cost r.1 < cost ps
  pub within : IsWithin r.0
  pub small : r.0.capacity ≤ max g.capacity (bucket_size (length r.0.buf))

grow-full :
    (g : Growing)
    → ltb (length g.buf) g.capacity ≡ false
    → length g.buf + 1 ≤ max_bucket
    → grow g 1 ≡ ok (record g { capacity = bucket_size (length g.buf + 1) })
unfolding grow acquire
grow-full g w h =
    let a : leb (length g.buf + 1) g.capacity ≡ false = ground arith in
    let b : ltb max_bucket (length g.buf + 1) ≡ false = ground arith in
    let c : (length g.buf + 1 == 0) ≡ false = ground arith in rw (a, b, c) refl

grow-too_large :
    (g : Growing)
    → ltb (length g.buf) g.capacity ≡ false
    → max_bucket < length g.buf + 1
    → grow g 1 ≡ err growing_too_large
unfolding grow
grow-too_large g w h =
    let a : leb (length g.buf + 1) g.capacity ≡ false = ground arith in
    let b : ltb max_bucket (length g.buf + 1) ≡ true = ground arith in rw (a, b) refl

read_round-room :
    (g : Growing) (p : Bytes) (ps : List Bytes)
    → ltb (length g.buf) g.capacity ≡ true
    → (r : Growing × List Bytes) × (read_round g (p ∷ ps) ≡ ok r) × Round g (p ∷ ps) r
unfolding read_round
read_round-room g p ps l =
    let room = g.capacity - length g.buf in
    let r = read room (p ∷ ps) in
    let q = read-joined room (p ∷ ps) in
    (
      (record g { buf = g.buf ++ r.0 }, r.1),
      rw (l, read_round) refl,
      record {
        bytes = append_assoc g.buf r.0 (joined r.1) ∙ ap (λ (t : Bytes). g.buf ++ t) q;
        less = read-cost room p ps (ground arith);
        within = ground (arith, length-append g.buf r.0, read-room room (p ∷ ps));
        small = ground arith;
      },
    )

-- The probe of a full buffer.
read_round-probe :
    (g : Growing) (p : Bytes) (ps : List Bytes)
    → IsWithin g
    → ltb (length g.buf) g.capacity ≡ false
    → ((r : Growing × List Bytes) × (read_round g (p ∷ ps) ≡ ok r) × Round g (p ∷ ps) r)
      ⊎ ((read_round g (p ∷ ps) ≡ err growing_too_large)
          × (max_bucket < length g.buf + length (joined (p ∷ ps))))
unfolding read_round
read_round-probe g p ps w l =
    let r = read 1 (p ∷ ps) in
    let q : r.0 ++ joined r.1 ≡ joined (p ∷ ps) = read-joined 1 (p ∷ ps) in
    let c = read-cost 1 p ps (omega arith) in
    elim (list_cases r.0 (read-room 1 (p ∷ ps))) [
      | inl e ↦ inl (
        (g, r.1),
        rw (l, read_round) (ap (λ t. probe_round g t r.1) e ∙ unfold probe_round in refl),
        record {
          bytes = ap (λ (t : Bytes). g.buf ++ t) ((rw e at q));
          less = c;
          within = w;
          small = omega arith;
        },
      )
      | inr (b, e) ↦
          let k : (b ∷ []) ++ joined r.1 ≡ joined (p ∷ ps) = (rw e at q) in
          let n : 1 ≤ length (joined (p ∷ ps)) = omega (arith, ap length k) in
          elim (Bool-cases (leb (length g.buf + 1) max_bucket)) [
            | inr f ↦ inr (
              rw (l, read_round)
                  (ap (λ t. probe_round g t r.1) e
                    ∙ unfold probe_round in rw (grow-too_large g l (ground arith)) refl),
              ground arith,
            )
            | inl f ↦
                let h = record g {
                  buf = g.buf ++ (b ∷ []);
                  capacity = bucket_size (length g.buf + 1);
                } in
                let m : length (g.buf ++ (b ∷ [])) ≡ length g.buf + 1 =
                  length-append g.buf (b ∷ []) in
                let i : bucket_size (length g.buf + 1) ≡ bucket_size (length (g.buf ++ (b ∷ []))) =
                  ap bucket_size (sym m) in
                inl (
                  (h, r.1),
                  rw (l, read_round)
                      (ap (λ t. probe_round g t r.1) e
                        ∙ unfold probe_round in rw (grow-full g l (ground arith)) refl),
                  record {
                    bytes =
                        append_assoc g.buf (b ∷ []) (joined r.1) ∙ ap (λ (t : Bytes). g.buf ++ t) k;
                    less = c;
                    within = omega (arith, m, bucket_size-fits (length g.buf + 1) (ground arith));
                    small = omega (arith, i);
                  },
                )
          ]
    ]
  where
    list_cases : (q : Bytes) → length q ≤ 1 → (q ≡ []) ⊎ ((y : ℕ) × (q ≡ (y ∷ [])))
    list_cases [] h = inl refl
    list_cases (y ∷ []) h = inr (y, refl)
    list_cases (y ∷ z ∷ ys) h = absurd (omega arith)

-- All bytes, in a buffer that is no larger than before or than the bucket of what it holds.
pub record Filled (g : Growing) (ps : List Bytes) (h : Growing) : Type 0 where
  pub bytes : h.buf ≡ g.buf ++ joined ps
  pub within : IsWithin h
  pub small : h.capacity ≤ max g.capacity (bucket_size (length h.buf))

Filled-after :
    (g : Growing) (ps : List Bytes) (r : Growing × List Bytes) (h : Growing)
    → Round g ps r
    → Filled r.0 r.1 h
    → Filled g ps h
Filled-after g ps r h a f =
    let l : length r.0.buf ≤ length h.buf =
      omega (arith, ap length f.bytes, length-append r.0.buf (joined r.1)) in
    record {
      bytes = f.bytes ∙ a.bytes;
      within = f.within;
      small =
          omega (arith, f.small, a.small, bucket_size-monotone (length r.0.buf) (length h.buf) l);
    }

read_round-cases :
    (g : Growing) (p : Bytes) (ps : List Bytes)
    → IsWithin g
    → ((r : Growing × List Bytes) × (read_round g (p ∷ ps) ≡ ok r) × Round g (p ∷ ps) r)
      ⊎ ((read_round g (p ∷ ps) ≡ err growing_too_large)
          × (max_bucket < length g.buf + length (joined (p ∷ ps))))
read_round-cases g p ps w = elim (Bool-cases (ltb (length g.buf) g.capacity)) [
  | inl l ↦ inl (read_round-room g p ps l)
  | inr l ↦ read_round-probe g p ps w l
]

-- ReadFrom of a reader that ends with io.EOF.
pub read_from-Filled :
    (fuel : ℕ) (g : Growing) (ps : List Bytes)
    → IsWithin g
    → cost ps ≤ fuel
    → ((h : Growing) × (read_from fuel g ps ≡ ok h) × Filled g ps h)
      ⊎ ((read_from fuel g ps ≡ err growing_too_large)
          × (max_bucket < length g.buf + length (joined ps)))
unfolding read_from
read_from-Filled fuel g [] w c =
    inl (g, refl, record { bytes = sym (append-nil g.buf); within = w; small = omega arith })
read_from-Filled zero g (p ∷ ps) w c = absurd (omega arith)
read_from-Filled (suc fuel) g (p ∷ ps) w c = elim (read_round-cases g p ps w) [
  | inr (e, l) ↦ inr (rw e refl, l)
  | inl (r, e, a) ↦
      let n : length r.0.buf + length (joined r.1) ≡ length g.buf + length (joined (p ∷ ps)) =
        sym (length-append r.0.buf (joined r.1))
        ∙ ap length a.bytes
        ∙ length-append g.buf (joined (p ∷ ps)) in
      elim (read_from-Filled fuel r.0 r.1 a.within (omega (arith, a.less))) [
        | inl (h, q, f) ↦ inl (h, rw (e, q) refl, Filled-after g (p ∷ ps) r h a f)
        | inr (q, l) ↦ inr (rw (e, q) refl, omega arith)
      ]
]
