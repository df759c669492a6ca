-- ===== src/Limit/Waits.antt =====
-- limit.go: a write within the time limit waits for all its bytes, in parts that the bucket grants.
use tx.Base.{
  ℕ, zero, suc, ◌+◌, ◌-◌, ◌≤◌, ◌≡◌, refl, sym, ap, ◌∙◌, subst, min, Bool, true, false, ◌&&◌, not,
  Option, none, some, Result, ok, guard, ◌==◌, length, arith, Bool-cases, Option-cases, inl, inr,
  ◌>>◌,
}
use tx.Base.Int.{ℤ, pos, is_neg, leb_ℤ, ltb_ℤ, pos_part}
use tx.Base.Bytes.{Bytes}
use tx.Limit.{
  Buckets, FileStreamLimitConfig, FileStreamLimitState, LimitError, negative_rate, negative_burst,
  negative_time_limit, no_burst, RateLimitedWriter, WriteError, new_bucket,
  new_file_stream_limit_state, wrap_rate_limited_writer, chunk_max, wait_loop, wait_rate_limited,
  is_after, write, after_wait, write_waited, write_through, answer_of,
}

-- What the package documents of a limiter whose context stays open: it keeps its burst, and WaitN
-- takes n tokens, unless n is larger than the burst.
pub record Grants {S E : Type 0} (b : Buckets S E) (taken : S → ℕ) : Type 0 where
  pub made : (rate burst : ℤ) → b.burst (b.new_limiter rate burst) ≡ burst
  pub kept : (s : S) (n : ℕ) → b.burst (b.wait_n s n).0 ≡ b.burst s
  pub granted : (s : S) (n : ℕ) → n ≤ pos_part (b.burst s) → (b.wait_n s n).1 ≡ none
  pub counted : (s : S) (n : ℕ) → n ≤ pos_part (b.burst s) → taken (b.wait_n s n).0 ≡ taken s + n

-- A bucket that grants at least one byte at a time.
abbrev pub IsOpen : {S E : Type 0} → Buckets S E → S → Type 0
IsOpen b s = 1 ≤ pos_part (b.burst s)

-- The bucket after n bytes are waited for.
record Charged {S E : Type 0} (b : Buckets S E) (taken : S → ℕ) (s : S) (n : ℕ) (s₁ : S)
    : Type 0 where
  pub count : taken s₁ ≡ taken s + n
  pub burst : b.burst s₁ ≡ b.burst s

wait_loop-step :
    {S E : Type 0} (b : Buckets S E) (most fuel n : ℕ) (s : S)
    → (b.wait_n s (min (suc n) most)).1 ≡ none
    → wait_loop b most (suc fuel) s (suc n)
      ≡ wait_loop b most fuel (b.wait_n s (min (suc n) most)).0 (suc n - min (suc n) most)
unfolding wait_loop
wait_loop-step b most fuel n s h = rw (h, wait_loop) refl

wait_loop-Charged :
    {S E : Type 0} (b : Buckets S E) (taken : S → ℕ)
    → Grants b taken
    → (most : ℕ) → 1 ≤ most
    → (fuel n : ℕ) (s : S) → n ≤ fuel
    → pos_part (b.burst s) ≡ most
    → (s₁ : S) × (wait_loop b most fuel s n ≡ (s₁, none)) × Charged b taken s n s₁
wait_loop-Charged b taken g most m fuel zero s h k =
    (s, unfold wait_loop in refl, record { count = omega arith; burst = refl })
wait_loop-Charged b taken g most m zero (suc n) s h k = absurd (omega arith)
wait_loop-Charged b taken g most m (suc fuel) (suc n) s h k =
    let want = min (suc n) most in
    let fits : want ≤ pos_part (b.burst s) = omega (arith, k) in
    let s₁ = (b.wait_n s want).0 in
    let (s₂, run, c) =
      wait_loop-Charged b taken g most m fuel (suc n - want) s₁ (omega (arith, h, m))
        (ap pos_part (g.kept s want) ∙ k) in
    (
      s₂,
      wait_loop-step b most fuel n s (g.granted s want fits) ∙ run,
      record {
        count = omega (arith, c.count, g.counted s want fits);
        burst = c.burst ∙ g.kept s want;
      },
    )

chunk_max-open :
    {S E : Type 0} (b : Buckets S E) (s : S) → IsOpen b s → chunk_max b s ≡ pos_part (b.burst s)
unfolding chunk_max
chunk_max-open b s h = ground arith

wait_rate_limited-Charged :
    {S E : Type 0} (b : Buckets S E) (taken : S → ℕ)
    → Grants b taken
    → (s : S) (n : ℕ) → IsOpen b s
    → (s₁ : S) × (wait_rate_limited b s n ≡ (s₁, none)) × Charged b taken s n s₁
unfolding wait_rate_limited
wait_rate_limited-Charged b taken g s n h =
    let c = chunk_max-open b s h in
    wait_loop-Charged b taken g (chunk_max b s) (omega (arith, c, h)) n n s (omega arith) (sym c)

-- A writer whose bucket, if it has one, is open.
abbrev pub IsReady : {S E W : Type 0} → Buckets S E → RateLimitedWriter S W → Type 0
IsReady {S} b l = (s : S) → l.bucket ≡ some s → IsOpen b s

-- A writer with its bucket replaced.
abbrev with_bucket : {S W : Type 0} → RateLimitedWriter S W → S → RateLimitedWriter S W
with_bucket l s = record l { bucket = some s }

module _ {S E W : Type 0} (b : Buckets S E) (put : W → Bytes → W × ℕ × Option E)
    (taken : S → ℕ) where
  -- The writer below got the bytes, its answer is the answer, and the bucket was charged for them.
  pub record Passed (l : RateLimitedWriter S W) (p : Bytes)
      (r : RateLimitedWriter S W × ℕ × Option (WriteError E)) : Type 0 where
    pub sink : r.0.w ≡ (put l.w p).0
    pub size : r.1 ≡ (put l.w p).1
    pub answer : r.2 ≡ answer_of b put (put l.w p).2
    pub charged :
        (s : S)
        → l.bucket ≡ some s
        → (s₁ : S) × (r.0.bucket ≡ some s₁) × (taken s₁ ≡ taken s + length p)
    pub ready : IsReady b r.0

  write-waits :
      (now : ℕ) (l : RateLimitedWriter S W) (p : Bytes)
      → (length p == 0) ≡ false
      → is_after now l.deadline ≡ false
      → write b put now l p ≡ write_waited b put l p
  unfolding write
  write-waits now l p h k = rw (h, k) refl

  write_waited-open :
      (l : RateLimitedWriter S W) (p : Bytes) (s s₁ : S)
      → l.bucket ≡ some s
      → wait_rate_limited b s (length p) ≡ (s₁, none)
      → write_waited b put l p ≡ write_through b put (with_bucket l s₁) p
  unfolding write_waited after_wait
  write_waited-open l p s s₁ h k = rw (h, k) refl

  write_waited-unlimited :
      (l : RateLimitedWriter S W) (p : Bytes)
      → l.bucket ≡ none
      → write_waited b put l p ≡ write_through b put l p
  unfolding write_waited
  write_waited-unlimited l p h = rw h refl

  write_waited-Passed :
      Grants b taken
      → (l : RateLimitedWriter S W) (p : Bytes) → IsReady b l
      → Passed l p (write_waited b put l p)
  write_waited-Passed g l p h = elim (Option-cases l.bucket) [
    | inl e ↦ rw (write_waited-unlimited l p e) (record {
      sink = unfold write_through in refl;
      size = unfold write_through in refl;
      answer = unfold write_through in refl;
      charged = λ s k. absurd (cc);
      ready = unfold write_through in h;
    })
    | inr (s, e) ↦
        let (s₁, run, c) = wait_rate_limited-Charged b taken g s (length p) (h s e) in
        rw (write_waited-open l p s s₁ e run) (record {
          sink = unfold write_through in refl;
          size = unfold write_through in refl;
          answer = unfold write_through in refl;
          charged = λ t k. (
            s₁,
            unfold write_through in refl,
            (let q : s ≡ t = cc in omega (arith, c.count, ap taken q)),
          );
          ready =
              unfold write_through in
              (λ t k.
                let q : s₁ ≡ t = cc in
                subst (λ x. IsOpen b x) q (omega (arith, ap pos_part c.burst, h s e)));
        })
  ]

  -- A write of some bytes before the deadline, by a writer whose bucket is open and grants as rate.Limiter
  -- documents, reaches the writer below: its count and error are the answer, the bucket is charged
  -- exactly the bytes, and the writer is ready for the next write.
  pub write-Passed :
      Grants b taken
      → (now : ℕ) (l : RateLimitedWriter S W) (p : Bytes) → IsReady b l
      → (length p == 0) ≡ false
      → is_after now l.deadline ≡ false
      → Passed l p (write b put now l p)
  write-Passed g now l p h n d =
      subst (λ r. Passed l p r) (sym (write-waits now l p n d)) (write_waited-Passed g l p h)

-- The limits that the constructor accepts give a writer that is ready.
new_bucket-IsOpen :
    {S E : Type 0} (b : Buckets S E) (taken : S → ℕ)
    → Grants b taken
    → (cfg : FileStreamLimitConfig)
    → not (ltb_ℤ (pos 0) cfg.rate_bps && leb_ℤ cfg.burst_bytes (pos 0)) ≡ true
    → (s : S) → new_bucket b cfg ≡ some s
    → IsOpen b s
unfolding new_bucket
new_bucket-IsOpen b taken g cfg h s k = elim (Bool-cases (ltb_ℤ (pos 0) cfg.rate_bps)) [
  | inl e ↦
      let made : some (b.new_limiter cfg.rate_bps cfg.burst_bytes) ≡ some s = (rw e at k) in
      let q : b.new_limiter cfg.rate_bps cfg.burst_bytes ≡ s = cc in
      let least : 1 ≤ pos_part cfg.burst_bytes = ground arith in
      subst (λ x. IsOpen b x) q
        (omega (arith, ap pos_part (g.made cfg.rate_bps cfg.burst_bytes), least))
  | inr e ↦ let made : none ≡ some s = (rw e at k) in absurd (cc)
]

accepted :
    (c : Bool) (e : LimitError) {A : Type 0} (m : Result LimitError A) (a : A)
    → (guard c e >> m) ≡ ok a
    → (c ≡ true) × (m ≡ ok a)
accepted true e m a h = (refl, h)
accepted false e m a h = absurd (cc)

-- A writer over limits that the constructor accepts is ready, if its bucket grants as documented.
pub wrap-IsReady :
    {S E W : Type 0} (b : Buckets S E) (taken : S → ℕ)
    → Grants b taken
    → (cfg : FileStreamLimitConfig) (state : FileStreamLimitState S) (w : W) (now : ℕ)
    → new_file_stream_limit_state b cfg ≡ ok state
    → IsReady b (wrap_rate_limited_writer w now state)
unfolding new_file_stream_limit_state wrap_rate_limited_writer
wrap-IsReady b taken g cfg state w now h s k =
    let (e₁, h₁) = accepted (not (is_neg cfg.rate_bps)) negative_rate _ state h in
    let (e₂, h₂) = accepted (not (is_neg cfg.burst_bytes)) negative_burst _ state h₁ in
    let (e₃, h₃) = accepted (not (is_neg cfg.time_limit)) negative_time_limit _ state h₂ in
    let (e₄, h₄) =
      accepted (not (ltb_ℤ (pos 0) cfg.rate_bps && leb_ℤ cfg.burst_bytes (pos 0))) no_burst _ state
        h₃ in
    let q : record { cfg = cfg; bucket = new_bucket b cfg } ≡ state = cc in
    new_bucket-IsOpen b taken g cfg e₄ s (ap FileStreamLimitState.bucket q ∙ k)
