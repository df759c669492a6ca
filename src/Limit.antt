-- ===== src/Limit.antt =====
-- internal/filexfer/limit/limit.go: the limits of a file stream and the writer that keeps them. The
-- token bucket of golang.org/x/time/rate is the argument `Buckets`, the writer below is `put`.
pub mod Waits
use tx.Base.{
  ℕ, zero, suc, ◌+◌, ◌-◌, min, Bool, true, false, ◌&&◌, not, Option, none, some, List, [], ◌∷◌,
  Result, ok, guard, ◌>>◌, if◌then◌else◌, ltb, ◌==◌, length,
}
use tx.Base.Int.{ℤ, pos, is_neg, leb_ℤ, ltb_ℤ, pos_part}
use tx.Base.Bytes.{Bytes}

-- What the code calls of rate.Limiter: NewLimiter, Burst and WaitN, each with the state it leaves.
pub record Buckets (S E : Type 0) : Type 0 where
  pub new_limiter : ℤ → ℤ → S
  pub burst : S → ℤ
  pub wait_n : S → ℕ → S × Option E

pub record FileStreamLimitConfig : Type 0 where
  pub rate_bps : ℤ
  pub burst_bytes : ℤ
  pub time_limit : ℤ

pub record FileStreamLimitState (S : Type 0) : Type 0 where
  pub cfg : FileStreamLimitConfig
  pub bucket : Option S

pub data LimitError : Type 0 where
  negative_rate negative_burst negative_time_limit no_burst : LimitError

abbrev pub default_burst_bytes : ℤ
default_burst_bytes = pos 1048576

unfoldable pub new_bucket : {S E : Type 0} → Buckets S E → FileStreamLimitConfig → Option S
new_bucket b cfg =
    if ltb_ℤ (pos 0) cfg.rate_bps then some (b.new_limiter cfg.rate_bps cfg.burst_bytes) else none

unfoldable pub new_file_stream_limit_state :
    {S E : Type 0}
    → Buckets S E
    → FileStreamLimitConfig
    → Result LimitError (FileStreamLimitState S)
new_file_stream_limit_state b cfg =
    guard (not (is_neg cfg.rate_bps)) negative_rate
    >> (guard (not (is_neg cfg.burst_bytes)) negative_burst
        >> (guard (not (is_neg cfg.time_limit)) negative_time_limit
            >> (guard (not (ltb_ℤ (pos 0) cfg.rate_bps && leb_ℤ cfg.burst_bytes (pos 0))) no_burst
                >> ok (record { cfg = cfg; bucket = new_bucket b cfg }))))

unfoldable new_limiter_from_bps :
    {S E : Type 0} → Buckets S E → ℤ → ℤ → Result LimitError (FileStreamLimitState S)
new_limiter_from_bps b rate_bps burst_bytes = new_file_stream_limit_state b (record {
  rate_bps = rate_bps;
  burst_bytes = if leb_ℤ burst_bytes (pos 0) then default_burst_bytes else burst_bytes;
  time_limit = pos 0;
})

-- `deadline` is none where the source has `hasDL` false.
pub record RateLimitedWriter (S W : Type 0) : Type 0 where
  pub w : W
  pub bucket : Option S
  pub deadline : Option ℕ
  pub wrote_body : Bool

unfoldable pub wrap_rate_limited_writer :
    {S W : Type 0} → W → ℕ → FileStreamLimitState S → RateLimitedWriter S W
wrap_rate_limited_writer w now state = record {
  w = w;
  bucket = state.bucket;
  deadline =
      if ltb_ℤ (pos 0) state.cfg.time_limit
      then some (now + pos_part state.cfg.time_limit)
      else none;
  wrote_body = false;
}

pub data WriteError (E : Type 0) : Type 0 where
  time_limit_exceeded : WriteError E
  failed : E → WriteError E
  stuck : WriteError E

unfoldable pub chunk_max : {S E : Type 0} → Buckets S E → S → ℕ
chunk_max b s = if leb_ℤ (b.burst s) (pos 0) then 1 else pos_part (b.burst s)

-- The loop of `waitRateLimited`, for what is `remaining`.
unfoldable pub wait_loop : {S E : Type 0} → Buckets S E → ℕ → ℕ → S → ℕ → S × Option (WriteError E)
wait_loop b most fuel s zero = (s, none)
wait_loop b most zero s (suc n) = (s, some stuck)
wait_loop b most (suc fuel) s (suc n) =
    let (s₁, answer) = b.wait_n s (min (suc n) most) in
    elim answer [
      | some e ↦ (s₁, some (failed e))
      | none ↦ wait_loop b most fuel s₁ (suc n - min (suc n) most)
    ]

unfoldable pub wait_rate_limited : {S E : Type 0} → Buckets S E → S → ℕ → S × Option (WriteError E)
wait_rate_limited b s n = wait_loop b (chunk_max b s) n s n

abbrev pub is_after : ℕ → Option ℕ → Bool
is_after now none = false
is_after now (some deadline) = ltb deadline now

module _ {S E W : Type 0} (b : Buckets S E) (put : W → Bytes → W × ℕ × Option E) where
  abbrev answer_of : Option E → Option (WriteError E)
  answer_of none = none
  answer_of (some e) = some (failed e)

  -- The write below, once the bucket has let it through.
  unfoldable pub write_through :
      RateLimitedWriter S W → Bytes → RateLimitedWriter S W × ℕ × Option (WriteError E)
  write_through l p =
      let (w₁, n, e) = put l.w p in
      (record l { w = w₁; wrote_body = if ltb 0 n then true else l.wrote_body }, n, answer_of e)

  unfoldable pub after_wait :
      RateLimitedWriter S W
      → Bytes
      → S × Option (WriteError E)
      → RateLimitedWriter S W × ℕ × Option (WriteError E)
  after_wait l p (s, some e) = (record l { bucket = some s }, 0, some e)
  after_wait l p (s, none) = write_through (record l { bucket = some s }) p

  unfoldable pub write_waited :
      RateLimitedWriter S W → Bytes → RateLimitedWriter S W × ℕ × Option (WriteError E)
  write_waited l p = elim l.bucket [
    | none ↦ write_through l p
    | some s ↦ after_wait l p (wait_rate_limited b s (length p))
  ]

  unfoldable pub write :
      ℕ → RateLimitedWriter S W → Bytes → RateLimitedWriter S W × ℕ × Option (WriteError E)
  write now l p =
      if length p == 0
      then (l, 0, none)
      else (if is_after now l.deadline then (l, 0, some time_limit_exceeded) else write_waited l p)
