-- ===== src/Tests/Limits.antt =====
-- The limits of a file stream at concrete inputs: a bucket that counts what it grants.
use tx.Base.{
  ℕ, ◌+◌, ◌≡◌, refl, Option, none, some, [], ◌∷◌, ◌++◌, ok, leb, length, if◌then◌else◌, Bool-cases,
  inl, inr, le→leb,
}
use tx.Base.Int.{ℤ, pos, pos_part}
use tx.Base.Bytes.{Bytes}
use tx.Limit.{
  Buckets, FileStreamLimitConfig, FileStreamLimitState, RateLimitedWriter, new_bucket,
  new_file_stream_limit_state, wrap_rate_limited_writer, write,
}
use tx.Limit.Waits.{Grants, IsReady, Passed, write-Passed, wrap-IsReady}

-- A bucket that never makes its callers wait: its burst, and the tokens that it gave.
abbrev Counter : Type 0
Counter = ℤ × ℕ

abbrev counted_wait : Counter → ℕ → Counter × Option (Unit {0})
counted_wait c n = if leb n (pos_part c.0) then ((c.0, c.1 + n), none) else (c, some tt)

abbrev counters : Buckets Counter (Unit {0})
counters = record {
  new_limiter = λ rate burst. (burst, 0);
  burst = λ c. c.0;
  wait_n = counted_wait;
}

counters-Grants : Grants counters (λ c. c.1)
counters-Grants = record {
  made = λ rate burst. refl;
  kept = λ s n. kept_burst s n;
  granted = λ s n h. rw (le→leb n (pos_part s.0) h) refl;
  counted = λ s n h. rw (le→leb n (pos_part s.0) h) refl;
}
  where
    kept_burst : (s : Counter) (n : ℕ) → (counted_wait s n).0.0 ≡ s.0
    kept_burst s n = elim (Bool-cases (leb n (pos_part s.0))) [
      | inl e ↦ rw e refl
      | inr e ↦ rw e refl
    ]

abbrev slow : FileStreamLimitConfig
slow = record { rate_bps = pos 1000; burst_bytes = pos 4; time_limit = pos 60 }

abbrev slow_state : FileStreamLimitState Counter
slow_state = record { cfg = slow; bucket = some (pos 4, 0) }

abbrev ten_bytes : Bytes
ten_bytes = 1 ∷ 2 ∷ 3 ∷ 4 ∷ 5 ∷ 6 ∷ 7 ∷ 8 ∷ 9 ∷ 10 ∷ []

abbrev kept_bytes : Bytes → Bytes → Bytes × ℕ × Option (Unit {0})
kept_bytes w p = (w ++ p, length p, none)

abbrev slow_writer : RateLimitedWriter Counter Bytes
slow_writer = wrap_rate_limited_writer [] 100 slow_state

slow_writer-IsReady : IsReady counters slow_writer
slow_writer-IsReady =
    wrap-IsReady counters (λ c. c.1) counters-Grants slow slow_state [] 100 slow_state-made
  where
    slow_state-made : new_file_stream_limit_state counters slow ≡ ok slow_state
    slow_state-made = unfold new_file_stream_limit_state new_bucket in refl

write-Passed_example :
    Passed counters kept_bytes
      (λ c. c.1)
      slow_writer
      ten_bytes
      (write counters kept_bytes 130 slow_writer ten_bytes)
write-Passed_example =
    write-Passed counters kept_bytes (λ c. c.1) counters-Grants 130 slow_writer ten_bytes
      slow_writer-IsReady refl (unfold wrap_rate_limited_writer in refl)
