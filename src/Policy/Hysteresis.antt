-- ===== src/Policy/Hysteresis.antt =====
-- The ladder of compression modes that `Decide` of internal/filexfer/policy/policy.go climbs, and what
-- it answers, described by the signals of the samples in place of its streaks.
use tx.Base.{
  ℕ, zero, suc, ◌+◌, ◌-◌, min, ◌≡◌, refl, ap, Bool, true, false, ◌&&◌, ◌||◌, not, Option, none,
  some, List, [], ◌∷◌, if◌then◌else◌, Bool-cases, inl, inr,
}
use tx.Policy.{
  CompressionMode, zstd_default, zstd_level1, lz4, none_mode, Float, CompressionMetrics,
  CompressionPolicy, new_compression_policy, CompressionDecision, Reason, hold, downgraded,
  upgraded, compression_ratio, safe_latency_ratio, record_sample, should_upgrade, update_streaks,
  settle_downgrade, settle_upgrade, conclude, decide,
}

-- What the averages ask for: weaker compression, stronger compression, or no change.
pub data Signal : Type 0 where
  weaker stronger steady : Signal

abbrev pub signal : {F : Type 0} → Float F → F → F → Signal
signal fl ratio read_over_write =
    if fl.ge read_over_write fl.up_read_over_write_cut
    then (if fl.lt ratio fl.down_ratio_cut || fl.lt fl.down_read_over_write_cut read_over_write
        then weaker
        else steady)
    else stronger

-- The modes by strength, from none upward.
abbrev pub rung : CompressionMode → ℕ
rung none_mode = 0
rung lz4 = 1
rung zstd_level1 = 2
rung zstd_default = 3

abbrev pub at_rung : ℕ → CompressionMode
at_rung zero = none_mode
at_rung (suc zero) = lz4
at_rung (suc (suc zero)) = zstd_level1
at_rung (suc (suc (suc n))) = zstd_default

-- One rung down; or one rung up, but never above the second, so that the third is left for it.
abbrev pub target : Signal → CompressionMode → CompressionMode
target weaker m = at_rung (rung m - 1)
target stronger m = at_rung (min (rung m + 1) 2)
target steady m = m

abbrev pub reason_of : Signal → CompressionMode → Reason
reason_of weaker none_mode = hold
reason_of weaker m = downgraded
reason_of stronger zstd_level1 = hold
reason_of stronger m = upgraded
reason_of steady m = hold

-- Whether a signal repeats the one that waits.
abbrev pub repeats : Signal → Signal → Bool
repeats weaker weaker = true
repeats stronger stronger = true
repeats waiting s = false

-- A signal that does not repeat the waiting one waits in its place; one that does is acted on, and
-- then nothing waits.
abbrev pub next_waiting : Signal → Signal → Signal
next_waiting waiting s = if repeats waiting s then steady else s

abbrev pub ladder_decision :
    {F : Type 0} → Signal → Signal → CompressionMode → F → F → CompressionDecision F
ladder_decision waiting s current ratio read_over_write = record {
  next = if repeats waiting s then target s current else current;
  reason = if repeats waiting s then reason_of s current else hold;
  ratio = ratio;
  read_over_write = read_over_write;
}

-- The moving average of a value, from the first sample on.
abbrev pub average : {F : Type 0} → Float F → Option F → F → F
average fl none x = x
average fl (some old) x = fl.add (fl.mul fl.ema_alpha x) (fl.mul fl.ema_rest old)

abbrev pub fst_of : {F : Type 0} → Option (F × F) → Option F
fst_of none = none
fst_of (some (a, b)) = some a

abbrev pub snd_of : {F : Type 0} → Option (F × F) → Option F
snd_of none = none
snd_of (some (a, b)) = some b

-- The reference: the averages so far, and the signal that waits.
abbrev pub ladder_all :
    {F : Type 0}
    → Float F
    → Option (F × F)
    → Signal
    → List (CompressionMode × CompressionMetrics)
    → List (CompressionDecision F)
ladder_all fl old waiting [] = []
ladder_all fl old waiting ((current, m) ∷ samples) =
    let ratio = average fl (fst_of old) (compression_ratio fl m.logical_size m.wire_size) in
    let latency =
      average fl (snd_of old) (safe_latency_ratio fl m.prepare_latency m.write_latency) in
    let s = signal fl ratio latency in
    ladder_decision waiting s current ratio latency
    ∷ ladder_all fl (some (ratio, latency)) (next_waiting waiting s) samples

-- The decisions of one policy on samples, each with the mode that was used.
abbrev pub decide_all :
    {F : Type 0}
    → Float F
    → CompressionPolicy F
    → List (CompressionMode × CompressionMetrics)
    → List (CompressionDecision F)
decide_all fl p [] = []
decide_all fl p ((current, m) ∷ samples) =
    (decide fl p current m).1 ∷ decide_all fl (decide fl p current m).0 samples

-- The streaks that stand for a waiting signal.
abbrev downs : Signal → ℕ
downs weaker = 1
downs stronger = 0
downs steady = 0

abbrev ups : Signal → ℕ
ups weaker = 0
ups stronger = 1
ups steady = 0

-- The policy that the reference's state stands for.
abbrev policy_of : {F : Type 0} → Float F → Option (F × F) → Signal → CompressionPolicy F
policy_of fl none waiting = record {
  ema_ratio = fl.nought;
  ema_read_over_write = fl.nought;
  ema_initialized = false;
  downgrade_streak = downs waiting;
  upgrade_streak = ups waiting;
}
policy_of fl (some (ratio, latency)) waiting = record {
  ema_ratio = ratio;
  ema_read_over_write = latency;
  ema_initialized = true;
  downgrade_streak = downs waiting;
  upgrade_streak = ups waiting;
}

abbrev is_weaker : Signal → Bool
is_weaker weaker = true
is_weaker s = false

abbrev is_stronger : Signal → Bool
is_stronger stronger = true
is_stronger s = false

conclude-ladder :
    {F : Type 0} (fl : Float F) (ratio latency : F) (waiting s : Signal) (current : CompressionMode)
    → conclude (is_stronger s) (is_weaker s) (policy_of fl (some (ratio, latency)) waiting) current
      ≡ (
        policy_of fl (some (ratio, latency)) (next_waiting waiting s),
        ladder_decision waiting s current ratio latency,
      )
unfolding conclude update_streaks settle_downgrade settle_upgrade
conclude-ladder fl ratio latency weaker weaker zstd_default = refl
conclude-ladder fl ratio latency weaker weaker zstd_level1 = refl
conclude-ladder fl ratio latency weaker weaker lz4 = refl
conclude-ladder fl ratio latency weaker weaker none_mode = refl
conclude-ladder fl ratio latency stronger stronger zstd_default = refl
conclude-ladder fl ratio latency stronger stronger zstd_level1 = refl
conclude-ladder fl ratio latency stronger stronger lz4 = refl
conclude-ladder fl ratio latency stronger stronger none_mode = refl
conclude-ladder fl ratio latency weaker stronger current = refl
conclude-ladder fl ratio latency weaker steady current = refl
conclude-ladder fl ratio latency stronger weaker current = refl
conclude-ladder fl ratio latency stronger steady current = refl
conclude-ladder fl ratio latency steady weaker current = refl
conclude-ladder fl ratio latency steady stronger current = refl
conclude-ladder fl ratio latency steady steady current = refl

stronger-signal :
    {F : Type 0} (fl : Float F) (ratio latency : F)
    → should_upgrade fl latency ≡ is_stronger (signal fl ratio latency)
unfolding should_upgrade
stronger-signal fl ratio latency = elim (Bool-cases (fl.ge latency fl.up_read_over_write_cut)) [
  | inl e ↦
      elim (Bool-cases
        (fl.lt ratio fl.down_ratio_cut || fl.lt fl.down_read_over_write_cut latency)) [
          | inl k ↦ rw (e, k) refl
          | inr k ↦ rw (e, k) refl
        ]
  | inr e ↦ rw e refl
]

weaker-signal :
    {F : Type 0} (fl : Float F) (ratio latency : F)
    → not (should_upgrade fl latency)
        && (fl.lt ratio fl.down_ratio_cut || fl.lt fl.down_read_over_write_cut latency)
      ≡ is_weaker (signal fl ratio latency)
unfolding should_upgrade
weaker-signal fl ratio latency = elim (Bool-cases (fl.ge latency fl.up_read_over_write_cut)) [
  | inl e ↦
      elim (Bool-cases
        (fl.lt ratio fl.down_ratio_cut || fl.lt fl.down_read_over_write_cut latency)) [
          | inl k ↦ rw (e, k) refl
          | inr k ↦ rw (e, k) refl
        ]
  | inr e ↦ rw e refl
]

record_sample-average :
    {F : Type 0} (fl : Float F) (old : Option (F × F)) (waiting : Signal) (ratio latency : F)
    → record_sample fl (policy_of fl old waiting) ratio latency
      ≡ policy_of fl (some (average fl (fst_of old) ratio, average fl (snd_of old) latency)) waiting
unfolding record_sample
record_sample-average fl none waiting ratio latency = refl
record_sample-average fl (some (a, b)) waiting ratio latency = refl

decide-ladder :
    {F : Type 0} (fl : Float F) (old : Option (F × F)) (waiting : Signal)
    (current : CompressionMode) (m : CompressionMetrics)
    → let ratio = average fl (fst_of old) (compression_ratio fl m.logical_size m.wire_size) in
      let latency =
        average fl (snd_of old) (safe_latency_ratio fl m.prepare_latency m.write_latency) in
      let s = signal fl ratio latency in
      decide fl (policy_of fl old waiting) current m ≡ (
        policy_of fl (some (ratio, latency)) (next_waiting waiting s),
        ladder_decision waiting s current ratio latency,
      )
unfolding decide
decide-ladder fl old waiting current m =
    let r = compression_ratio fl m.logical_size m.wire_size in
    let l = safe_latency_ratio fl m.prepare_latency m.write_latency in
    let ratio = average fl (fst_of old) r in
    let latency = average fl (snd_of old) l in
    rw
      (
        record_sample-average fl old waiting r l,
        weaker-signal fl ratio latency,
        stronger-signal fl ratio latency,
      )
      (conclude-ladder fl ratio latency waiting (signal fl ratio latency) current)

decide_all-waiting :
    {F : Type 0} (fl : Float F) (old : Option (F × F)) (waiting : Signal)
    (samples : List (CompressionMode × CompressionMetrics))
    → decide_all fl (policy_of fl old waiting) samples ≡ ladder_all fl old waiting samples
decide_all-waiting fl old waiting [] = refl
decide_all-waiting fl old waiting ((current, m) ∷ samples) =
    let ratio = average fl (fst_of old) (compression_ratio fl m.logical_size m.wire_size) in
    let latency =
      average fl (snd_of old) (safe_latency_ratio fl m.prepare_latency m.write_latency) in
    let s = signal fl ratio latency in
    rw (decide-ladder fl old waiting current m) (
      ap (λ ds. ladder_decision waiting s current ratio latency ∷ ds)
        (decide_all-waiting fl (some (ratio, latency)) (next_waiting waiting s) samples))

-- On any samples, a new policy decides as the ladder does: it acts only on a signal of the averages that
-- the sample just before gave too and that was not acted on then, by one rung down or, up to
-- ZstdLevel1, one rung up; a neutral sample or the other signal starts anew. On ZstdDefault, a
-- repeated signal of either kind leads to ZstdLevel1.
pub decide_all-ladder_all :
    {F : Type 0} (fl : Float F) (samples : List (CompressionMode × CompressionMetrics))
    → decide_all fl (new_compression_policy fl) samples ≡ ladder_all fl none steady samples
decide_all-ladder_all fl samples = decide_all-waiting fl none steady samples
