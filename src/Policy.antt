-- ===== src/Policy.antt =====
-- The adaptive compression policy, internal/filexfer/policy/policy.go. float64 is a parameter: a
-- type with the operations that the policy uses, and its literals.
pub mod Hysteresis
use tx.Base.{
  ℕ, ◌+◌, ◌<◌, ◌≡◌, refl, sym, ◌⊎◌, inl, inr, Bool, true, false, ◌&&◌, ◌||◌, not, if◌then◌else◌,
  leb, arith, Bool-cases, leb→le,
}
use tx.Base.Int.{ℤ, pos, leb_ℤ}

pub data CompressionMode : Type 0 where
  zstd_default zstd_level1 lz4 none_mode : CompressionMode

pub record Float (F : Type 0) : Type 0 where
  pub lt : F → F → Bool
  pub ge : F → F → Bool
  pub add : F → F → F
  pub mul : F → F → F
  pub div : F → F → F
  pub of_int : ℤ → F
  pub nought : F
  pub one : F
  pub huge : F
  pub ema_alpha : F
  pub ema_rest : F
  pub down_ratio_cut : F
  pub down_read_over_write_cut : F
  pub up_read_over_write_cut : F

abbrev pub hyst_streak : ℕ
hyst_streak = 2

pub record CompressionMetrics : Type 0 where
  pub logical_size : ℤ
  pub wire_size : ℤ
  pub prepare_latency : ℤ
  pub write_latency : ℤ

pub record CompressionPolicy (F : Type 0) : Type 0 where
  pub ema_ratio : F
  pub ema_read_over_write : F
  pub ema_initialized : Bool
  pub downgrade_streak : ℕ
  pub upgrade_streak : ℕ

-- The zero value.
abbrev pub new_compression_policy : {F : Type 0} → Float F → CompressionPolicy F
new_compression_policy fl = record {
  ema_ratio = fl.nought;
  ema_read_over_write = fl.nought;
  ema_initialized = false;
  downgrade_streak = 0;
  upgrade_streak = 0;
}

pub data Reason : Type 0 where
  hold downgraded upgraded : Reason

pub record CompressionDecision (F : Type 0) : Type 0 where
  pub next : CompressionMode
  pub reason : Reason
  pub ratio : F
  pub read_over_write : F

abbrev pub downgrade_mode : CompressionMode → CompressionMode
downgrade_mode zstd_default = zstd_level1
downgrade_mode zstd_level1 = lz4
downgrade_mode lz4 = none_mode
downgrade_mode none_mode = none_mode

abbrev pub upgrade_mode : CompressionMode → CompressionMode
upgrade_mode none_mode = lz4
upgrade_mode lz4 = zstd_level1
upgrade_mode m = zstd_level1

abbrev pub mode_eq : CompressionMode → CompressionMode → Bool
mode_eq zstd_default zstd_default = true
mode_eq zstd_level1 zstd_level1 = true
mode_eq lz4 lz4 = true
mode_eq none_mode none_mode = true
mode_eq a b = false

module _ {F : Type 0} (fl : Float F) where
  pub compression_ratio : ℤ → ℤ → F
  compression_ratio logical_size wire_size =
      if leb_ℤ wire_size (pos 0)
      then fl.nought
      else fl.div (fl.of_int logical_size) (fl.of_int wire_size)

  pub safe_latency_ratio : ℤ → ℤ → F
  safe_latency_ratio prepare write =
      if leb_ℤ write (pos 0)
      then (if leb_ℤ prepare (pos 0) then fl.one else fl.huge)
      else (if leb_ℤ prepare (pos 0)
          then fl.nought
          else fl.div (fl.of_int prepare) (fl.of_int write))

  pub record_sample : CompressionPolicy F → F → F → CompressionPolicy F
  record_sample p ratio read_over_write =
      if not p.ema_initialized
      then record p {
        ema_ratio = ratio;
        ema_read_over_write = read_over_write;
        ema_initialized = true;
      }
      else record p {
        ema_ratio = fl.add (fl.mul fl.ema_alpha ratio) (fl.mul fl.ema_rest p.ema_ratio);
        ema_read_over_write =
            fl.add (fl.mul fl.ema_alpha read_over_write) (fl.mul fl.ema_rest p.ema_read_over_write);
      }

  pub should_upgrade : F → Bool
  should_upgrade avg = if fl.ge avg fl.up_read_over_write_cut then false else true

-- The streaks after a sample's signals.
pub update_streaks :
    {F : Type 0} → (upgrade downgrade : Bool) → CompressionPolicy F → CompressionPolicy F
update_streaks upgrade downgrade p =
    if downgrade
    then record p { downgrade_streak = p.downgrade_streak + 1; upgrade_streak = 0 }
    else (if upgrade
        then record p { upgrade_streak = p.upgrade_streak + 1; downgrade_streak = 0 }
        else record p { downgrade_streak = 0; upgrade_streak = 0 })

abbrev pub moved :
    {F : Type 0}
    → CompressionMode
    → CompressionMode
    → Reason
    → CompressionDecision F
    → CompressionDecision F
moved current next reason d =
    if mode_eq next current then d else record d { next = next; reason = reason }

-- The first test of a streak that is long enough.
pub settle_downgrade :
    {F : Type 0}
    → CompressionMode
    → CompressionPolicy F × CompressionDecision F
    → CompressionPolicy F × CompressionDecision F
settle_downgrade current (p, d) =
    if leb hyst_streak p.downgrade_streak
    then (record p { downgrade_streak = 0 }, moved current (downgrade_mode current) downgraded d)
    else (p, d)

-- The second.
pub settle_upgrade :
    {F : Type 0}
    → CompressionMode
    → CompressionPolicy F × CompressionDecision F
    → CompressionPolicy F × CompressionDecision F
settle_upgrade current (p, d) =
    if leb hyst_streak p.upgrade_streak
    then (record p { upgrade_streak = 0 }, moved current (upgrade_mode current) upgraded d)
    else (p, d)

abbrev pub held : {F : Type 0} → CompressionPolicy F → CompressionMode → CompressionDecision F
held p current = record {
  next = current;
  reason = hold;
  ratio = p.ema_ratio;
  read_over_write = p.ema_read_over_write;
}

-- What follows the signals in `Decide`.
pub conclude :
    {F : Type 0}
    → (upgrade downgrade : Bool) → CompressionPolicy F
    → CompressionMode
    → CompressionPolicy F × CompressionDecision F
unfolding update_streaks settle_downgrade settle_upgrade
conclude upgrade downgrade p current =
    let p₁ = update_streaks upgrade downgrade p in
    settle_upgrade current (settle_downgrade current (p₁, held p current))

module _ {F : Type 0} (fl : Float F) where
  pub decide :
      CompressionPolicy F
      → CompressionMode
      → CompressionMetrics
      → CompressionPolicy F × CompressionDecision F
  unfolding conclude
  decide p current m =
      let ratio = compression_ratio fl m.logical_size m.wire_size in
      let read_over_write = safe_latency_ratio fl m.prepare_latency m.write_latency in
      let p₀ = record_sample fl p ratio read_over_write in
      let upgrade = should_upgrade fl p₀.ema_read_over_write in
      let downgrade =
        not upgrade
        && (fl.lt p₀.ema_ratio fl.down_ratio_cut
            || fl.lt fl.down_read_over_write_cut p₀.ema_read_over_write) in
      conclude upgrade downgrade p₀ current
