-- ===== src/Gc/Config.antt =====
-- gc/config.go: the three intervals, in hours, and their conversion to durations.
use obsideo_provider.Base.{
  ℕ, ◌*◌, ◌≤◌, ◌≡◌, Bool, false, arith, ltb, not, if◌then◌else◌, Result, ok, err,
}
use obsideo_provider.Base.Int.{ℤ, pos, negsuc, ◌*ℤ◌}
use obsideo_provider.Base.Time.{Duration, to_int64}

-- The fields are Go integers, which may be negative.
pub record Config : Type 0 where
  pub enabled : Bool
  pub retention_non_contracted_hours : ℤ
  pub quarantine_hours : ℤ
  pub sweep_interval_hours : ℤ

abbrev pub default_retention_non_contracted_hours : ℤ
default_retention_non_contracted_hours = pos 48

abbrev pub default_quarantine_hours : ℤ
default_quarantine_hours = pos 6

abbrev pub default_sweep_interval_hours : ℤ
default_sweep_interval_hours = pos 6

-- `if x == 0 { x = default }`
abbrev pub or_default : ℤ → ℤ → ℤ
or_default (pos n) d = if ltb 0 n then pos n else d
or_default (negsuc n) d = negsuc n

unfoldable pub apply_defaults : Config → Config
apply_defaults c = record {
  enabled = c.enabled;
  retention_non_contracted_hours =
      or_default c.retention_non_contracted_hours default_retention_non_contracted_hours;
  quarantine_hours = or_default c.quarantine_hours default_quarantine_hours;
  sweep_interval_hours = or_default c.sweep_interval_hours default_sweep_interval_hours;
}

pub data ConfigError : Type 0 where
  bad_retention bad_quarantine bad_sweep_interval : ConfigError

abbrev pub positive : ℤ → Bool
positive (pos n) = ltb 0 n
positive (negsuc n) = false

unfoldable pub validate : Config → Result ConfigError (Unit {0})
validate c =
    if not c.enabled
    then ok tt
    else if not (positive c.retention_non_contracted_hours)
    then err bad_retention
    else if not (positive c.quarantine_hours)
    then err bad_quarantine
    else if not (positive c.sweep_interval_hours)
    then err bad_sweep_interval
    else ok tt

-- time.Hour
abbrev pub hour : ℕ
hour = 3600000000000

-- `time.Duration(h) * time.Hour`: the product wraps around as an int64.
unfoldable pub hours : ℤ → Duration
unfolding to_int64 ◌*ℤ◌
hours h = to_int64 (h *ℤ pos hour)

unfoldable pub retention_non_contracted : Config → Duration
unfolding hours
retention_non_contracted c = hours c.retention_non_contracted_hours

unfoldable pub quarantine : Config → Duration
unfolding hours
quarantine c = hours c.quarantine_hours

unfoldable pub sweep_interval : Config → Duration
unfolding hours
sweep_interval c = hours c.sweep_interval_hours

-- The largest number of hours that a duration can hold.
abbrev pub max_hours : ℕ
max_hours = 2562047

-- Up to that many hours the conversion is exact.
pub hours_exact : (n : ℕ) → n ≤ max_hours → hours (pos n) ≡ pos (n * hour)
unfolding hours
hours_exact n h = ground arith
