-- ===== src/Base/Time.antt =====
-- time.Time and time.Duration. An instant is the number of nanoseconds since an origin before every
-- instant that the program sees; a duration is a signed 64-bit number of nanoseconds.
use obsideo_provider.Base.Tests.{ltb, leb, if◌then◌else◌}
use obsideo_provider.Base.Int.{ℤ, pos, negsuc, sub_ℕ, ltb_ℤ}
use Prim.Native.Nat.{ℕ, ◌+◌, ◌-◌, ◌%◌, ◌^◌, ◌<◌, ◌≤◌}
use mathlib.Core.Path.{◌≡◌}
use mathlib.Core.Bool.{Bool}
use native.Mathlib.Omega.{arith}

abbrev pub Time : Type 0
Time = ℕ

abbrev pub Duration : Type 0
Duration = ℤ

-- math.MaxInt64
abbrev pub max_duration : ℕ
max_duration = 9223372036854775807

-- t.After(u), t.Before(u)
abbrev pub after : Time → Time → Bool
after t u = ltb u t

abbrev pub before : Time → Time → Bool
before t u = ltb t u

-- t.Sub(u): the difference, held within the range of a duration.
unfoldable pub sub : Time → Time → Duration
sub t u = elim (sub_ℕ t u) [
  | pos n ↦ pos (if leb n max_duration then n else max_duration)
  | negsuc n ↦ negsuc (if leb n max_duration then n else max_duration)
]

-- d < e for durations
abbrev pub shorter : Duration → Duration → Bool
shorter = ltb_ℤ

-- Conversion of an integer to int64: the low 64 bits, in two's complement.
unfoldable pub to_int64 : ℤ → ℤ
to_int64 (pos n) = let r = n % 2 ^ 64 in if ltb r (2 ^ 63) then pos r else negsuc (2 ^ 64 - 1 - r)
to_int64 (negsuc n) =
    let r = n % 2 ^ 64 in if ltb r (2 ^ 63) then negsuc r else pos (2 ^ 64 - 1 - r)

-- Less than a positive duration has passed since u exactly when t is before u + d.
pub shorter-sub : (t u d : ℕ) → 0 < d → d ≤ max_duration → shorter (sub t u) (pos d) ≡ ltb t (u + d)
unfolding sub
shorter-sub t u d h k = ground arith
