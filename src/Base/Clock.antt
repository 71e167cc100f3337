-- ===== src/Base/Clock.antt =====
-- time.Time and time.Duration. A time is its number of nanoseconds since January 1 of year 1, the
-- zero time, and is not before it; a duration is a signed 64-bit number of nanoseconds.
use Prim.Native.Nat.{ℕ, ◌-◌, ◌^◌}
use mathlib.Core.Bool.{Bool, true, false}
use aisphere_kit.Base.Tests.{eqb, leb, ltb, if◌then◌else◌}

-- `negsuc n` is -(n + 1).
pub data ℤ : Type 0 where
  pos : ℕ → ℤ
  negsuc : ℕ → ℤ

abbrev pub Time : Type 0
Time = ℕ

abbrev pub is_zero_time : Time → Bool
is_zero_time t = eqb t 0

-- The test `d <= 0`.
abbrev pub not_positive : ℤ → Bool
not_positive (pos n) = eqb n 0
not_positive (negsuc n) = true

-- The test `d == 0`.
abbrev pub is_zero_int : ℤ → Bool
is_zero_int (pos n) = eqb n 0
is_zero_int (negsuc n) = false

abbrev pub max_duration : ℕ
max_duration = 2 ^ 63 - 1

-- t.Sub(u): the difference, saturated to 64 bits.
unfoldable pub time_sub : Time → Time → ℤ
time_sub t u =
    if leb u t
    then pos (if ltb max_duration (t - u) then max_duration else t - u)
    else negsuc (if ltb max_duration (u - t - 1) then max_duration else u - t - 1)

-- time.Now reads the world.
pub record Clock (W : Type 0) : Type 0 where
  pub now : W → Time × W

abbrev pub millisecond : ℕ
millisecond = 1_000_000

abbrev pub second : ℕ
second = 1_000_000_000
