-- ===== src/Clock.antt =====
-- Times and durations of Go's package `time`, in nanoseconds. A time counts from Go's zero time,
-- which `IsZero` tests for; `Sub` saturates at the ends of `int64`.
use dialtone_watcher.Prelude.{
  ℕ, ◌+◌, ◌-◌, ◌^◌, ◌<◌, min, Bool, true, ◌≡◌, nat_beq, leb, if◌then◌else◌, arith,
}
use dialtone_watcher.Prelude.Int.{ℤ, pos, negsuc, quot, ltb_ℤ}

abbrev pub Time : Type 0
Time = ℕ

abbrev pub Duration : Type 0
Duration = ℤ

abbrev pub second : ℕ
second = 1_000_000_000

abbrev pub max_duration : ℕ
max_duration = 2 ^ 63 - 1

abbrev pub is_zero : Time → Bool
is_zero t = nat_beq t 0

-- `t.Sub(u)`
unfoldable pub sub : Time → Time → Duration
sub t u = if leb u t then pos (min (t - u) max_duration) else negsuc (min (u - t - 1) max_duration)

-- `int64(d / time.Second)`
unfoldable pub whole_seconds : Duration → ℤ
whole_seconds d = quot d second

-- Below the saturation point a comparison of a difference with a positive bound is exact.
pub sub-exceeds :
    (t u bound : ℕ) → bound < max_duration → (ltb_ℤ (pos bound) (sub t u) ≡ true) → u + bound < t
unfolding sub
sub-exceeds t u bound fits h = ground arith
