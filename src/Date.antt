-- ===== src/Date.antt =====
-- The JavaScript dates that the services compute with: milliseconds since 1970, in UTC.
pub mod Months
pub mod Calendar
use turf_sync.Prelude.{ℕ, ◌+◌, ◌*◌, ◌-◌, ◌/◌, ◌%◌, ◌==◌, if◌then◌else◌}

abbrev pub ms_per_minute : ℕ
ms_per_minute = 60000

abbrev pub ms_per_hour : ℕ
ms_per_hour = 3600000

abbrev pub ms_per_day : ℕ
ms_per_day = 86400000

-- `date.setUTCHours(0, 0, 0, 0)`
unfoldable pub start_of_utc_day : ℕ → ℕ
start_of_utc_day t = t - t % ms_per_day

-- `date.setUTCHours(h, m, 0, 0)`: hours past 24 run on into later days
unfoldable pub set_utc_hours : ℕ → ℕ → ℕ → ℕ
unfolding start_of_utc_day
set_utc_hours t h m = start_of_utc_day t + h * ms_per_hour + m * ms_per_minute

-- `date.setUTCDate(date.getUTCDate() + n)`, with `n` from 0
unfoldable pub add_utc_days : ℕ → ℕ → ℕ
add_utc_days t n = t + n * ms_per_day

-- `date.setUTCDate(date.getUTCDate() - n)`, for dates from 1970 on
unfoldable pub sub_utc_days : ℕ → ℕ → ℕ
sub_utc_days t n = t - n * ms_per_day

-- `date.getUTCDay()`: 1970 began on a Thursday
unfoldable pub utc_day : ℕ → ℕ
utc_day t = (t / ms_per_day + 4) % 7

-- `startOfUTCWeek`: the Monday, for dates from the first Monday of 1970 on
unfoldable pub start_of_utc_week : ℕ → ℕ
unfolding start_of_utc_day utc_day sub_utc_days
start_of_utc_week t =
    let day = utc_day (start_of_utc_day t) in
    sub_utc_days (start_of_utc_day t) (if day == 0 then 6 else day - 1)
