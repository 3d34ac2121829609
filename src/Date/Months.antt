-- ===== src/Date/Months.antt =====
-- src/common/utils/date.util.ts: `startOfUTCMonth` and `addUTCMonths`, on the Gregorian calendar that
-- JavaScript dates have. A month is its number since January 1970, and a day of it counts from 0.
use turf_sync.Prelude.{
  ℕ, zero, suc, ◌+◌, ◌*◌, ◌-◌, ◌/◌, ◌%◌, min, Bool, not, ◌&&◌, ◌||◌, ltb, ◌==◌, if◌then◌else◌,
}
use turf_sync.Date.{ms_per_day}

abbrev pub is_leap : ℕ → Bool
is_leap y = y % 4 == 0 && (not (y % 100 == 0) || y % 400 == 0)

-- The days of the month `k`, from 0, of a year.
abbrev pub days_in : Bool → ℕ → ℕ
days_in leap k =
    if k == 1
    then (if leap then 29 else 28)
    else if k == 3 || (k == 5 || (k == 8 || k == 10))
    then 30
    else 31

-- `new Date(Date.UTC(year, month + 1, 0)).getUTCDate()`
unfoldable pub month_length : ℕ → ℕ
month_length m = days_in (is_leap (1970 + m / 12)) (m % 12)

-- The number of the first day of a month, since 1970.
unfoldable pub month_start : ℕ → ℕ
month_start zero = 0
month_start (suc m) = month_start m + month_length m

-- A day of a month.
pub record MonthDay : Type 0 where
  pub month : ℕ
  pub day : ℕ

-- The day that is `d` days behind the first of the month `m`; a month has days, so `d` rounds are
-- enough.
unfoldable pub month_day_from : ℕ → ℕ → ℕ → MonthDay
month_day_from zero m d = record { month = m; day = d }
month_day_from (suc fuel) m d =
    let later = month_day_from fuel (suc m) (d - month_length m) in
    if ltb d (month_length m) then record { month = m; day = d } else later

unfoldable pub month_day : ℕ → MonthDay
month_day days = month_day_from days 0 days

-- `getUTCMonth` with the year, and `getUTCDate() - 1`
abbrev pub utc_month_day : ℕ → MonthDay
utc_month_day t = month_day (t / ms_per_day)

-- The date of a day of a month, at a time of day.
abbrev pub date_at : ℕ → ℕ → ℕ → ℕ
date_at month day time = (month_start month + day) * ms_per_day + time

-- `startOfUTCMonth`
unfoldable pub start_of_utc_month : ℕ → ℕ
start_of_utc_month t = date_at (utc_month_day t).month 0 0

-- The same time of the same day of the month `target`, or of its last day where it is shorter.
unfoldable pub at_month : ℕ → ℕ → ℕ
at_month t target =
    date_at target (min (utc_month_day t).day (month_length target - 1)) (t % ms_per_day)

-- `addUTCMonths`, with `n` from 0
unfoldable pub add_utc_months : ℕ → ℕ → ℕ
add_utc_months t n = at_month t ((utc_month_day t).month + n)

-- `addUTCMonths` with `-n`, for results from January 1970 on
unfoldable pub sub_utc_months : ℕ → ℕ → ℕ
sub_utc_months t n = at_month t ((utc_month_day t).month - n)
