-- ===== src/Date/Calendar.antt =====
-- src/common/utils/date.util.ts: what the month functions do to the calendar's day of a date.
use turf_sync.Prelude.{
  ℕ, zero, suc, ◌+◌, ◌-◌, ◌/◌, ◌%◌, ◌≤◌, ◌<◌, ◌≡◌, refl, ap, ◌∙◌, subst, inl, inr, arith, min, Bool,
  ltb, Bool-cases,
}
use turf_sync.Date.{ms_per_day}
use turf_sync.Date.Months.{
  is_leap, days_in, month_length, month_start, month_day_from, month_day, utc_month_day, date_at,
  start_of_utc_month, add_utc_months, at_month, sub_utc_months,
}

days_in-bounds : (leap : Bool) (k : ℕ) → (28 ≤ days_in leap k) × (days_in leap k ≤ 31)
days_in-bounds leap k = ground arith

pub month_length-bounds : (m : ℕ) → (28 ≤ month_length m) × (month_length m ≤ 31)
unfolding month_length
month_length-bounds m = days_in-bounds (is_leap (1970 + m / 12)) (m % 12)

-- The day of the month lies in the month, and is the day that was asked for.
month_day_from_lem :
    (fuel m d : ℕ)
    → d ≤ fuel
    → (month_start (month_day_from fuel m d).month + (month_day_from fuel m d).day
        ≡ month_start m + d)
      × ((month_day_from fuel m d).day < month_length (month_day_from fuel m d).month)
unfolding month_day_from month_start
month_day_from_lem zero m d h = let b = month_length-bounds m in (refl, omega arith)
month_day_from_lem (suc fuel) m d h = elim (Bool-cases (ltb d (month_length m))) [
  | inl t ↦ rw (t, month_day_from) (refl, ground arith)
  | inr f ↦
      let (b, _) = month_length-bounds m in
      let (e, k) = month_day_from_lem fuel (suc m) (d - month_length m) (ground arith) in
      let behind : month_length m ≤ d = ground arith in
      let sum : month_start m + month_length m + (d - month_length m) ≡ month_start m + d =
        omega arith in
      rw (f, month_day_from) (e ∙ sum, k)
]

month_start-later : (m k : ℕ) → month_start m + month_length m ≤ month_start (m + suc k)
unfolding month_start
month_start-later m zero =
    subst (λ x. month_start m + month_length m ≤ month_start x) {x = suc m} (omega arith)
      (omega arith)
month_start-later m (suc k) =
    let ih = month_start-later m k in
    subst (λ x. month_start m + month_length m ≤ month_start x) {x = suc (m + suc k)} (omega arith)
      (omega arith)

pub month_start-lt : (m n : ℕ) → m < n → month_start m + month_length m ≤ month_start n
month_start-lt m n h =
    let e : m + suc (n - m - 1) ≡ n = omega arith in
    subst (λ x. month_start m + month_length m ≤ month_start x) e (month_start-later m (n - m - 1))

-- A day lies in one month.
month_start_unique :
    (m d n e : ℕ)
    → d < month_length m
    → e < month_length n
    → month_start m + d ≡ month_start n + e
    → (m ≡ n) × (d ≡ e)
month_start_unique m d n e h k s = elim (Bool-cases (ltb m n)) [
  | inl t ↦ let later = month_start-lt m n (ground arith) in absurd (omega arith)
  | inr f ↦ elim (Bool-cases (ltb n m)) [
    | inl t ↦ let later = month_start-lt n m (ground arith) in absurd (omega arith)
    | inr g ↦
        let same : m ≡ n = ground arith in let starts = ap month_start same in (same, omega arith)
  ]
]

month_day-lem :
    (days : ℕ)
    → (month_start (month_day days).month + (month_day days).day ≡ days)
      × ((month_day days).day < month_length (month_day days).month)
unfolding month_day month_start
month_day-lem days =
    let (e, k) = month_day_from_lem days 0 days (omega arith) in
    let zero_plus : 0 + days ≡ days = omega arith in (e ∙ zero_plus, k)

month_day-month_start :
    (m d : ℕ)
    → d < month_length m
    → ((month_day (month_start m + d)).month ≡ m) × ((month_day (month_start m + d)).day ≡ d)
month_day-month_start m d h =
    let (e, k) = month_day-lem (month_start m + d) in
    month_start_unique (month_day (month_start m + d)).month (month_day (month_start m + d)).day m d
      k h e

-- The calendar's day of a date at a day of a month is that day.
utc_month_day-date_at :
    (m d time : ℕ)
    → d < month_length m
    → time < ms_per_day
    → ((utc_month_day (date_at m d time)).month ≡ m) × ((utc_month_day (date_at m d time)).day ≡ d)
utc_month_day-date_at m d time h k =
    let whole : (date_at m d time) / ms_per_day ≡ month_start m + d = omega arith in
    let (a, b) = month_day-month_start m d h in
    (ap (λ x. (month_day x).month) whole ∙ a, ap (λ x. (month_day x).day) whole ∙ b)

at_month_lem :
    (t target : ℕ)
    → ((utc_month_day (at_month t target)).month ≡ target)
      × ((utc_month_day (at_month t target)).day
          ≡ min (utc_month_day t).day (month_length target - 1))
      × (at_month t target % ms_per_day ≡ t % ms_per_day)
unfolding at_month
at_month_lem t target =
    let (b, _) = month_length-bounds target in
    let (p, q) =
      utc_month_day-date_at target (min (utc_month_day t).day (month_length target - 1))
        (t % ms_per_day) (omega arith) (omega arith) in
    (p, q, omega arith)

start_of_utc_month_lem :
    (t : ℕ)
    → (start_of_utc_month t ≤ t)
      × ((utc_month_day (start_of_utc_month t)).month ≡ (utc_month_day t).month)
      × ((utc_month_day (start_of_utc_month t)).day ≡ 0)
      × (start_of_utc_month t % ms_per_day ≡ 0)
unfolding start_of_utc_month
start_of_utc_month_lem t =
    let (e, k) = month_day-lem (t / ms_per_day) in
    let (b, _) = month_length-bounds (utc_month_day t).month in
    let (f, g) = utc_month_day-date_at (utc_month_day t).month 0 0 (omega arith) (omega arith) in
    (omega arith, f, g, omega arith)

-- A date at the first moment of a month is the start of that month.
at_month-start :
    (t target : ℕ)
    → (utc_month_day t).day ≡ 0
    → t % ms_per_day ≡ 0
    → at_month t target ≡ date_at target 0 0
unfolding at_month
at_month-start t target e k = omega arith

-- From the start of a month.
pub add_utc_months-date_at : (m n : ℕ) → add_utc_months (date_at m 0 0) n ≡ date_at (m + n) 0 0
unfolding add_utc_months
add_utc_months-date_at m n =
    let (b, _) = month_length-bounds m in
    let (f, g) = utc_month_day-date_at m 0 0 (omega arith) (omega arith) in
    at_month-start (date_at m 0 0) ((utc_month_day (date_at m 0 0)).month + n) g (omega arith)
    ∙ ap (λ x. date_at (x + n) 0 0) f

pub sub_utc_months-date_at : (m n : ℕ) → sub_utc_months (date_at m 0 0) n ≡ date_at (m - n) 0 0
unfolding sub_utc_months
sub_utc_months-date_at m n =
    let (b, _) = month_length-bounds m in
    let (f, g) = utc_month_day-date_at m 0 0 (omega arith) (omega arith) in
    at_month-start (date_at m 0 0) ((utc_month_day (date_at m 0 0)).month - n) g (omega arith)
    ∙ ap (λ x. date_at (x - n) 0 0) f

start_of_utc_month-back :
    (t n : ℕ) → sub_utc_months (add_utc_months (start_of_utc_month t) n) n ≡ start_of_utc_month t
unfolding start_of_utc_month
start_of_utc_month-back t n =
    let m = (utc_month_day t).month in
    let back : m + n - n ≡ m = omega arith in
    ap (λ x. sub_utc_months x n) (add_utc_months-date_at m n)
    ∙ sub_utc_months-date_at (m + n) n
    ∙ ap (λ x. date_at x 0 0) back

-- A date lies between the start of its month and that of the next one.
pub start_of_utc_month-bounds :
    (t : ℕ) → (start_of_utc_month t ≤ t) × (t < date_at ((utc_month_day t).month + 1) 0 0)
unfolding start_of_utc_month month_start
start_of_utc_month-bounds t =
    let (e, k) = month_day-lem (t / ms_per_day) in
    let m = (utc_month_day t).month in
    let next : month_start (m + 1) ≡ month_start m + month_length m =
      ap month_start (let q : m + 1 ≡ suc m = omega arith in q) in
    (omega arith, omega arith)

-- The month, the day and the time of day of a date make up that date. `startOfUTCMonth` is the first
-- moment of its month, and no later than it. `addUTCMonths` leads to the month that many months later,
-- at the same time of the same day or, where that month is shorter, of its last day. From the start of
-- a month, `addUTCMonths` with a number of months and then with its negation leads back to it.
pub add_utc_months_lem :
    (t n : ℕ)
    → (date_at (utc_month_day t).month (utc_month_day t).day (t % ms_per_day) ≡ t)
      × (start_of_utc_month t ≤ t)
      × ((utc_month_day (start_of_utc_month t)).month ≡ (utc_month_day t).month)
      × ((utc_month_day (start_of_utc_month t)).day ≡ 0)
      × (start_of_utc_month t % ms_per_day ≡ 0)
      × ((utc_month_day (add_utc_months t n)).month ≡ (utc_month_day t).month + n)
      × ((utc_month_day (add_utc_months t n)).day
          ≡ min (utc_month_day t).day (month_length ((utc_month_day t).month + n) - 1))
      × (add_utc_months t n % ms_per_day ≡ t % ms_per_day)
      × (sub_utc_months (add_utc_months (start_of_utc_month t) n) n ≡ start_of_utc_month t)
unfolding add_utc_months sub_utc_months
add_utc_months_lem t n =
    let (e, k) = month_day-lem (t / ms_per_day) in
    let (early, f, g, whole) = start_of_utc_month_lem t in
    let (p, q, r) = at_month_lem t ((utc_month_day t).month + n) in
    (omega arith, early, f, g, whole, p, q, r, start_of_utc_month-back t n)
