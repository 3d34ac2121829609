-- ===== src/Admin/Revenue.antt =====
-- src/admin/admin.service.ts: `getRevenueAnalytics`. A label stands for the start of the day, week or
-- month that it is the text of.
use turf_sync.Prelude.{
  ℕ, zero, suc, ◌+◌, ◌*◌, Bool, ◌&&◌, none, some, List, [], ◌∷◌, leb, ltb, ◌==◌, if◌then◌else◌,
}
use turf_sync.Schema.{Db, Payment, Booking, is_paid}
use turf_sync.Date.{start_of_utc_day, start_of_utc_week, add_utc_days, sub_utc_days}
use turf_sync.Date.Months.{start_of_utc_month, add_utc_months, sub_utc_months}

pub data Period : Type 0 where
  daily weekly monthly : Period

-- `days`: how many periods are shown
abbrev pub periods : Period → ℕ
periods Period.daily = 30
periods Period.weekly = 12
periods Period.monthly = 12

-- `date_trunc`, on dates in UTC
abbrev pub date_trunc : Period → ℕ → ℕ
date_trunc Period.daily t = start_of_utc_day t
date_trunc Period.weekly t = start_of_utc_week t
date_trunc Period.monthly t = start_of_utc_month t

-- `n` periods earlier: `addUTCDays(t, -n)`, `addUTCDays(t, -n * 7)` and `addUTCMonths(t, -n)`
abbrev pub back : Period → ℕ → ℕ → ℕ
back Period.daily t n = sub_utc_days t n
back Period.weekly t n = sub_utc_days t (n * 7)
back Period.monthly t n = sub_utc_months t n

-- `rangeEndDate` and `rangeStartDate`
abbrev pub range_end : Period → ℕ → ℕ
range_end Period.daily now = add_utc_days (start_of_utc_day now) 1
range_end Period.weekly now = add_utc_days (start_of_utc_week now) 7
range_end Period.monthly now = add_utc_months (start_of_utc_month now) 1

abbrev pub range_start : Period → ℕ → ℕ
range_start p now = back p (range_end p now) (periods p)

abbrev pub in_range : ℕ → ℕ → ℕ → Bool
in_range from to t = leb from t && ltb t to

-- The rows that the two queries select: a time and an amount, or a time and 1.
unfoldable pub paid_rows : ℕ → ℕ → List Payment → List (ℕ × ℕ)
paid_rows from to [] = []
paid_rows from to (p ∷ ps) =
    let rest = paid_rows from to ps in
    elim p.paid_at [
      | none ↦ rest
      | some t ↦ if is_paid p.status && in_range from to t then (t, p.amount) ∷ rest else rest
    ]

unfoldable pub booking_rows : ℕ → ℕ → List Booking → List (ℕ × ℕ)
booking_rows from to [] = []
booking_rows from to (b ∷ bs) =
    let rest = booking_rows from to bs in
    if in_range from to b.created_at then (b.created_at, 1) ∷ rest else rest

-- `GROUP BY period`, with the sum of each group
unfoldable pub add_to_group : ℕ → ℕ → List (ℕ × ℕ) → List (ℕ × ℕ)
add_to_group k v [] = (k, v) ∷ []
add_to_group k v ((j, w) ∷ groups) =
    let rest = add_to_group k v groups in if j == k then (j, w + v) ∷ groups else (j, w) ∷ rest

unfoldable pub group_sums : (ℕ → ℕ) → List (ℕ × ℕ) → List (ℕ × ℕ)
group_sums trunc [] = []
group_sums trunc ((t, v) ∷ rows) = add_to_group (trunc t) v (group_sums trunc rows)

-- `map.get(label) || 0`
unfoldable pub value_of : ℕ → List (ℕ × ℕ) → ℕ
value_of label [] = 0
value_of label ((j, w) ∷ groups) =
    let rest = value_of label groups in if j == label then w else rest

pub record Point : Type 0 where
  pub label : ℕ
  pub revenue : ℕ
  pub bookings : ℕ

-- The loop from `i - 1` down to 0.
unfoldable pub points : Period → ℕ → ℕ → List (ℕ × ℕ) → List (ℕ × ℕ) → List Point
points p to zero revenues counts = []
points p to (suc i) revenues counts =
    record {
      label = back p (back p to i) 1;
      revenue = value_of (back p (back p to i) 1) revenues;
      bookings = value_of (back p (back p to i) 1) counts;
    }
    ∷ points p to i revenues counts

-- `getRevenueAnalytics`
unfoldable pub get_revenue_analytics : Period → ℕ → Db → List Point
get_revenue_analytics p now db =
    points p (range_end p now) (periods p)
      (group_sums (date_trunc p) (paid_rows (range_start p now) (range_end p now) db.payments))
      (group_sums (date_trunc p) (booking_rows (range_start p now) (range_end p now) db.bookings))
