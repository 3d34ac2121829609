-- ===== src/Admin/Periods.antt =====
-- src/admin/admin.service.ts: the periods of `getRevenueAnalytics`, and the rows that fall into them.
use turf_sync.Prelude.{
  ℕ, ◌+◌, ◌*◌, ◌≤◌, ◌<◌, ◌≡◌, refl, ap, ◌∙◌, arith, List, [], ◌∷◌, ◌==◌, if◌then◌else◌, All, ◌-◌,
  ◌/◌, Bool-cases, inl, inr, leb, ltb, ==_iff,
}
use turf_sync.Date.{
  ms_per_day, start_of_utc_day, start_of_utc_week, utc_day, sub_utc_days, add_utc_days,
}
use turf_sync.Date.Months.{date_at, month_start, month_length, utc_month_day, start_of_utc_month}
use turf_sync.Date.Calendar.{
  month_start-lt, month_length-bounds, sub_utc_months-date_at, add_utc_months-date_at,
  start_of_utc_month-bounds,
}
use turf_sync.Admin.Revenue.{
  Period, date_trunc, back, range_end, periods, in_range, add_to_group, group_sums, value_of,
}

-- The rows of the groups between two dates, added up.
abbrev pub sum_between : (ℕ → ℕ) → ℕ → ℕ → List (ℕ × ℕ) → ℕ
sum_between trunc from to [] = 0
sum_between trunc from to ((t, v) ∷ rows) =
    let rest = sum_between trunc from to rows in
    if in_range from to (trunc t) then v + rest else rest

abbrev pub sum_at : (ℕ → ℕ) → ℕ → List (ℕ × ℕ) → ℕ
sum_at trunc k [] = 0
sum_at trunc k ((t, v) ∷ rows) =
    let rest = sum_at trunc k rows in if trunc t == k then v + rest else rest

value_of-add_to_group :
    (label k v : ℕ) (groups : List (ℕ × ℕ))
    → value_of label (add_to_group k v groups)
      ≡ (if k == label then v + value_of label groups else value_of label groups)
unfolding value_of add_to_group
value_of-add_to_group label k v [] = ground arith
value_of-add_to_group label k v ((j, w) ∷ groups) =
    ground (arith, value_of-add_to_group label k v groups)

pub value_of-group_sums :
    (trunc : ℕ → ℕ) (label : ℕ) (rows : List (ℕ × ℕ))
    → value_of label (group_sums trunc rows) ≡ sum_at trunc label rows
unfolding group_sums value_of
value_of-group_sums trunc label [] = refl
value_of-group_sums trunc label ((t, v) ∷ rows) =
    value_of-add_to_group label (trunc t) v (group_sums trunc rows)
    ∙ ap (λ n. if trunc t == label then v + n else n) (value_of-group_sums trunc label rows)

-- The first moment of the period `k`: the days and the months counted from 1 January 1970, the weeks
-- from the first Monday.
unfoldable pub period_start : Period → ℕ → ℕ
period_start Period.daily k = k * ms_per_day
period_start Period.weekly k = (4 + 7 * k) * ms_per_day
period_start Period.monthly k = date_at k 0 0

pub period_start-lt : (p : Period) (j k : ℕ) → j < k → period_start p j < period_start p k
unfolding period_start
period_start-lt Period.daily j k h = omega arith
period_start-lt Period.weekly j k h = omega arith
period_start-lt Period.monthly j k h =
    let later = month_start-lt j k h in let (b, _) = month_length-bounds j in omega arith

pub period_start-le : (p : Period) (j k : ℕ) → j ≤ k → period_start p j ≤ period_start p k
period_start-le p j k h = elim (Bool-cases (j == k)) [
  | inl y ↦ let e = ap (period_start p) ((==_iff j k).0 y) in omega arith
  | inr n ↦ let l = period_start-lt p j k (ground arith) in omega arith
]

period_start-le_back : (p : Period) (j k : ℕ) → period_start p j < period_start p (k + 1) → j ≤ k
period_start-le_back p j k h = elim (Bool-cases (leb j k)) [
  | inl y ↦ ground arith
  | inr n ↦ let l = period_start-le p (k + 1) j (ground arith) in absurd (omega arith)
]

-- `n` periods before a start, as the code steps back.
pub back-period_start :
    (p : Period) (k n : ℕ) → n ≤ k → back p (period_start p k) n ≡ period_start p (k - n)
unfolding period_start sub_utc_days
back-period_start Period.daily k n h = omega arith
back-period_start Period.weekly k n h = omega arith
back-period_start Period.monthly k n h = sub_utc_months-date_at k n

-- The period that a date lies in, from the first Monday of 1970 on.
pub date_trunc-period :
    (p : Period) (t : ℕ)
    → 4 * ms_per_day ≤ t
    → (k : ℕ) × (date_trunc p t ≡ period_start p k)
      × (period_start p k ≤ t)
      × (t < period_start p (k + 1))
unfolding period_start start_of_utc_day start_of_utc_week utc_day sub_utc_days start_of_utc_month
date_trunc-period Period.daily t h = (t / ms_per_day, omega arith, omega arith, omega arith)
date_trunc-period Period.weekly t h =
    ((t / ms_per_day - 4) / 7, ground arith, omega arith, omega arith)
date_trunc-period Period.monthly t h =
    let (b, c) = start_of_utc_month-bounds t in ((utc_month_day t).month, refl, b, c)

-- The end of the range is a start, with the periods shown and the first days of 1970 before it.
pub range_end-period :
    (p : Period) (now : ℕ)
    → 400 * ms_per_day ≤ now
    → (k : ℕ) × (range_end p now ≡ period_start p k)
      × (periods p ≤ k)
      × (4 * ms_per_day ≤ period_start p (k - periods p))
unfolding period_start start_of_utc_day start_of_utc_week utc_day sub_utc_days add_utc_days
    start_of_utc_month month_start month_length
range_end-period Period.daily now h = (now / ms_per_day + 1, omega arith, omega arith, omega arith)
range_end-period Period.weekly now h =
    ((now / ms_per_day - 4) / 7 + 1, ground arith, omega arith, omega arith)
range_end-period Period.monthly now h =
    let m = (utc_month_day now).month in
    let (_, before) = start_of_utc_month-bounds now in
    let year : 13 ≤ m = elim (Bool-cases (leb 13 m)) [
      | inl y ↦ ground arith
      | inr n ↦
          let early = period_start-le Period.monthly (m + 1) 13 (ground arith) in
          let days : date_at 13 0 0 ≡ 396 * ms_per_day = refl in absurd (omega arith)
    ] in
    let late = period_start-le Period.monthly 2 (m + 1 - 12) (omega arith) in
    let days : date_at 2 0 0 ≡ 59 * ms_per_day = refl in
    (m + 1, add_utc_months-date_at m 1, omega arith, omega arith)

-- Rows of the time from the first Monday of 1970 on, between two dates.
abbrev pub AreWithin : ℕ → ℕ → List (ℕ × ℕ) → Type 0
AreWithin from to rows = All (λ (t, v). (4 * ms_per_day ≤ t) × (from ≤ t) × (t < to)) rows

abbrev pub total : List (ℕ × ℕ) → ℕ
total [] = 0
total ((t, v) ∷ rows) = v + total rows

module _ (p : Period) where
  pub sum_between-split :
      (from to q : ℕ) (rows : List (ℕ × ℕ))
      → AreWithin from to rows
      → period_start p (q + 1) ≤ to
      → sum_between (date_trunc p) (period_start p q) to rows
        ≡ sum_at (date_trunc p) (period_start p q) rows
          + sum_between (date_trunc p) (period_start p (q + 1)) to rows
  sum_between-split from to q [] w h = refl
  sum_between-split from to q ((t, v) ∷ rows) ((fits, _, _), w) h =
      let ih = sum_between-split from to q rows w h in
      let (k, e, _, _) = date_trunc-period p t fits in
      let step = period_start-lt p q (q + 1) (omega arith) in
      elim (Bool-cases (ltb k q)) [
        | inl earlier ↦
            let before = period_start-lt p k q (ground arith) in ground (arith, ih, e, before, step)
        | inr late ↦ elim (Bool-cases (k == q)) [
          | inl same ↦
              let at : period_start p k ≡ period_start p q =
                ap (period_start p) ((==_iff k q).0 same) in
              ground (arith, ih, e, at, step, h)
          | inr other ↦
              let behind = period_start-le p (q + 1) k (ground arith) in
              ground (arith, ih, e, behind, step)
        ]
      ]

  pub sum_between-empty : (to : ℕ) (rows : List (ℕ × ℕ)) → sum_between (date_trunc p) to to rows ≡ 0
  sum_between-empty to [] = refl
  sum_between-empty to ((t, v) ∷ rows) = ground (arith, sum_between-empty to rows)

  pub sum_between-total :
      (q to : ℕ) (rows : List (ℕ × ℕ))
      → AreWithin (period_start p q) to rows
      → sum_between (date_trunc p) (period_start p q) to rows ≡ total rows
  sum_between-total q to [] w = refl
  sum_between-total q to ((t, v) ∷ rows) ((fits, h, k), w) =
      let ih = sum_between-total q to rows w in
      let (j, e, below, above) = date_trunc-period p t fits in
      let least = period_start-le p q j (period_start-le_back p q j (omega arith)) in
      ground (arith, ih, below, least, e, h, k)
