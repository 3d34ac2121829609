-- ===== src/Admin/Totals.antt =====
-- src/admin/admin.service.ts: the periods of `getRevenueAnalytics` add up.
use turf_sync.Prelude.{
  ℕ, zero, suc, ◌+◌, ◌*◌, ◌-◌, ◌≤◌, ◌<◌, ◌≡◌, refl, sym, ap, ◌∙◌, arith, ◌&&◌, true, none, some,
  List, [], ◌∷◌, if◌then◌else◌, Bool-cases, Option-cases, inl, inr,
}
use turf_sync.Schema.{Db, Payment, Booking, is_paid}
use turf_sync.Table.{count, find_many}
use turf_sync.Date.{ms_per_day}
use turf_sync.Admin.Revenue.{
  Period, periods, date_trunc, back, range_end, range_start, in_range, paid_rows, booking_rows,
  group_sums, value_of, Point, points, get_revenue_analytics,
}
use turf_sync.Admin.Periods.{
  sum_between, sum_at, value_of-group_sums, period_start, period_start-le, back-period_start,
  range_end-period, AreWithin, total, sum_between-split, sum_between-empty, sum_between-total,
}

abbrev pub sum_of : (Point → ℕ) → List Point → ℕ
sum_of f [] = 0
sum_of f (x ∷ xs) = f x + sum_of f xs

module _ (p : Period) (from k : ℕ) where
  -- The values of the points, by a field that reads the groups of `rows`.
  points-sum :
      (f : Point → ℕ) (rows revenues counts : List (ℕ × ℕ))
      → ((label : ℕ)
          → f (record {
            label = label;
            revenue = value_of label revenues;
            bookings = value_of label counts;
          })
            ≡ value_of label (group_sums (date_trunc p) rows))
      → AreWithin from (period_start p k) rows
      → (n : ℕ) → n ≤ k
      → sum_of f (points p (period_start p k) n revenues counts)
        ≡ sum_between (date_trunc p) (period_start p (k - n)) (period_start p k) rows
  unfolding points
  points-sum f rows revenues counts reads w zero h =
      let whole : k ≡ k - 0 = omega arith in
      sym (sum_between-empty p (period_start p k) rows)
      ∙ ap (λ z. sum_between (date_trunc p) (period_start p z) (period_start p k) rows) whole
  points-sum f rows revenues counts reads w (suc n) h =
      let to = period_start p k in
      let q = k - suc n in
      let ih = points-sum f rows revenues counts reads w n (omega arith) in
      let label : back p (back p to n) 1 ≡ period_start p q =
        ap (λ x. back p x 1) (back-period_start p k n (omega arith))
        ∙ back-period_start p (k - n) 1 (omega arith)
        ∙ ap (period_start p) (let e : k - n - 1 ≡ q = omega arith in e) in
      let next : q + 1 ≡ k - n = omega arith in
      let split =
        sum_between-split p from to q rows w (period_start-le p (q + 1) k (omega arith)) in
      let at =
        reads (back p (back p to n) 1)
        ∙ value_of-group_sums (date_trunc p) (back p (back p to n) 1) rows in
      let rest = λ (z : ℕ). sum_between (date_trunc p) (period_start p z) to rows in
      ap (λ z. z + sum_of f (points p to n revenues counts)) at
      ∙ ap (λ z. sum_at (date_trunc p) z rows + sum_of f (points p to n revenues counts)) label
      ∙ ap (λ z. sum_at (date_trunc p) (period_start p q) rows + z) (ih ∙ ap rest (sym next))
      ∙ sym split

-- The amounts of the payments that are PAID and were paid between two dates, added up.
unfoldable pub paid_between : ℕ → ℕ → List Payment → ℕ
paid_between from to [] = 0
paid_between from to (p ∷ ps) =
    let rest = paid_between from to ps in
    elim p.paid_at [
      | none ↦ rest
      | some t ↦ if is_paid p.status && in_range from to t then p.amount + rest else rest
    ]

within :
    (from to t : ℕ)
    → in_range from to t ≡ true
    → 4 * ms_per_day ≤ from
    → (4 * ms_per_day ≤ t) × (from ≤ t) × (t < to)
within from to t e h = ground arith

paid_rows-total :
    (from to : ℕ) (ps : List Payment)
    → 4 * ms_per_day ≤ from
    → (total (paid_rows from to ps) ≡ paid_between from to ps)
      × AreWithin from to (paid_rows from to ps)
unfolding paid_rows paid_between
paid_rows-total from to [] h = (refl, tt)
paid_rows-total from to (p ∷ ps) h = elim (Option-cases p.paid_at) [
  | inl n ↦ rw (n, paid_rows, paid_between) (paid_rows-total from to ps h)
  | inr (t, e) ↦ elim (Bool-cases (is_paid p.status && in_range from to t)) [
    | inl b ↦
        let ih = paid_rows-total from to ps h in
        let inside : in_range from to t ≡ true = ground arith in
        rw (e, paid_rows, paid_between, b)
          (ap (λ n. p.amount + n) ih.0, (within from to t inside h, ih.1))
    | inr b ↦ rw (e, paid_rows, paid_between, b) (paid_rows-total from to ps h)
  ]
]

booking_rows-total :
    (from to : ℕ) (bs : List Booking)
    → 4 * ms_per_day ≤ from
    → (total (booking_rows from to bs) ≡ count (λ (b : Booking). in_range from to b.created_at) bs)
      × AreWithin from to (booking_rows from to bs)
unfolding booking_rows count find_many
booking_rows-total from to [] h = (refl, tt)
booking_rows-total from to (b ∷ bs) h = elim (Bool-cases (in_range from to b.created_at)) [
  | inl e ↦
      let ih = booking_rows-total from to bs h in
      rw (e, booking_rows, count, find_many)
        (ap (λ n. 1 + n) ih.0 ∙ omega arith, (within from to b.created_at e h, ih.1))
  | inr e ↦ rw (e, booking_rows, count, find_many) (booking_rows-total from to bs h)
]

-- From four hundred days after 1970 on, by days as by weeks and by months, the revenues that
-- `getRevenueAnalytics` shows add up to the amounts of all payments that are PAID and were paid in the
-- whole range, and the bookings that it shows to the number of bookings that were made in that range.
pub get_revenue_analytics-sum :
    (p : Period) (now : ℕ) (db : Db)
    → 400 * ms_per_day ≤ now
    → (sum_of (λ (x : Point). x.revenue) (get_revenue_analytics p now db)
        ≡ paid_between (range_start p now) (range_end p now) db.payments)
      × (sum_of (λ (x : Point). x.bookings) (get_revenue_analytics p now db)
          ≡ count
              (λ (b : Booking). in_range (range_start p now) (range_end p now) b.created_at)
              db.bookings)
unfolding get_revenue_analytics
get_revenue_analytics-sum p now db h =
    let (k, end, shown, late) = range_end-period p now h in
    let q = k - periods p in
    let from = period_start p q in
    let to = period_start p k in
    let start = back-period_start p k (periods p) shown in
    let (paid, inside) = paid_rows-total from to db.payments late in
    let (made, within_) = booking_rows-total from to db.bookings late in
    let revenues = paid_rows from to db.payments in
    let counts = booking_rows from to db.bookings in
    let groups = group_sums (date_trunc p) revenues in
    let counted = group_sums (date_trunc p) counts in
    rw (end, start)
      (
        points-sum p from k (λ x. x.revenue) revenues groups counted (λ label. refl) inside
              (periods p) shown
            ∙ sum_between-total p q to revenues inside
            ∙ paid,
        points-sum p from k (λ x. x.bookings) counts groups counted (λ label. refl) within_
              (periods p) shown
            ∙ sum_between-total p q to counts within_
            ∙ made,
      )
