-- ===== src/Admin/Reports.antt =====
-- src/admin/admin.service.ts: the queries `getAllBookings`, `getTurfAnalytics`, `getAuditLogs` and
-- the part of `getDashboardOverview` that is about turfs, bookings and revenue. The joined rows of
-- `include` are left out, and a rate is kept as its two counts.
use turf_sync.Prelude.{
  ℕ, ◌+◌, ◌-◌, Bool, true, false, ◌&&◌, Option, none, some, List, [], ◌∷◌, leb, ◌==◌, if◌then◌else◌,
  map, take, length,
}
use turf_sync.Table.{find_many, find_unique, count}
use turf_sync.Schema.{
  Db, Turf, Booking, BookingStatus, Payment, Mean, is_paid, is_cancelled, is_pending, is_confirmed,
}
use turf_sync.Outcome.{bad_request, not_found, Reason, Result, ok, err, ◌>>=◌}
use turf_sync.Date.{start_of_utc_day}
use turf_sync.Date.Months.{start_of_utc_month}
use turf_sync.Auth.{User}
use turf_sync.Pagination.{PaginationDto, PaginatedResult, paginate}
use turf_sync.Review.{average_rating, is_completed}
use turf_sync.Admin.{Office, AuditLog}
use turf_sync.Admin.Revenue.{group_sums}

abbrev pub status_is : Option BookingStatus → BookingStatus → Bool
status_is none s = true
status_is (some BookingStatus.pending) s = is_pending s
status_is (some BookingStatus.confirmed) s = is_confirmed s
status_is (some BookingStatus.cancelled) s = is_cancelled s
status_is (some BookingStatus.completed) s = is_completed s

abbrev pub id_is : Option ℕ → ℕ → Bool
id_is none n = true
id_is (some m) n = n == m

-- `toDate.setUTCHours(23, 59, 59, 999)`
unfoldable pub end_of_utc_day : ℕ → ℕ
end_of_utc_day t = start_of_utc_day t + 86399999

-- `createdAtFilter`: a bound on either side, of a date that is given and what it parses to
pub record DateFilter : Type 0 where
  pub gte : Option ℕ
  pub lte : Option ℕ

abbrev pub bound_of : (ℕ → ℕ) → Option (Option ℕ) → Result (Option ℕ)
bound_of f none = ok none
bound_of f (some none) = err (bad_request Reason.invalid_date)
bound_of f (some (some t)) = ok (some (f t))

unfoldable pub date_filter : Option (Option ℕ) → Option (Option ℕ) → Result DateFilter
date_filter date_from date_to = do
  gte ← bound_of start_of_utc_day date_from
  lte ← bound_of end_of_utc_day date_to
  ok (record { gte = gte; lte = lte })

abbrev pub is_since : Option ℕ → ℕ → Bool
is_since none t = true
is_since (some a) t = leb a t

abbrev pub is_until : Option ℕ → ℕ → Bool
is_until none t = true
is_until (some b) t = leb t b

-- `where` of `getAllBookings`
unfoldable pub is_listed : Option BookingStatus → Option ℕ → DateFilter → Booking → Bool
is_listed status turf_id dates b =
    status_is status b.status
    && (id_is turf_id b.turf_id
        && (is_since dates.gte b.created_at && is_until dates.lte b.created_at))

-- `getAllBookings`
unfoldable pub get_all_bookings :
    PaginationDto
    → Option BookingStatus
    → Option ℕ
    → Option (Option ℕ)
    → Option (Option ℕ)
    → Db
    → Result (PaginatedResult Booking)
get_all_bookings page status turf_id date_from date_to db = do
  dates ← date_filter date_from date_to
  ok (paginate page (find_many (is_listed status turf_id dates) db.bookings))

-- `getAuditLogs`
unfoldable pub get_audit_logs : PaginationDto → Office → PaginatedResult AuditLog
get_audit_logs page o = paginate page o.audit_logs

-- `payment.aggregate({ where, _sum: { amount } })`, with `|| 0`
unfoldable pub sum_amounts : (Payment → Bool) → List Payment → ℕ
sum_amounts p [] = 0
sum_amounts p (x ∷ xs) = let rest = sum_amounts p xs in if p x then x.amount + rest else rest

-- `orderBy: { _count: { slotId: 'desc' } }`
unfoldable pub insert_by_count : ℕ × ℕ → List (ℕ × ℕ) → List (ℕ × ℕ)
insert_by_count g [] = g ∷ []
insert_by_count (k, n) ((j, m) ∷ groups) =
    let rest = insert_by_count (k, n) groups in
    if leb m n then (k, n) ∷ (j, m) ∷ groups else (j, m) ∷ rest

unfoldable pub by_count : List (ℕ × ℕ) → List (ℕ × ℕ)
by_count [] = []
by_count (g ∷ groups) = insert_by_count g (by_count groups)

-- `booking.groupBy({ by: ['slotId'], … })`: a slot and the number of its bookings
unfoldable pub popular_slots : ℕ → List Booking → List (ℕ × ℕ)
popular_slots turf_id bookings = take 5 (
    by_count (
      group_sums (λ k. k)
        (map (λ (b : Booking). (b.slot_id, 1))
          (find_many (λ (b : Booking). b.turf_id == turf_id) bookings))))

abbrev pub is_booking_of : ℕ → Db → Payment → Bool
is_booking_of turf_id db p = elim (find_unique (λ (b : Booking). b.id) p.booking_id db.bookings) [
  | none ↦ false
  | some b ↦ b.turf_id == turf_id
]

pub record TurfAnalytics : Type 0 where
  pub total : ℕ
  pub completed : ℕ
  pub cancelled : ℕ
  pub revenue : ℕ
  pub rating : Mean
  pub popular : List (ℕ × ℕ)

-- `getTurfAnalytics`
unfoldable pub get_turf_analytics : ℕ → Db → Result TurfAnalytics
get_turf_analytics turf_id db = elim (find_unique (λ (t : Turf). t.id) turf_id db.turfs) [
  | none ↦ err (not_found Reason.turf_not_found)
  | some t ↦ ok (record {
    total = count (λ (b : Booking). b.turf_id == turf_id) db.bookings;
    completed = count (λ (b : Booking). b.turf_id == turf_id && is_completed b.status) db.bookings;
    cancelled = count (λ (b : Booking). b.turf_id == turf_id && is_cancelled b.status) db.bookings;
    revenue = sum_amounts (λ p. is_booking_of turf_id db p && is_paid p.status) db.payments;
    rating = average_rating turf_id db;
    popular = popular_slots turf_id db.bookings;
  })
]

abbrev pub is_paid_since : ℕ → Payment → Bool
is_paid_since from p = is_paid p.status && elim p.paid_at [ none ↦ false | some t ↦ leb from t ]

pub record Overview : Type 0 where
  pub total_users : ℕ
  pub new_users_today : ℕ
  pub total_turfs : ℕ
  pub active_turfs : ℕ
  pub inactive_turfs : ℕ
  pub total_bookings : ℕ
  pub bookings_today : ℕ
  pub bookings_this_month : ℕ
  pub pending_bookings : ℕ
  pub cancelled_bookings : ℕ
  pub total_revenue : ℕ
  pub revenue_today : ℕ
  pub revenue_this_month : ℕ

-- `getDashboardOverview`
unfoldable pub get_dashboard_overview : ℕ → Office → Overview
get_dashboard_overview now o =
    let db = o.tables in
    let today = start_of_utc_day now in
    let month = start_of_utc_month now in
    record {
      total_users = length o.accounts.users;
      new_users_today = count (λ (u : User). leb today u.created_at) o.accounts.users;
      total_turfs = length db.turfs;
      active_turfs = count (λ (t : Turf). t.is_active) db.turfs;
      inactive_turfs = length db.turfs - count (λ (t : Turf). t.is_active) db.turfs;
      total_bookings = length db.bookings;
      bookings_today = count (λ (b : Booking). leb today b.created_at) db.bookings;
      bookings_this_month = count (λ (b : Booking). leb month b.created_at) db.bookings;
      pending_bookings = count (λ (b : Booking). is_pending b.status) db.bookings;
      cancelled_bookings = count (λ (b : Booking). is_cancelled b.status) db.bookings;
      total_revenue = sum_amounts (λ p. is_paid p.status) db.payments;
      revenue_today = sum_amounts (is_paid_since today) db.payments;
      revenue_this_month = sum_amounts (is_paid_since month) db.payments;
    }
