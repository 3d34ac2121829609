-- ===== src/Admin/Takings.antt =====
-- src/admin/admin.service.ts: what the numbers of `getPaymentReport` count.
use turf_sync.Prelude.{
  ℕ, ◌+◌, ◌≤◌, ◌≡◌, refl, arith, Bool, ◌&&◌, leb, some, List, [], ◌∷◌, length, take,
}
use turf_sync.Table.{find_many, count}
use turf_sync.Schema.{Db, Payment, is_paid}
use turf_sync.Date.{start_of_utc_day}
use turf_sync.Outcome.{ok}
use turf_sync.Admin.Reports.{end_of_utc_day, DateFilter, date_filter, sum_amounts}
use turf_sync.Admin.Records.{
  is_made, is_failed, is_refunded, PaymentReport, payment_report, get_payment_report,
}

-- A query with two conditions counts what the second selects among the rows of the first.
count-and :
    {A : Type 0} (p q : A → Bool) (xs : List A)
    → count (λ x. p x && q x) xs ≡ count q (find_many p xs)
unfolding count find_many
count-and p q [] = refl
count-and p q (x ∷ xs) = ground (arith, count-and p q xs)

sum_amounts-and :
    (p q : Payment → Bool) (xs : List Payment)
    → sum_amounts (λ x. p x && q x) xs ≡ sum_amounts q (find_many p xs)
unfolding sum_amounts find_many
sum_amounts-and p q [] = refl
sum_amounts-and p q (x ∷ xs) = ground (arith, sum_amounts-and p q xs)

-- A payment has one status.
statuses-le :
    (xs : List Payment)
    → count (λ (p : Payment). is_paid p.status) xs
        + count (λ (p : Payment). is_failed p.status) xs
        + count (λ (p : Payment). is_refunded p.status) xs
      ≤ length xs
unfolding count find_many
statuses-le [] = omega arith
statuses-le (x ∷ xs) = ground (arith, statuses-le xs)

-- The day of a payment is one from the first day to the second.
abbrev pub is_on_days : ℕ → ℕ → Payment → Bool
is_on_days from to p =
    leb (start_of_utc_day from) (start_of_utc_day p.created_at)
    && leb (start_of_utc_day p.created_at) (start_of_utc_day to)

find_many_cong :
    {A : Type 0} (p q : A → Bool)
    → ((x : A) → p x ≡ q x)
    → (xs : List A) → find_many p xs ≡ find_many q xs
unfolding find_many
find_many_cong p q h [] = refl
find_many_cong p q h (x ∷ xs) =
    let rest = find_many_cong p q h xs in rw (h x) (ground (arith, rest))

made-is_on_days :
    (from to : ℕ) (p : Payment)
    → is_made (record { gte = some (start_of_utc_day from); lte = some (end_of_utc_day to) }) p
      ≡ is_on_days from to p
unfolding start_of_utc_day end_of_utc_day
made-is_on_days from to p = ground arith

-- Given two dates that parse, `getPaymentReport` reports on the payments that were made on a day from
-- the first date to the second, both days included in full, in the order of the table: it counts those
-- that are paid, failed and refunded, which together are at most as many, adds up the amounts of those
-- that are paid, and lists the first fifty of them all.
pub get_payment_report-days :
    (from to : ℕ) (db : Db)
    → (listed : List Payment) × (report : PaymentReport) × (get_payment_report
          (some (some from))
          (some (some to))
          db
        ≡ ok report)
      × (listed ≡ find_many (is_on_days from to) db.payments)
      × (report.total_paid ≡ count (λ (p : Payment). is_paid p.status) listed)
      × (report.total_failed ≡ count (λ (p : Payment). is_failed p.status) listed)
      × (report.total_refunded ≡ count (λ (p : Payment). is_refunded p.status) listed)
      × (report.total_amount ≡ sum_amounts (λ (p : Payment). is_paid p.status) listed)
      × (report.total_transactions ≤ length listed)
      × (report.recent_payments ≡ take 50 listed)
unfolding get_payment_report payment_report date_filter
get_payment_report-days from to db = (
  listed,
  payment_report dates db,
  refl,
  listed_days,
  paid,
  failed,
  refunded,
  sum_amounts-and made (λ p. is_paid p.status) db.payments,
  omega (arith, statuses-le listed, paid, failed, refunded),
  refl,
)
  where
    dates : DateFilter
    dates = record { gte = some (start_of_utc_day from); lte = some (end_of_utc_day to) }

    made : Payment → Bool
    made p = is_made dates p

    listed : List Payment
    listed = find_many made db.payments

    paid : (payment_report dates db).total_paid ≡ count (λ (p : Payment). is_paid p.status) listed
    paid = count-and made (λ p. is_paid p.status) db.payments

    failed :
        (payment_report dates db).total_failed ≡ count (λ (p : Payment). is_failed p.status) listed
    failed = count-and made (λ p. is_failed p.status) db.payments

    refunded :
        (payment_report dates db).total_refunded
        ≡ count (λ (p : Payment). is_refunded p.status) listed
    refunded = count-and made (λ p. is_refunded p.status) db.payments

    listed_days : listed ≡ find_many (is_on_days from to) db.payments
    listed_days = find_many_cong made (is_on_days from to) (made-is_on_days from to) db.payments
