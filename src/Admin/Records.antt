-- ===== src/Admin/Records.antt =====
-- src/admin/admin.service.ts: `getAllUsers` and `getPaymentReport`. The joined rows of `include` are left
-- out, and a rate is kept as its two counts.
use turf_sync.Prelude.{
  ℕ, ◌+◌, Bool, true, false, ◌&&◌, ◌||◌, ◌==◌, Option, none, some, List, [], ◌∷◌, map, take,
}
use turf_sync.Table.{find_many, count}
use turf_sync.Schema.{Db, Booking, Payment, PaymentStatus, Text, is_paid}
use turf_sync.Outcome.{Result, ok, ◌>>=◌}
use turf_sync.Pagination.{PaginationDto, PaginatedResult, paginate}
use turf_sync.Turf.Listing.{contains_part}
use turf_sync.Auth.{User, Role}
use turf_sync.Admin.{Office}
use turf_sync.Admin.Reports.{DateFilter, date_filter, is_since, is_until, sum_amounts}

-- The texts that a name, an address and a phone number stand for.
pub record Spelling : Type 0 where
  pub name : ℕ → Text
  pub email : ℕ → Text
  pub phone : ℕ → Text

-- `where` of `getAllUsers`: an empty search is not truthy, and selects every user.
unfoldable pub is_found : Spelling → Option Text → User → Bool
is_found spell none u = true
is_found spell (some []) u = true
is_found spell (some (c ∷ cs)) u =
    contains_part (some (c ∷ cs)) (spell.name u.name)
    || (contains_part (some (c ∷ cs)) (spell.email u.email)
        || contains_part (some (c ∷ cs)) (spell.phone u.phone))

-- What `select` takes of a user; `bookings` is `_count.bookings`.
pub record UserRow : Type 0 where
  pub id : ℕ
  pub name : ℕ
  pub email : ℕ
  pub phone : ℕ
  pub role : Role
  pub is_verified : Bool
  pub created_at : ℕ
  pub bookings : ℕ

abbrev pub user_row : Db → User → UserRow
user_row db u = record {
  id = u.id;
  name = u.name;
  email = u.email;
  phone = u.phone;
  role = u.role;
  is_verified = u.is_verified;
  created_at = u.created_at;
  bookings = count (λ (b : Booking). b.user_id == u.id) db.bookings;
}

-- `getAllUsers`
unfoldable pub get_all_users :
    Spelling → PaginationDto → Option Text → Office → PaginatedResult UserRow
get_all_users spell page search o =
    paginate page (map (user_row o.tables) (find_many (is_found spell search) o.accounts.users))

abbrev pub is_failed : PaymentStatus → Bool
is_failed PaymentStatus.failed = true
is_failed _ = false

abbrev pub is_refunded : PaymentStatus → Bool
is_refunded PaymentStatus.refunded = true
is_refunded _ = false

-- The filter of `getPaymentReport` by the day of creation.
abbrev pub is_made : DateFilter → Payment → Bool
is_made dates p = is_since dates.gte p.created_at && is_until dates.lte p.created_at

-- `summary` with `recentPayments`; the success rate is kept as its two counts.
pub record PaymentReport : Type 0 where
  pub total_paid : ℕ
  pub total_failed : ℕ
  pub total_refunded : ℕ
  pub total_amount : ℕ
  pub total_transactions : ℕ
  pub recent_payments : List Payment

unfoldable pub payment_report : DateFilter → Db → PaymentReport
unfolding count sum_amounts
payment_report dates db =
    let paid = count (λ p. is_made dates p && is_paid p.status) db.payments in
    let failed = count (λ p. is_made dates p && is_failed p.status) db.payments in
    let refunded = count (λ p. is_made dates p && is_refunded p.status) db.payments in
    record {
      total_paid = paid;
      total_failed = failed;
      total_refunded = refunded;
      total_amount = sum_amounts (λ p. is_made dates p && is_paid p.status) db.payments;
      total_transactions = paid + failed + refunded;
      recent_payments = take 50 (find_many (is_made dates) db.payments);
    }

-- `getPaymentReport`
unfoldable pub get_payment_report :
    Option (Option ℕ) → Option (Option ℕ) → Db → Result PaymentReport
unfolding date_filter
get_payment_report date_from date_to db = do
  dates ← date_filter date_from date_to
  ok (payment_report dates db)
