-- ===== src/Tests/Offices.antt =====
-- Two administrators and a customer, and the reports of a day.
use turf_sync.Prelude.{
  ℕ, ◌+◌, ◌*◌, ◌≡◌, ◌≢◌, ◌≤◌, ◌⊎◌, refl, arith, inl, true, none, some, List, [], ◌∷◌, ◌++◌, length,
  take,
}
use turf_sync.Table.{find_many, count, update, update_many}
use turf_sync.Schema.{Booking, Payment, Text, codes, is_paid}
use turf_sync.Outcome.{Exception, ok, err}
use turf_sync.Date.{ms_per_day}
use turf_sync.Pagination.{PaginationDto, paginate}
use turf_sync.Auth.{User, Role}
use turf_sync.Admin.{AuditLog, Office, AdminRequest, promotes, demotes, serve, change_user}
use turf_sync.Admin.Audit.{serve_audited}
use turf_sync.Admin.Roles.{HasAdmin, serve_all, serve_all-HasAdmin}
use turf_sync.Admin.Revenue.{Period, Point, get_revenue_analytics, range_start, range_end, in_range}
use turf_sync.Admin.Totals.{sum_of, paid_between, get_revenue_analytics-sum}
use turf_sync.Sms.{format_number, is_phone, national_01, country_8801, plus_8801}
use turf_sync.Admin.Records.{
  PaymentReport, get_payment_report, is_failed, is_refunded, Spelling, get_all_users, is_found,
}
use turf_sync.Admin.Privacy.{answers_public}
use turf_sync.Auth.Account.{get_profile}
use turf_sync.Admin.Takings.{is_on_days, get_payment_report-days}
use turf_sync.Admin.Reports.{sum_amounts}
use turf_sync.Turf.Listing.{contains_text, starts_with}
use turf_sync.Sms.Spellings.{format_number-spellings}
use turf_sync.Tests.Data.{booked_db, paying_db}

abbrev person : ℕ → Role → User
person id role = record {
  id = id;
  name = 11;
  email = 100 + id;
  phone = 200 + id;
  password_hash = 14;
  role = role;
  is_verified = true;
  email_verify_token = none;
  email_verify_expires = none;
  password_reset_token = none;
  password_reset_expires = none;
  failed_login_attempts = 0;
  lockout_until = none;
  created_at = 0;
}

abbrev office : Office
office = record {
  accounts = record {
    users = person 1 Role.admin ∷ person 2 Role.admin ∷ person 5 Role.user ∷ [];
    refresh_tokens = [];
  };
  tables = booked_db;
  audit_logs = [];
}

serve_audited_example :
    ((e : Exception) × (serve (demotes 71 2) 1 office ≡ (err e, office)))
    ⊎ ((log : AuditLog) × ((serve (demotes 71 2) 1 office).0 ≡ ok tt)
        × ((serve (demotes 71 2) 1 office).1.audit_logs ≡ log ∷ office.audit_logs)
        × (log.id ≡ 71)
        × (log.admin_id ≡ 1)
        × (log.target_id ≡ 2))
serve_audited_example = serve_audited (demotes 71 2) 1 office (λ l m. absurd m)

abbrev orders : List (ℕ × AdminRequest)
orders = (1, demotes 71 2) ∷ (2, demotes 72 1) ∷ (1, promotes 73 5) ∷ (5, demotes 74 1) ∷ []

office-HasAdmin : HasAdmin office
office-HasAdmin = (person 1 Role.admin, inl refl, refl)

serve_all-HasAdmin_example : HasAdmin (serve_all orders office)
serve_all-HasAdmin_example = serve_all-HasAdmin orders office office-HasAdmin

abbrev february : ℕ
february = 400 * ms_per_day

get_revenue_analytics-sum_example :
    (sum_of (λ (x : Point). x.revenue) (get_revenue_analytics Period.monthly february paying_db)
      ≡ paid_between
          (range_start Period.monthly february)
          (range_end Period.monthly february)
          paying_db.payments)
    × (sum_of (λ (x : Point). x.bookings) (get_revenue_analytics Period.monthly february paying_db)
        ≡ count
            (λ (b : Booking).
              in_range
                (range_start Period.monthly february)
                (range_end Period.monthly february)
                b.created_at)
            paying_db.bookings)
get_revenue_analytics-sum_example =
    get_revenue_analytics-sum Period.monthly february paying_db (omega arith)

abbrev first_page : PaginationDto
first_page = record { page = some 1; limit = some 20 }

abbrev subscriber : List ℕ
subscriber = b'7' ∷ b'1' ∷ b'2' ∷ b'3' ∷ b'4' ∷ b'5' ∷ b'6' ∷ b'7' ∷ b'8' ∷ []

format_number-spellings_example :
    (is_phone (national_01 ++ subscriber) ≡ true)
    × (is_phone (country_8801 ++ subscriber) ≡ true)
    × (is_phone (plus_8801 ++ subscriber) ≡ true)
    × ((national_01 ++ subscriber) ≢ (country_8801 ++ subscriber))
    × ((national_01 ++ subscriber) ≢ (plus_8801 ++ subscriber))
    × ((country_8801 ++ subscriber) ≢ (plus_8801 ++ subscriber))
    × (format_number (national_01 ++ subscriber) ≡ (plus_8801 ++ subscriber))
    × (format_number (country_8801 ++ subscriber) ≡ (plus_8801 ++ subscriber))
    × (format_number (plus_8801 ++ subscriber) ≡ (plus_8801 ++ subscriber))
    × ((s : Text) → format_number (format_number s) ≡ format_number s)
format_number-spellings_example = format_number-spellings subscriber refl

get_payment_report-days_example :
    (listed : List Payment) × (report : PaymentReport) × (get_payment_report
        (some (some 0))
        (some (some 172800000))
        paying_db
      ≡ ok report)
    × (listed ≡ find_many (is_on_days 0 172800000) paying_db.payments)
    × (report.total_paid ≡ count (λ (p : Payment). is_paid p.status) listed)
    × (report.total_failed ≡ count (λ (p : Payment). is_failed p.status) listed)
    × (report.total_refunded ≡ count (λ (p : Payment). is_refunded p.status) listed)
    × (report.total_amount ≡ sum_amounts (λ (p : Payment). is_paid p.status) listed)
    × (report.total_transactions ≤ length listed)
    × (report.recent_payments ≡ take 50 listed)
get_payment_report-days_example = get_payment_report-days 0 172800000 paying_db

-- Every user has a name with the letter o and an address without it.
abbrev spelling : Spelling
spelling = record { name = λ n. codes "Noor"; email = λ n. codes "x"; phone = λ n. codes "0" }

found_users : (get_all_users spelling first_page (some (codes "OO")) office).total ≡ 3
unfolding get_all_users is_found contains_text starts_with paginate find_many
found_users = refl

-- The same users, one of them with another password and a lockout.
abbrev rekeyed : Office
rekeyed =
    change_user 1 (λ (u : User). record u { password_hash = 999; lockout_until = some 5 }) office

answers_public_example :
    (get_profile 1 office.accounts ≡ get_profile 1 rekeyed.accounts)
    × (get_all_users spelling first_page (some (codes "OO")) office
        ≡ get_all_users spelling first_page (some (codes "OO")) rekeyed)
unfolding update update_many
answers_public_example =
    answers_public spelling first_page (some (codes "OO")) 1 office rekeyed refl refl
