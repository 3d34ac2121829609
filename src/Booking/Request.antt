-- ===== src/Booking/Request.antt =====
-- src/booking/booking.service.ts: the handlers `create`, `cancel`, `findOne`, `findMyBookings` and
-- `findAll`, with the lock, the cache, the notification queue and the counters round their
-- transactions.
use turf_sync.Prelude.{
  ℕ, Bool, true, false, not, ◌&&◌, Option, none, some, List, [], ◌∷◌, ◌++◌, ltb, ◌==◌,
}
use turf_sync.Table.{find_unique, find_many}
use turf_sync.Schema.{Db, Turf, Booking}
use turf_sync.Outcome.{
  bad_request, not_found, forbidden, conflict, known_request_error, transaction_error, Exception,
  Reason, Result, ok, err, ◌>>=◌, ◌>>◌, throw_if, or_throw,
}
use turf_sync.Date.{start_of_utc_day, add_utc_days}
use turf_sync.Pagination.{PaginationDto, PaginatedResult, paginate}
use turf_sync.Lock.{RedisClient, acquire_lock, release_lock}
use turf_sync.Coupon.{validate_and_calculate, apply_coupon}
use turf_sync.Booking.{CreateBookingDto, ValidatedCoupon, book, check_cancel, cancel_tx}

-- What a handler does outside the database and the lock: `queued` is a job that the queue took,
-- `invalidated` the deletion of a turf's cached slots, and the others are counters of MetricsService.
pub data Effect : Type 0 where
  queued_confirmed queued_cancelled : ℕ → Effect
  invalidated : ℕ → Effect
  counted_created counted_cancelled : Effect
  counted_lock_failure counted_slot_booked counted_user_booked : Effect

-- The checks of the date, before anything is read.
unfoldable pub check_date : ℕ → ℕ → Result (Unit {0})
check_date now date = do
  throw_if (ltb (start_of_utc_day date) (start_of_utc_day now)) (bad_request Reason.past_date)
  throw_if (ltb (add_utc_days (start_of_utc_day now) 30) (start_of_utc_day date))
      (bad_request Reason.too_far_ahead)

-- `Number(turfData?.pricePerHour)`
abbrev pub price_of : ℕ → Db → Option ℕ
price_of turf_id db = elim (find_unique (λ (t : Turf). t.id) turf_id db.turfs) [
  | none ↦ none
  | some t ↦ some t.price_per_hour
]

-- `if (dto.couponCode)`: an empty code is not truthy.
unfoldable pub check_coupon : ℕ → CreateBookingDto → ℕ → Db → Result (Option ValidatedCoupon)
check_coupon now dto user_id db = elim dto.coupon_code [
  | none ↦ ok none
  | some [] ↦ ok none
  | some (c ∷ cs) ↦ do
    valid ← validate_and_calculate now (c ∷ cs) user_id (price_of dto.turf_id db) db
    ok (some valid)
]

-- The counter that the transaction increments before it throws.
abbrev pub conflict_effects : Exception → List Effect
conflict_effects (bad_request Reason.slot_already_booked) = counted_slot_booked ∷ []
conflict_effects (conflict Reason.user_already_booked) = counted_user_booked ∷ []
conflict_effects e = []

-- `queue.add`, whose failure is logged
abbrev pub enqueue : Bool → Effect → List Effect
enqueue true job = job ∷ []
enqueue false job = []

-- `if (couponData) await couponService.applyCoupon(…)`
unfoldable pub use_coupon : Option ValidatedCoupon → ℕ → ℕ → Db → Result (Unit {0} × Db)
use_coupon none user_id booking_id db = ok (tt, db)
use_coupon (some c) user_id booking_id db =
    apply_coupon c.coupon_id user_id booking_id c.discount db

-- What other requests commit while this one waits: between its coupon check and its transaction, and
-- between its transaction and the use of the coupon.
pub record Others : Type 0 where
  pub before_booking : Db → Db
  pub before_coupon : Db → Db

-- What the handler is given by the database, the clock and the queue: `booking_late` is whether its
-- transaction takes longer than eight seconds, and `coupon_late` whether that of the coupon takes longer
-- than Prisma allows.
pub record Env : Type 0 where
  pub id : ℕ
  pub now : ℕ
  pub token : ℕ
  pub queue_up : Bool
  pub booking_late : Bool
  pub coupon_late : Bool
  pub others : Others

-- `$transaction` with its time limit: Prisma rolls a transaction back that takes longer, and throws.
abbrev pub in_time : {A : Type 0} → Bool → Result A → Result A
in_time false r = r
in_time true r = err (known_request_error transaction_error)

-- The `try` block of `create`, under the lock.
unfoldable pub reserve :
    Env → CreateBookingDto → ℕ → Option ValidatedCoupon → Db → Result Booking × Db × List Effect
reserve env dto user_id coupon db =
    elim (in_time env.booking_late
      (book env.id env.now dto user_id coupon (env.others.before_booking db))) [
        | err e ↦ (err e, env.others.before_booking db, conflict_effects e)
        | ok (b, db1) ↦
            elim (in_time env.coupon_late
              (use_coupon coupon user_id b.id (env.others.before_coupon db1))) [
                | err e ↦ (err e, env.others.before_coupon db1, invalidated dto.turf_id ∷ [])
                | ok (_, db2) ↦ (
                  ok b,
                  db2,
                  invalidated dto.turf_id
                      ∷ (enqueue env.queue_up (queued_confirmed b.id) ++ counted_created ∷ []),
                )
              ]
      ]

module _ (redis : RedisClient) where
  -- The part of `create` from the lock on; `finally` releases it. The slot's number is its key.
  unfoldable pub create_locked :
      Env
      → CreateBookingDto
      → ℕ
      → Option ValidatedCoupon
      → Db
      → redis.Store
      → Result Booking × Db × List Effect × redis.Store
  create_locked env dto user_id coupon db s =
      let (held, s1) = acquire_lock redis dto.slot_id env.token 30 s in
      elim held [
        | none ↦ (err (bad_request Reason.slot_locked), db, counted_lock_failure ∷ [], s1)
        | some token ↦
            let (r, db', effects) = reserve env dto user_id coupon db in
            (r, db', effects, (release_lock redis dto.slot_id token s1).1)
      ]

  -- `create`
  unfoldable pub create :
      Env
      → CreateBookingDto
      → ℕ
      → Db
      → redis.Store
      → Result Booking × Db × List Effect × redis.Store
  create env dto user_id db s =
      elim (check_date env.now dto.date >> check_coupon env.now dto user_id db) [
        | err e ↦ (err e, db, [], s)
        | ok coupon ↦ create_locked env dto user_id coupon db s
      ]

-- `cancel`, with what other requests commit between its checks and its transaction
unfoldable pub cancel : Bool → (Db → Db) → ℕ → ℕ → Db → Result (Unit {0}) × Db × List Effect
cancel queue_up others id user_id db = elim (check_cancel id user_id db) [
  | err e ↦ (err e, db, [])
  | ok b ↦ elim (cancel_tx id (others db)) [
    | err e ↦ (err e, others db, [])
    | ok (_, db') ↦ (
      ok tt,
      db',
      invalidated b.turf_id ∷ (enqueue queue_up (queued_cancelled id) ++ counted_cancelled ∷ []),
    )
  ]
]

-- `findOne`; a role is whether it is ADMIN
unfoldable pub find_one : ℕ → ℕ → Bool → Db → Result Booking
find_one id user_id is_admin db = do
  b ←
      or_throw (find_unique (λ (b : Booking). b.id) id db.bookings)
        (not_found Reason.booking_not_found)
  throw_if (not is_admin && not (b.user_id == user_id)) (forbidden Reason.not_your_booking)
  ok b

-- `findMyBookings` and `findAll`, without the joined rows; a new booking is the first row, so the
-- table is in the order of the queries.
unfoldable pub find_my_bookings : ℕ → PaginationDto → Db → PaginatedResult Booking
find_my_bookings user_id page db =
    paginate page (find_many (λ (b : Booking). b.user_id == user_id) db.bookings)

unfoldable pub find_all : PaginationDto → Db → PaginatedResult Booking
find_all page db = paginate page db.bookings
