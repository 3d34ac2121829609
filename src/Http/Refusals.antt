-- ===== src/Http/Refusals.antt =====
-- src/booking/booking.service.ts behind src/common/filters: with which status a request to book is
-- refused.
use turf_sync.Prelude.{
  ℕ, ◌≡◌, ◌⊎◌, ◌≤◌, ◌<◌, inl, inr, arith, Bool, true, false, Option, none, some, List, [], ◌∷◌,
  Option-cases, Bool-cases, leb,
}
use turf_sync.Schema.{Db, Text}
use turf_sync.Outcome.{
  Exception, Reason, Result, ok, err, ◌>>=◌, ◌>>◌, throw_if, or_throw, Result-cases, >>=-eq-ok,
}
use turf_sync.Lock.{RedisClient, acquire_lock}
use turf_sync.Coupon.{decimal_limit, validate_and_calculate, apply_coupon, insert_usage}
use turf_sync.Booking.{CreateBookingDto, ValidatedCoupon, book, insert_booking}
use turf_sync.Booking.Request.{
  Env, check_date, check_coupon, price_of, use_coupon, reserve, create_locked, create,
}
use turf_sync.Http.{answer_exception}
use turf_sync.Http.Filters.{status_of, answer_exception-lower, answer_exception-refusal}

-- A result that is no failure of the server: a value, or an exception whose status is below 500.
abbrev pub IsHandled {ℓ} : {A : Type ℓ} → Result A → Type 0
IsHandled (ok a) = Unit
IsHandled (err e) = status_of e < 500

IsHandled-bind {ℓ κ} :
    {A : Type ℓ} {B : Type κ} (m : Result A) (f : A → Result B)
    → IsHandled m
    → ((a : A) → IsHandled (f a))
    → IsHandled (m >>= f)
IsHandled-bind (ok a) f h k = k a
IsHandled-bind (err e) f h k = h

IsHandled-throw_if : (b : Bool) (e : Exception) → status_of e < 500 → IsHandled (throw_if b e)
IsHandled-throw_if true e h = h
IsHandled-throw_if false e h = tt

IsHandled-or_throw {ℓ} :
    {A : Type ℓ} (o : Option A) (e : Exception) → status_of e < 500 → IsHandled (or_throw o e)
IsHandled-or_throw none e h = h
IsHandled-or_throw (some a) e h = tt

check_date-IsHandled : (now date : ℕ) → IsHandled (check_date now date)
unfolding check_date
check_date-IsHandled now date = ground arith

validate_and_calculate-IsHandled :
    (now : ℕ) (code : List ℕ) (user_id : ℕ) (amount : Option ℕ) (db : Db)
    → IsHandled (validate_and_calculate now code user_id amount db)
unfolding validate_and_calculate
validate_and_calculate-IsHandled now code user_id amount db = ground arith

apply_coupon-IsHandled :
    (coupon_id user_id booking_id discount : ℕ) (db : Db)
    → leb decimal_limit discount ≡ false
    → IsHandled (apply_coupon coupon_id user_id booking_id discount db)
unfolding apply_coupon insert_usage
apply_coupon-IsHandled coupon_id user_id booking_id discount db fits = ground arith

book-IsHandled :
    (id now : ℕ) (dto : CreateBookingDto) (user_id : ℕ) (coupon : Option ValidatedCoupon) (db : Db)
    → IsHandled (book id now dto user_id coupon db)
unfolding book insert_booking
book-IsHandled id now dto user_id coupon db = ground arith

-- The discount of a coupon, where there is one, fits its column.
abbrev pub IsFitting : Option ValidatedCoupon → Type 0
IsFitting none = Unit
IsFitting (some c) = leb decimal_limit c.discount ≡ false

use_coupon-IsHandled :
    (coupon : Option ValidatedCoupon) (user_id booking_id : ℕ) (db : Db)
    → IsFitting coupon
    → IsHandled (use_coupon coupon user_id booking_id db)
unfolding use_coupon
use_coupon-IsHandled none user_id booking_id db fits = tt
use_coupon-IsHandled (some c) user_id booking_id db fits =
    apply_coupon-IsHandled c.coupon_id user_id booking_id c.discount db fits

check_coupon-IsHandled :
    (now : ℕ) (dto : CreateBookingDto) (user_id : ℕ) (db : Db)
    → IsHandled (check_coupon now dto user_id db)
unfolding check_coupon
check_coupon-IsHandled now dto user_id db = elim (Option-cases dto.coupon_code) [
  | inl n ↦ rw (n, check_coupon) tt
  | inr ([], e) ↦ rw (e, check_coupon) tt
  | inr (c ∷ cs, e) ↦
      rw (e, check_coupon)
        (IsHandled-bind (validate_and_calculate now (c ∷ cs) user_id (price_of dto.turf_id db) db)
          (λ valid. ok (some valid))
          (validate_and_calculate-IsHandled now (c ∷ cs) user_id (price_of dto.turf_id db) db)
          (λ valid. tt))
]

reserve-IsHandled :
    (env : Env) (dto : CreateBookingDto) (user_id : ℕ) (coupon : Option ValidatedCoupon) (db : Db)
    → env.booking_late ≡ false
    → env.coupon_late ≡ false
    → IsFitting coupon
    → IsHandled (reserve env dto user_id coupon db).0
unfolding reserve
reserve-IsHandled env dto user_id coupon db early soon fits =
    let booked = book-IsHandled env.id env.now dto user_id coupon (env.others.before_booking db) in
    elim (Result-cases (book env.id env.now dto user_id coupon (env.others.before_booking db))) [
      | inr (e, r) ↦ rw (early, r, reserve) (rw r at booked)
      | inl ((b, db1), r) ↦
          let used = use_coupon-IsHandled coupon user_id b.id (env.others.before_coupon db1) fits in
          elim (Result-cases (use_coupon coupon user_id b.id (env.others.before_coupon db1))) [
            | inr (e, q) ↦ rw (early, r, reserve, soon, q) (rw q at used)
            | inl (done, q) ↦ rw (early, r, reserve, soon, q) tt
          ]
    ]

-- What a request to book can fail by on the side of the server.
pub data Overrun (env : Env) (dto : CreateBookingDto) (user_id : ℕ) (db : Db) : Type 0 where
  booking_overrun : env.booking_late ≡ true → Overrun env dto user_id db
  coupon_overrun : env.coupon_late ≡ true → Overrun env dto user_id db
  discount_overrun :
      (c : ValidatedCoupon)
      → check_coupon env.now dto user_id db ≡ ok (some c)
      → decimal_limit ≤ c.discount
      → Overrun env dto user_id db

fits-Overrun :
    (env : Env) (dto : CreateBookingDto) (user_id : ℕ) (db : Db) (coupon : Option ValidatedCoupon)
    → check_coupon env.now dto user_id db ≡ ok coupon
    → IsFitting coupon ⊎ Overrun env dto user_id db
fits-Overrun env dto user_id db none e = inl tt
fits-Overrun env dto user_id db (some c) e = elim (Bool-cases (leb decimal_limit c.discount)) [
  | inl t ↦ inr (discount_overrun c e (ground arith))
  | inr f ↦ inl f
]

create-IsHandled :
    (redis : RedisClient) (env : Env) (dto : CreateBookingDto) (user_id : ℕ) (db : Db)
    (s : redis.Store)
    → IsHandled (create redis env dto user_id db s).0 ⊎ Overrun env dto user_id db
unfolding create create_locked
create-IsHandled redis env dto user_id db s =
    let checked =
      IsHandled-bind (check_date env.now dto.date) (λ done. check_coupon env.now dto user_id db)
        (check_date-IsHandled env.now dto.date)
        (λ done. check_coupon-IsHandled env.now dto user_id db) in
    elim (Result-cases (check_date env.now dto.date >> check_coupon env.now dto user_id db)) [
      | inr (e, r) ↦ inl (rw (r, create) (rw r at checked))
      | inl (coupon, r) ↦ elim (Option-cases (acquire_lock redis dto.slot_id env.token 30 s).0) [
        | inl n ↦ inl (rw (r, create, create_locked, n) (omega arith))
        | inr (token, l) ↦
            let (_, _, valid) =
              >>=-eq-ok (check_date env.now dto.date) (λ done. check_coupon env.now dto user_id db)
                r in
            elim (Bool-cases env.booking_late) [
              | inl late ↦ inr (booking_overrun late)
              | inr early ↦ elim (Bool-cases env.coupon_late) [
                | inl late ↦ inr (coupon_overrun late)
                | inr soon ↦ elim (fits-Overrun env dto user_id db coupon valid) [
                  | inr over ↦ inr over
                  | inl fits ↦ inl (
                      rw (r, create, create_locked, l)
                        (reserve-IsHandled env dto user_id coupon db early soon fits))
                ]
              ]
            ]
      ]
    ]

-- A request to book that is answered with an exception is answered with a status from 400 to 499, of
-- which Sentry is not told, unless one of its two transactions exceeds its time limit or the discount of
-- its coupon does not fit its column; the status is then at least 400. Redis and the database are up, and
-- the queue need not be.
pub refused_booking :
    (words : Reason → Text) (header : Option Text) (new url : Text) (redis : RedisClient)
    (env : Env) (dto : CreateBookingDto) (user_id : ℕ) (db : Db) (s : redis.Store) (e : Exception)
    → (create redis env dto user_id db s).0 ≡ err e
    → (400 ≤ (answer_exception words header new url e).status)
      × ((((answer_exception words header new url e).status < 500)
            × ((answer_exception words header new url e).captured ≡ false))
          ⊎ Overrun env dto user_id db)
refused_booking words header new url redis env dto user_id db s e h = (
  answer_exception-lower words header new url e,
  elim (create-IsHandled redis env dto user_id db s) [
    | inr over ↦ inr over
    | inl handled ↦
        let (_, below, untold) =
          answer_exception-refusal words header new url e (rw h at handled) in
        inl (below, untold)
  ],
)
