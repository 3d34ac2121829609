-- ===== src/Payment.antt =====
-- src/payment/payment.service.ts: PaymentService.
pub mod Webhook
pub mod Idempotence
pub mod Effects
use turf_sync.Prelude.{
  ℕ, ◌+◌, ◌*◌, ◌/◌, Bool, true, false, not, ◌&&◌, ◌||◌, Option, none, some, List, [], ◌∷◌, leb,
  if◌then◌else◌, ◌==◌, String, is_some,
}
use turf_sync.Table.{find_first, find_unique, update}
use turf_sync.Schema.{
  Db, Slot, Booking, BookingStatus, Payment, PaymentStatus, WebhookEvent, is_pending, is_paid,
  is_initiated,
}
use turf_sync.Outcome.{
  bad_request, not_found, forbidden, conflict, known_request_error, client_error, unique_violation,
  record_not_found, Reason, Result, ok, err, ◌>>=◌, ◌>>◌, throw_if, or_throw, Tx, commit,
}
use turf_sync.TimeText.{hour_of, minute_of}
use turf_sync.Date.{set_utc_hours}
use turf_sync.Booking.{set_status, release_slot}

pub record PaymentIntent : Type 0 where
  pub id : ℕ
  pub client_secret : Option ℕ

-- What the Stripe client answers; `none` is a call that throws. The idempotency key of
-- `paymentIntents.create` is a function of the booking, so the answer is one of its arguments.
pub record StripeClient : Type 0 where
  pub create_intent : ℕ → ℕ → Option PaymentIntent
  pub create_refund : ℕ → Option ℕ

-- `Math.round(Number(totalAmount) * 100)`, of an amount in millionths
abbrev pub amount_in_cents : ℕ → ℕ
amount_in_cents amount = (amount + 5000) / 10000

-- What `createPaymentIntent` returns.
pub record IntentReply : Type 0 where
  pub client_secret : Option ℕ
  pub payment_id : ℕ
  pub amount : ℕ

-- The unique columns of a payment, against another row.
abbrev pub payment_clashes : Payment → Payment → Bool
payment_clashes new p =
    p.id == new.id
    || (p.booking_id == new.booking_id
        || p.stripe_payment_intent_id == new.stripe_payment_intent_id)

abbrev pub intent_of_other : ℕ → ℕ → Payment → Bool
intent_of_other id intent p = p.stripe_payment_intent_id == intent && not (p.id == id)

-- The `update` of the upsert.
abbrev pub restart : PaymentIntent → Payment → Payment
restart intent p = record p {
  stripe_payment_intent_id = intent.id;
  stripe_client_secret = intent.client_secret;
  status = PaymentStatus.initiated;
}

-- The `create` of the upsert.
abbrev pub new_payment : ℕ → ℕ → Booking → String → PaymentIntent → Payment
new_payment id now b currency intent = record {
  id = id;
  booking_id = b.id;
  amount = b.total_amount;
  currency = currency;
  status = PaymentStatus.initiated;
  stripe_payment_intent_id = intent.id;
  stripe_client_secret = intent.client_secret;
  stripe_charge_id = none;
  paid_at = none;
  failure_reason = none;
  created_at = now;
}

-- `prisma.payment.upsert({ where: { bookingId } … })`, where the database would number a new row
-- `id`, at the time `now`
unfoldable pub upsert_payment :
    ℕ → ℕ → Booking → String → PaymentIntent → Db → Result (Payment × Db)
upsert_payment id now b currency intent db =
    elim (find_unique (λ (p : Payment). p.booking_id) b.id db.payments) [
      | none ↦
          if is_some
            (find_first (payment_clashes (new_payment id now b currency intent)) db.payments)
          then err (known_request_error unique_violation)
          else ok (
            new_payment id now b currency intent,
            record db { payments = new_payment id now b currency intent ∷ db.payments },
          )
      | some p ↦
          if is_some (find_first (intent_of_other p.id intent.id) db.payments)
          then err (known_request_error unique_violation)
          else ok (
            restart intent p,
            record db {
              payments = update (λ (q : Payment). q.booking_id) b.id (restart intent) db.payments;
            },
          )
    ]

abbrev pub payment_of : ℕ → Db → Option Payment
payment_of booking_id db = find_unique (λ (p : Payment). p.booking_id) booking_id db.payments

abbrev pub reply_with : Option ℕ → ℕ → Booking → IntentReply
reply_with secret id b = record { client_secret = secret; payment_id = id; amount = b.total_amount }

-- The client secret that a repeated request gets back, if its payment still waits.
abbrev pub open_intent : Option Payment → Option (ℕ × Payment)
open_intent none = none
open_intent (some p) = elim p.stripe_client_secret [
  | none ↦ none
  | some secret ↦ if is_initiated p.status then some (secret, p) else none
]

abbrev pub already_paid : Option Payment → Bool
already_paid none = false
already_paid (some p) = is_paid p.status

-- `createPaymentIntent` behind its checks: call Stripe, then write the payment.
unfoldable pub start_payment :
    StripeClient → ℕ → ℕ → String → Booking → Db → Result (IntentReply × Db)
start_payment stripe id now currency b db = do
  intent ← or_throw (stripe.create_intent (amount_in_cents b.total_amount) b.id) client_error
  written ← upsert_payment id now b currency intent db
  ok (reply_with intent.client_secret written.0.id b, written.1)

-- `createPaymentIntent`
unfoldable pub create_payment_intent :
    StripeClient → ℕ → ℕ → String → ℕ → ℕ → Db → Result (IntentReply × Db)
create_payment_intent stripe id now currency booking_id user_id db = do
  b ←
      or_throw (find_unique (λ (b : Booking). b.id) booking_id db.bookings)
        (not_found Reason.booking_not_found)
  throw_if (not (b.user_id == user_id)) (bad_request Reason.not_your_booking)
  throw_if (already_paid (payment_of b.id db)) (conflict Reason.payment_completed)
  elim (open_intent (payment_of b.id db)) [
    | some (secret, p) ↦ ok (reply_with (some secret) p.id b, db)
    | none ↦ start_payment stripe id now currency b db
  ]

-- A payment with the booking that the query includes.
pub record PaymentWithBooking : Type 0 where
  pub payment : Payment
  pub booking : Booking

unfoldable pub find_payment : ℕ → Db → Option PaymentWithBooking
find_payment booking_id db = elim (payment_of booking_id db) [
  | none ↦ none
  | some p ↦ elim (find_unique (λ (b : Booking). b.id) p.booking_id db.bookings) [
    | none ↦ none
    | some b ↦ some (record { payment = p; booking = b })
  ]
]

-- What `getPaymentStatus` answers with.
pub record PaymentStatusAnswer : Type 0 where
  pub status : PaymentStatus
  pub amount : ℕ
  pub paid_at : Option ℕ
  pub failure_reason : Option String

-- `getPaymentStatus`
unfoldable pub get_payment_status : ℕ → ℕ → Db → Result PaymentStatusAnswer
get_payment_status booking_id user_id db = do
  r ← or_throw (find_payment booking_id db) (not_found Reason.payment_not_found)
  throw_if (not (r.booking.user_id == user_id)) (forbidden Reason.not_your_booking)
  ok (record {
    status = r.payment.status;
    amount = r.payment.amount;
    paid_at = r.payment.paid_at;
    failure_reason = r.payment.failure_reason;
  })

-- `slotStartDateTime <= new Date()`; a time that does not parse makes an invalid date.
unfoldable pub has_started : ℕ → Slot → Bool
has_started now s = elim (hour_of s.start_time) [
  | none ↦ false
  | some h ↦ elim (minute_of s.start_time) [
    | none ↦ false
    | some m ↦ leb (set_utc_hours s.date h m) now
  ]
]

-- What `refund` checks before it calls Stripe.
unfoldable pub check_refund : ℕ → ℕ → ℕ → Db → Result (PaymentWithBooking × Slot)
check_refund now booking_id user_id db = do
  r ← or_throw (find_payment booking_id db) (not_found Reason.payment_not_found)
  throw_if (not (r.booking.user_id == user_id)) (forbidden Reason.not_your_booking)
  throw_if (not (is_paid r.payment.status)) (bad_request Reason.not_paid)
  s ←
      or_throw (find_unique (λ (s : Slot). s.id) r.booking.slot_id db.slots)
        (not_found Reason.payment_not_found)
  throw_if (has_started now s) (bad_request Reason.slot_started)
  ok (r, s)

abbrev pub set_payment_status : PaymentStatus → Payment → Payment
set_payment_status v p = record p { status = v }

-- `tx.payment.update({ where: { id }, data })`
unfoldable pub update_payment : ℕ → (Payment → Payment) → Tx (Unit {0})
update_payment id f db =
    if is_some (find_unique (λ (p : Payment). p.id) id db.payments)
    then ok (tt, record db { payments = update (λ (p : Payment). p.id) id f db.payments })
    else err (known_request_error record_not_found)

-- `tx.booking.update({ where: { id }, data: { status } })`
unfoldable pub update_booking_status : ℕ → BookingStatus → Tx (Unit {0})
update_booking_status id v db =
    if is_some (find_unique (λ (b : Booking). b.id) id db.bookings)
    then ok
        (tt, record db { bookings = update (λ (b : Booking). b.id) id (set_status v) db.bookings })
    else err (known_request_error record_not_found)

-- The transaction of `refund`, on the identifiers that were read before it.
unfoldable pub refund_tx : ℕ → ℕ → ℕ → Tx (Unit {0})
refund_tx booking_id payment_id slot_id db = do
  p ← update_payment payment_id (set_payment_status PaymentStatus.refunded) db
  b ← update_booking_status booking_id BookingStatus.cancelled p.1
  ok (tt, release_slot slot_id booking_id b.1)

-- `refund`
unfoldable pub refund : StripeClient → ℕ → ℕ → ℕ → Db → Result (ℕ × Db)
refund stripe now booking_id user_id db = do
  found ← check_refund now booking_id user_id db
  refund_id ← or_throw (stripe.create_refund found.0.payment.stripe_payment_intent_id) client_error
  done ← refund_tx booking_id found.0.payment.id found.1.id db
  ok (refund_id, done.1)
