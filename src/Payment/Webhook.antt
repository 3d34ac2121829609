-- ===== src/Payment/Webhook.antt =====
-- src/payment/payment.service.ts: `handleWebhook` and the handlers of the three event types.
use turf_sync.Prelude.{ℕ, Option, none, some, ◌∷◌, String, ◌==◌, if◌then◌else◌, is_some}
use turf_sync.Table.{find_unique, update_many}
use turf_sync.Schema.{
  Db, Booking, BookingStatus, Payment, PaymentStatus, WebhookEvent, is_pending, is_paid,
}
use turf_sync.Outcome.{
  bad_request, not_found, known_request_error, unique_violation, Reason, Result, ok, err, ◌>>=◌,
  or_throw, Tx,
}
use turf_sync.Payment.{update_payment, update_booking_status, set_payment_status}

-- `event.data.object`
pub record IntentObject : Type 0 where
  pub id : ℕ
  pub latest_charge : Option ℕ
  pub last_error : Option String

pub data EventType : Type 0 where
  succeeded payment_failed processing other : EventType

pub record Event : Type 0 where
  pub id : ℕ
  pub event_type : EventType
  pub object : IntentObject

-- `tx.webhookEvent.create({ data: { id: eventId } })`
unfoldable pub register_event : ℕ → Tx (Unit {0})
register_event id db =
    if is_some (find_unique (λ (e : WebhookEvent). e.id) id db.webhook_events)
    then err (known_request_error unique_violation)
    else ok (tt, record db { webhook_events = record { id = id } ∷ db.webhook_events })

abbrev pub payment_by_intent : ℕ → Db → Option Payment
payment_by_intent intent db =
    find_unique (λ (p : Payment). p.stripe_payment_intent_id) intent db.payments

abbrev pub mark_paid : ℕ → Option ℕ → Payment → Payment
mark_paid now charge p = record p {
  status = PaymentStatus.paid;
  stripe_charge_id = charge;
  paid_at = some now;
}

-- The transaction of `handlePaymentSuccess`, on the payment that was read before it.
unfoldable pub success_tx : ℕ → ℕ → Option ℕ → Payment → Tx (Unit {0})
success_tx now event_id charge payment db = do
  e ← register_event event_id db
  b ←
      or_throw (find_unique (λ (b : Booking). b.id) payment.booking_id e.1.bookings)
        (not_found Reason.booking_not_found)
  p ← update_payment payment.id (mark_paid now charge) e.1
  if is_pending b.status
      then update_booking_status payment.booking_id BookingStatus.confirmed p.1
      else ok p

unfoldable pub handle_payment_success : ℕ → ℕ → IntentObject → Tx (Unit {0})
handle_payment_success now event_id object db = elim (payment_by_intent object.id db) [
  | none ↦ ok (tt, db)
  | some p ↦
      if is_paid p.status then ok (tt, db) else success_tx now event_id object.latest_charge p db
]

abbrev pub mark_failed : String → Payment → Payment
mark_failed reason p = record p { status = PaymentStatus.failed; failure_reason = some reason }

-- The transaction of `handlePaymentFailed`.
unfoldable pub failed_tx : ℕ → String → ℕ → Tx (Unit {0})
failed_tx event_id reason payment_id db = do
  e ← register_event event_id db
  update_payment payment_id (mark_failed reason) e.1

-- `paymentIntent.last_payment_error?.message || 'Payment failed'`
abbrev pub failure_reason : Option String → String
failure_reason none = "Payment failed"
failure_reason (some String.[]) = "Payment failed"
failure_reason (some (String.◌∷◌ c s)) = String.◌∷◌ c s

unfoldable pub handle_payment_failed : ℕ → IntentObject → Tx (Unit {0})
handle_payment_failed event_id object db = elim (payment_by_intent object.id db) [
  | none ↦ ok (tt, db)
  | some p ↦ failed_tx event_id (failure_reason object.last_error) p.id db
]

-- `handlePaymentProcessing`
unfoldable pub handle_payment_processing : ℕ → IntentObject → Tx (Unit {0})
handle_payment_processing event_id object db = do
  e ← register_event event_id db
  ok (
    tt,
    record e.1 {
      payments =
          update_many (λ (p : Payment). p.stripe_payment_intent_id == object.id)
            (set_payment_status PaymentStatus.processing) e.1.payments;
    },
  )

-- The `switch` of `handleWebhook`.
unfoldable pub dispatch : ℕ → Event → Tx (Unit {0})
dispatch now event db = elim event.event_type [
  | EventType.succeeded ↦ handle_payment_success now event.id event.object db
  | EventType.payment_failed ↦ handle_payment_failed event.id event.object db
  | EventType.processing ↦ handle_payment_processing event.id event.object db
  | EventType.other ↦ ok (tt, db)
]

-- The `catch` round it: a violated unique index is a repeated event, and is skipped.
abbrev pub skip_repeated : Db → Result (Unit {0} × Db) → Result (Unit {0}) × Db
skip_repeated db (ok (_, db')) = (ok tt, db')
skip_repeated db (err (known_request_error unique_violation)) = (ok tt, db)
skip_repeated db (err e) = (err e, db)

-- `handleWebhook`; `event` is what `stripe.webhooks.constructEvent` made of the body, `none` if the
-- signature is refused.
unfoldable pub handle_webhook : ℕ → Option Event → Db → Result (Unit {0}) × Db
handle_webhook now none db = (err (bad_request Reason.invalid_signature), db)
handle_webhook now (some event) db = skip_repeated db (dispatch now event db)
