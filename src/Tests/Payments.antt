-- ===== src/Tests/Payments.antt =====
-- The payment of the booking of Data: its events and its refund.
use turf_sync.Prelude.{ℕ, ◌≡◌, ◌≢◌, refl, arith, true, false, none, some, [], ◌∷◌}
use turf_sync.Table.{find_first, find_many, find_unique, update, update_many}
use turf_sync.Schema.{Db, Slot, Booking, BookingStatus, Payment, PaymentStatus, is_paid}
use turf_sync.Outcome.{ok}
use turf_sync.TimeText.{hour_of, minute_of, read_digits, before_colon, after_colon}
use turf_sync.Date.{set_utc_hours, start_of_utc_day}
use turf_sync.Booking.{set_status, release_slot}
use turf_sync.Payment.{
  StripeClient, check_refund, find_payment, has_started, payment_of, refund, refund_tx,
  set_payment_status, update_booking_status, update_payment,
}
use turf_sync.Payment.Webhook.{
  Event, EventType, dispatch, failed_tx, handle_payment_success, handle_payment_failed,
  handle_webhook, mark_failed, mark_paid, register_event, success_tx,
}
use turf_sync.Payment.Idempotence.{webhook_idempotent}
use turf_sync.Payment.Effects.{
  after_payment, booking_at, payment_at, success_tx_effect, FailureEffect, handle_webhook-failure,
}
use turf_sync.System.{success_step}
use turf_sync.System.Invariant.{IsConsistent, slot_booked}
use turf_sync.System.Payments.{SameBookings-IsConsistent}
use turf_sync.System.Safety.{Step-IsConsistent}
use turf_sync.System.Refund.{refund_effect}
use turf_sync.Tests.Data.{
  booking, cancelled_booking, booked_db, paying_db, payment, free_slot, booked_db-IsConsistent,
}

abbrev stripe : StripeClient
stripe = record { create_intent = λ amount id. none; create_refund = λ intent. some 77 }

abbrev success : Event
success = record {
  id = 51;
  event_type = EventType.succeeded;
  object = record { id = 41; latest_charge = some 61; last_error = none };
}

abbrev paid_payment : Payment
paid_payment = mark_paid 900 (some 61) payment

-- After the event of success.
abbrev paid_db : Db
paid_db = record paying_db {
  bookings = record booking { status = BookingStatus.confirmed } ∷ [];
  payments = paid_payment ∷ [];
  webhook_events = record { id = 51 } ∷ [];
}

-- After the refund.
abbrev refunded_db : Db
refunded_db = record paid_db {
  slots = free_slot 11 ∷ free_slot 12 ∷ [];
  bookings = cancelled_booking ∷ [];
  payments = set_payment_status PaymentStatus.refunded paid_payment ∷ [];
}

success_tx-paying : success_tx 900 51 (some 61) payment paying_db ≡ ok (tt, paid_db)
unfolding success_tx register_event update_payment update_booking_status find_unique find_first
    update update_many
success_tx-paying = refl

delivered : handle_webhook 900 (some success) paying_db ≡ (ok tt, paid_db)
unfolding handle_webhook dispatch handle_payment_success success_tx register_event update_payment
    update_booking_status find_unique find_first update update_many
delivered = refl

webhook_idempotent_example : handle_webhook 950 (some success) paid_db ≡ (ok tt, paid_db)
webhook_idempotent_example = webhook_idempotent 900 950 (some success) paying_db paid_db delivered

success_tx_effect_example :
    (b : Booking) × (q : Payment) × (booking_at 21 paying_db ≡ some b)
    × (payment_at 31 paying_db ≡ some q)
    × (booking_at 21 paid_db ≡ some (after_payment b))
    × (payment_at 31 paid_db ≡ some (mark_paid 900 (some 61) q))
    × ((id : ℕ) → id ≢ 21 → booking_at id paid_db ≡ booking_at id paying_db)
success_tx_effect_example =
    success_tx_effect 900 51 (some 61) payment paying_db paid_db success_tx-paying

-- A late failure of the intent that has been paid.
abbrev late_failure : Event
late_failure = record {
  id = 52;
  event_type = EventType.payment_failed;
  object = record success.object { last_error = some "declined" };
}

handle_webhook-failure_example :
    ((handle_webhook 950 (some late_failure) paid_db).0 ≡ ok tt)
    × FailureEffect late_failure paid_db (handle_webhook 950 (some late_failure) paid_db).1
handle_webhook-failure_example =
    handle_webhook-failure 950 late_failure paid_db refl ((λ y m. absurd m), tt)

-- The payment was paid, and is failed.
late_failure_fails :
    payment_at 31 (handle_webhook 950 (some late_failure) paid_db).1
    ≡ some (mark_failed "declined" paid_payment)
unfolding handle_webhook dispatch handle_payment_failed failed_tx register_event update_payment
    find_unique find_first update update_many
late_failure_fails = refl

paid_db-IsConsistent : IsConsistent paid_db
paid_db-IsConsistent = Step-IsConsistent (success_step 900 51 (some 61) payment success_tx-paying) (
    SameBookings-IsConsistent booked_db paying_db (record { bookings = refl; slots = refl })
      booked_db-IsConsistent)

refunded : refund stripe 1000 21 5 paid_db ≡ ok (77, refunded_db)
unfolding refund check_refund find_payment has_started refund_tx update_payment
    update_booking_status release_slot find_unique find_first find_many update update_many hour_of
    minute_of read_digits before_colon after_colon set_utc_hours start_of_utc_day
refunded = refl

refund_effect_example :
    (b : Booking) × (p : Payment) × (s : Slot) × (booking_at 21 paid_db ≡ some b)
    × (payment_of 21 paid_db ≡ some p)
    × (find_unique (λ (s : Slot). s.id) b.slot_id paid_db.slots ≡ some s)
    × (b.user_id ≡ 5)
    × (is_paid p.status ≡ true)
    × (has_started 1000 s ≡ false)
    × (payment_at p.id refunded_db ≡ some (set_payment_status PaymentStatus.refunded p))
    × (booking_at 21 refunded_db ≡ some (set_status BookingStatus.cancelled b))
    × (slot_booked b.slot_id refunded_db.slots ≡ false)
    × ((other : ℕ) → other ≢ 21 → booking_at other refunded_db ≡ booking_at other paid_db)
refund_effect_example =
    refund_effect stripe 1000 21 5 77 paid_db refunded_db paid_db-IsConsistent (ground arith)
      refunded
