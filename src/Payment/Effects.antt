-- ===== src/Payment/Effects.antt =====
-- What the transactions of the webhook write.
use turf_sync.Prelude.{
  ℕ, ◌≡◌, ◌≢◌, refl, inl, inr, arith, Option, none, some, Option-cases, Bool-cases, if◌then◌else◌,
  ◌∷◌, ==_refl,
}
use turf_sync.Table.{find_unique, find_first, update}
use turf_sync.Table.Unique.{
  IsUnique, find_unique-eq-some, find_unique-IsIn, find_unique-update_self, find_unique-update_ne,
}
use turf_sync.Schema.{Db, Booking, BookingStatus, Payment, WebhookEvent, is_pending}
use turf_sync.Outcome.{ok, err, known_request_error, unique_violation}
use turf_sync.Booking.{set_status}
use turf_sync.Payment.{update_payment, update_booking_status}
use turf_sync.Payment.Webhook.{
  Event, EventType, payment_by_intent, register_event, mark_paid, mark_failed, success_tx,
  failed_tx, failure_reason, handle_payment_failed, dispatch, handle_webhook, skip_repeated,
}

abbrev pub booking_at : ℕ → Db → Option Booking
booking_at id db = find_unique (λ (b : Booking). b.id) id db.bookings

abbrev pub payment_at : ℕ → Db → Option Payment
payment_at id db = find_unique (λ (p : Payment). p.id) id db.payments

-- The booking after a successful payment: confirmed if it was pending, and else as it was.
abbrev pub after_payment : Booking → Booking
after_payment b = if is_pending b.status then set_status BookingStatus.confirmed b else b

-- A success transaction that goes through finds the booking of the payment and the payment; it
-- leaves the payment paid, with its charge and time, confirms the booking if it was pending and
-- leaves it as it was otherwise, and leaves every other booking alone.
pub success_tx_effect :
    (now event_id : ℕ) (charge : Option ℕ) (p : Payment) (db db' : Db)
    → success_tx now event_id charge p db ≡ ok (tt, db')
    → (b : Booking) × (q : Payment) × (booking_at p.booking_id db ≡ some b)
      × (payment_at p.id db ≡ some q)
      × (booking_at p.booking_id db' ≡ some (after_payment b))
      × (payment_at p.id db' ≡ some (mark_paid now charge q))
      × ((id : ℕ) → id ≢ p.booking_id → booking_at id db' ≡ booking_at id db)
unfolding success_tx register_event update_payment update_booking_status
success_tx_effect now event_id charge p db db' e =
    elim (Option-cases (find_unique (λ (w : WebhookEvent). w.id) event_id db.webhook_events)) [
      | inr (w, r) ↦ absurd (ground arith)
      | inl r ↦ elim (Option-cases (booking_at p.booking_id db)) [
        | inl n ↦ absurd (ground arith)
        | inr (b, f) ↦ elim (Option-cases (payment_at p.id db)) [
          | inl n ↦ absurd (ground arith)
          | inr (q, g) ↦
              let paid =
                find_unique-update_self (λ (p : Payment). p.id) (mark_paid now charge) p.id q
                  db.payments (λ x. refl) g in
              elim (Bool-cases (is_pending b.status)) [
                | inl t ↦
                    let kept =
                      find_unique-update_self (λ (b : Booking). b.id)
                        (set_status BookingStatus.confirmed) p.booking_id b db.bookings (λ x. refl)
                        f in
                    (
                      b,
                      q,
                      f,
                      g,
                      ground arith,
                      ground arith,
                      λ id ne.
                          let k =
                            find_unique-update_ne (λ (b : Booking). b.id)
                              (set_status BookingStatus.confirmed) id p.booking_id db.bookings
                              (λ x. refl) ne in
                          ground arith,
                    )
                | inr n ↦ (b, q, f, g, ground arith, ground arith, λ id ne. ground arith)
              ]
        ]
      ]
    ]

abbrev pub event_at : ℕ → Db → Option WebhookEvent
event_at id db = find_unique (λ (w : WebhookEvent). w.id) id db.webhook_events

-- What the delivery of a failure event can do: nothing, or to fail the payment of its intent.
pub data FailureEffect (event : Event) (db db' : Db) : Type 0 where
  unknown_intent :
      payment_by_intent event.object.id db ≡ none → db' ≡ db → FailureEffect event db db'
  repeated_event :
      (w : WebhookEvent) → event_at event.id db ≡ some w → db' ≡ db → FailureEffect event db db'
  payment_fails :
      (q : Payment)
      → payment_by_intent event.object.id db ≡ some q
      → event_at event.id db ≡ none
      → event_at event.id db' ≡ some (record { id = event.id })
      → payment_at q.id db' ≡ some (mark_failed (failure_reason event.object.last_error) q)
      → ((id : ℕ) → id ≢ q.id → payment_at id db' ≡ payment_at id db)
      → db'.bookings ≡ db.bookings
      → db'.slots ≡ db.slots
      → FailureEffect event db db'

-- The tables after a failure event for a payment.
abbrev failed_db : Event → Payment → Db → Db
failed_db event q db = record db {
  webhook_events = record { id = event.id } ∷ db.webhook_events;
  payments =
      update (λ (p : Payment). p.id) q.id (mark_failed (failure_reason event.object.last_error))
        db.payments;
}

-- The three ways that `handlePaymentFailed` takes.
failed-unknown :
    (event : Event) (db : Db)
    → payment_by_intent event.object.id db ≡ none
    → handle_payment_failed event.id event.object db ≡ ok (tt, db)
unfolding handle_payment_failed
failed-unknown event db n = rw (n, handle_payment_failed) refl

failed-repeated :
    (event : Event) (q : Payment) (w : WebhookEvent) (db : Db)
    → payment_by_intent event.object.id db ≡ some q
    → event_at event.id db ≡ some w
    → handle_payment_failed event.id event.object db ≡ err (known_request_error unique_violation)
unfolding handle_payment_failed failed_tx register_event
failed-repeated event q w db f k = rw (f, handle_payment_failed) (ground arith)

failed-new :
    (event : Event) (q : Payment) (db : Db)
    → payment_by_intent event.object.id db ≡ some q
    → event_at event.id db ≡ none
    → payment_at q.id db ≡ some q
    → handle_payment_failed event.id event.object db ≡ ok (tt, failed_db event q db)
unfolding handle_payment_failed failed_tx register_event update_payment
failed-new event q db f k g = rw (f, handle_payment_failed) (ground arith)

failed-FailureEffect :
    (event : Event) (q : Payment) (db : Db)
    → payment_by_intent event.object.id db ≡ some q
    → event_at event.id db ≡ none
    → payment_at q.id db ≡ some q
    → FailureEffect event db (failed_db event q db)
unfolding find_unique find_first
failed-FailureEffect event q db f k g =
    let fail = mark_failed (failure_reason event.object.last_error) in
    let same = ==_refl event.id in
    payment_fails q f k (rw same refl)
      (find_unique-update_self (λ (p : Payment). p.id) fail q.id q db.payments (λ x. refl) g)
      (λ id ne.
        find_unique-update_ne (λ (p : Payment). p.id) fail id q.id db.payments (λ x. refl) ne)
      refl refl

delivered-failure :
    (event : Event) (db : Db)
    → IsUnique (λ (p : Payment). p.id) db.payments
    → ((skip_repeated db (handle_payment_failed event.id event.object db)).0 ≡ ok tt)
      × FailureEffect event db (skip_repeated db (handle_payment_failed event.id event.object db)).1
delivered-failure event db u = elim (Option-cases (payment_by_intent event.object.id db)) [
  | inl n ↦ rw (failed-unknown event db n) (refl, unknown_intent n refl)
  | inr (q, f) ↦ elim (Option-cases (event_at event.id db)) [
    | inr (w, k) ↦ rw (failed-repeated event q w db f k) (refl, repeated_event w k refl)
    | inl k ↦
        let (m, _) =
          find_unique-eq-some (λ (p : Payment). p.stripe_payment_intent_id) event.object.id q
            db.payments f in
        let g = find_unique-IsIn (λ (p : Payment). p.id) q db.payments u m in
        rw (failed-new event q db f k g) (refl, failed-FailureEffect event q db f k g)
  ]
]

-- Where the numbers of payments are distinct, an accepted failure event is answered with success. It
-- changes nothing where no payment has its intent or the event is known. Otherwise it is stored and the
-- payment of its intent becomes failed, with the reason of the event, whatever its status was, also a
-- payment that is paid; all other payments, all bookings and all slots stay as they were.
pub handle_webhook-failure :
    (now : ℕ) (event : Event) (db : Db)
    → event.event_type ≡ EventType.payment_failed
    → IsUnique (λ (p : Payment). p.id) db.payments
    → ((handle_webhook now (some event) db).0 ≡ ok tt)
      × FailureEffect event db (handle_webhook now (some event) db).1
unfolding handle_webhook dispatch
handle_webhook-failure now event db t u =
    let dispatched : dispatch now event db ≡ handle_payment_failed event.id event.object db =
      rw (t, dispatch) refl in
    rw dispatched (delivered-failure event db u)
