-- ===== src/Payment/Idempotence.antt =====
-- A webhook event that is delivered again.
use turf_sync.Prelude.{
  ℕ, ◌≡◌, refl, sym, subst, inl, inr, ◌⊎◌, arith, ◌∙◌, true, Option, none, some, Option-cases,
  Bool-cases, is_some, String,
}
use turf_sync.Table.{find_first, find_unique}
use turf_sync.Schema.{Db, BookingStatus, Payment, WebhookEvent, is_paid, is_pending}
use turf_sync.Outcome.{
  ok, err, Result-cases, >>=-eq-ok, known_request_error, unique_violation, Exception,
}
use turf_sync.Payment.{update_payment, update_booking_status}
use turf_sync.Payment.Webhook.{
  Event, EventType, register_event, payment_by_intent, mark_paid, mark_failed, success_tx,
  handle_payment_success, failed_tx, failure_reason, handle_payment_failed,
  handle_payment_processing, dispatch, skip_repeated, handle_webhook,
}
use turf_sync.System.Payments.{IsPaid, via, success_tx-IsPaid}

abbrev event_found : ℕ → Db → Option WebhookEvent
event_found id db = find_unique (λ (e : WebhookEvent). e.id) id db.webhook_events

-- The event is in the table of events.
abbrev pub IsRegistered : ℕ → Db → Type 0
IsRegistered id db = is_some (event_found id db) ≡ true

register_event-IsRegistered :
    (id : ℕ) (db db' : Db) → register_event id db ≡ ok (tt, db') → IsRegistered id db'
unfolding register_event find_unique find_first
register_event-IsRegistered id db db' e = ground arith

register_event_again :
    (id : ℕ) (db : Db)
    → IsRegistered id db
    → register_event id db ≡ err (known_request_error unique_violation)
unfolding register_event
register_event_again id db r = ground arith

-- The table of events is left alone.
abbrev SameEvents : Db → Db → Type 0
SameEvents db db' = db'.webhook_events ≡ db.webhook_events

update_payment-SameEvents :
    (id : ℕ) (f : Payment → Payment) (db db' : Db)
    → update_payment id f db ≡ ok (tt, db')
    → SameEvents db db'
unfolding update_payment
update_payment-SameEvents id f db db' e = ground arith

update_booking_status-SameEvents :
    (id : ℕ) (v : BookingStatus) (db db' : Db)
    → update_booking_status id v db ≡ ok (tt, db')
    → SameEvents db db'
unfolding update_booking_status
update_booking_status-SameEvents id v db db' e = ground arith

SameEvents-IsRegistered :
    (id : ℕ) (db db' : Db) → SameEvents db db' → IsRegistered id db → IsRegistered id db'
SameEvents-IsRegistered id db db' s r =
    subst (λ es. is_some (find_unique (λ (e : WebhookEvent). e.id) id es) ≡ true) (sym s) r

success_tx-IsRegistered :
    (now event_id : ℕ) (charge : Option ℕ) (p : Payment) (db db' : Db)
    → IsPaid now event_id charge p db db'
    → IsRegistered event_id db'
success_tx-IsRegistered now event_id charge p db db' (via registered paid b r f u l) =
    SameEvents-IsRegistered event_id registered db' (last ∙ before)
      (register_event-IsRegistered event_id db registered r)
  where
    before : SameEvents registered paid
    before = update_payment-SameEvents p.id (mark_paid now charge) registered paid u

    last : SameEvents paid db'
    last = elim (Bool-cases (is_pending b.status)) [
      | inl t ↦
          update_booking_status-SameEvents p.booking_id BookingStatus.confirmed paid db' (rw t at l)
      | inr n ↦ ground arith
    ]

-- A call of a handler that goes through has registered its event, or changed nothing in a way that
-- does not depend on the time.
abbrev IsSettled : Event → Db → Db → Type 0
IsSettled event db db' =
    IsRegistered event.id db' ⊎ ((db ≡ db') × ((now : ℕ) → dispatch now event db ≡ ok (tt, db)))

-- A registered event goes through with no effect, or fails on the unique index.
abbrev IsSkipped : Event → Db → Type 0
IsSkipped event db = (now : ℕ) → handle_webhook now (some event) db ≡ (ok tt, db)

registered-IsSkipped : (event : Event) (db : Db) → IsRegistered event.id db → IsSkipped event db
unfolding handle_webhook dispatch handle_payment_success handle_payment_failed success_tx failed_tx
    handle_payment_processing
registered-IsSkipped event db r now = let again = register_event_again event.id db r in ground arith

success-IsSettled :
    (now : ℕ) (event : Event) (db db' : Db)
    → event.event_type ≡ EventType.succeeded
    → handle_payment_success now event.id event.object db ≡ ok (tt, db')
    → IsSettled event db db'
unfolding dispatch handle_payment_success
success-IsSettled now event db db' t e =
    elim (Option-cases (payment_by_intent event.object.id db)) [
      | inl n ↦ inr (ground arith, λ now'. ground arith)
      | inr (p, f) ↦ elim (Bool-cases (is_paid p.status)) [
        | inl paid ↦ inr (ground arith, λ now'. ground arith)
        | inr unpaid ↦ inl (
            success_tx-IsRegistered now event.id event.object.latest_charge p db db'
              (success_tx-IsPaid now event.id event.object.latest_charge p db db' (ground arith)))
      ]
    ]

failed_tx-IsRegistered :
    (event_id : ℕ) (reason : String) (payment_id : ℕ) (db db' : Db)
    → failed_tx event_id reason payment_id db ≡ ok (tt, db')
    → IsRegistered event_id db'
unfolding failed_tx
failed_tx-IsRegistered event_id reason payment_id db db' e =
    let ((_, registered), r, e1) = >>=-eq-ok (register_event event_id db) _ e in
    SameEvents-IsRegistered event_id registered db'
      (update_payment-SameEvents payment_id (mark_failed reason) registered db' e1)
      (register_event-IsRegistered event_id db registered r)

failed-IsSettled :
    (now : ℕ) (event : Event) (db db' : Db)
    → event.event_type ≡ EventType.payment_failed
    → handle_payment_failed event.id event.object db ≡ ok (tt, db')
    → IsSettled event db db'
unfolding dispatch handle_payment_failed
failed-IsSettled now event db db' t e = elim (Option-cases (payment_by_intent event.object.id db)) [
  | inl n ↦ inr (ground arith, λ now'. ground arith)
  | inr (p, f) ↦ inl (
      failed_tx-IsRegistered event.id (failure_reason event.object.last_error) p.id db db'
        (ground arith))
]

processing-IsSettled :
    (now : ℕ) (event : Event) (db db' : Db)
    → handle_payment_processing event.id event.object db ≡ ok (tt, db')
    → IsSettled event db db'
unfolding handle_payment_processing
processing-IsSettled now event db db' e =
    let ((_, registered), r, e1) = >>=-eq-ok (register_event event.id db) _ e in
    inl (
      SameEvents-IsRegistered event.id registered db' (ground arith)
        (register_event-IsRegistered event.id db registered r))

dispatch-IsSettled :
    (t : EventType) (now : ℕ) (event : Event) (db db' : Db)
    → event.event_type ≡ t
    → dispatch now event db ≡ ok (tt, db')
    → IsSettled event db db'
unfolding dispatch
dispatch-IsSettled EventType.succeeded now event db db' t e =
    success-IsSettled now event db db' t (rw (t, dispatch) at e)
dispatch-IsSettled EventType.payment_failed now event db db' t e =
    failed-IsSettled now event db db' t (rw (t, dispatch) at e)
dispatch-IsSettled EventType.processing now event db db' t e =
    processing-IsSettled now event db db' (rw (t, dispatch) at e)
dispatch-IsSettled EventType.other now event db db' t e = inr (ground arith, λ now'. ground arith)

-- The handlers raise a violated unique index only for an event that is registered.
violation-IsRegistered :
    (now : ℕ) (event : Event) (db : Db)
    → dispatch now event db ≡ err (known_request_error unique_violation)
    → IsRegistered event.id db
unfolding dispatch handle_payment_success handle_payment_failed success_tx failed_tx
    handle_payment_processing register_event update_payment update_booking_status
violation-IsRegistered now event db e = ground arith

-- Delivered again, at any later time, to the tables that an accepted delivery left, an event is
-- accepted and changes nothing: of all three event types and of any other.
pub webhook_idempotent :
    (now later : ℕ) (event : Option Event) (db db' : Db)
    → handle_webhook now event db ≡ (ok tt, db')
    → handle_webhook later event db' ≡ (ok tt, db')
unfolding handle_webhook
webhook_idempotent now later none db db' e = absurd (ground arith)
webhook_idempotent now later (some event) db db' e = elim (Result-cases (dispatch now event db)) [
  | inl ((_, done), r) ↦ accepted done r (ground arith)
  | inr (x, r) ↦ refused x r (rw r at e)
]
  where
    accepted :
        (done : Db)
        → dispatch now event db ≡ ok (tt, done)
        → done ≡ db'
        → handle_webhook later (some event) db' ≡ (ok tt, db')
    accepted done r same = elim (dispatch-IsSettled event.event_type now event db done refl r) [
      | inl registered ↦
          subst (λ (w : Db). handle_webhook later (some event) w ≡ (ok tt, w)) same
            (registered-IsSkipped event done registered later)
      | inr (unchanged, always) ↦
          subst (λ (w : Db). handle_webhook later (some event) w ≡ (ok tt, w)) (unchanged ∙ same)
            (rw (always later))
    ]

    refused :
        (x : Exception)
        → dispatch now event db ≡ err x
        → skip_repeated db (err x) ≡ (ok tt, db')
        → handle_webhook later (some event) db' ≡ (ok tt, db')
    refused x r s =
        let same : db ≡ db' = ground arith in
        let v : dispatch now event db ≡ err (known_request_error unique_violation) = ground arith in
        subst (λ (w : Db). handle_webhook later (some event) w ≡ (ok tt, w)) same
          (registered-IsSkipped event db (violation-IsRegistered now event db v) later)
