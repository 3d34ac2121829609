-- ===== src/System/Payments.antt =====
-- The transactions of PaymentService keep the invariant.
use turf_sync.Prelude.{
  ℕ, true, some, ◌≡◌, subst, inl, inr, arith, ◌==◌, if◌then◌else◌, IsIn, Option, Bool-cases, String,
}
use turf_sync.Table.{find_unique, update}
use turf_sync.Table.Unique.{find_unique-eq-some, IsUnique-eq}
use turf_sync.Schema.{
  Db, Booking, BookingStatus, Payment, PaymentStatus, is_active_status, is_pending,
}
use turf_sync.Outcome.{ok, >>=-eq-ok, or_throw-eq-ok, or_throw, not_found, Reason}
use turf_sync.Payment.{
  PaymentIntent, upsert_payment, update_payment, update_booking_status, refund_tx,
  set_payment_status,
}
use turf_sync.Payment.Webhook.{
  IntentObject, register_event, success_tx, failed_tx, handle_payment_processing, mark_paid,
}
use turf_sync.System.Invariant.{IsConsistent}
use turf_sync.System.Bookings.{update_status-IsConsistent, release_cancelled-IsConsistent}

-- Tables that only the payments tell apart.
pub record SameBookings (db db' : Db) : Type 0 where
  pub bookings : db'.bookings ≡ db.bookings
  pub slots : db'.slots ≡ db.slots

pub SameBookings-IsConsistent :
    (db db' : Db) → SameBookings db db' → IsConsistent db → IsConsistent db'
SameBookings-IsConsistent db db' s c = record {
  booking_ids = rw s.bookings c.booking_ids;
  booking_slots = rw s.bookings c.booking_slots;
  slot_numbers = rw s.slots c.slot_numbers;
  held = rw (s.bookings, s.slots) c.held;
}

pub upsert_payment-SameBookings :
    (id now : ℕ) (b : Booking) (currency : String) (intent : PaymentIntent) (p : Payment)
    (db db' : Db)
    → upsert_payment id now b currency intent db ≡ ok (p, db')
    → SameBookings db db'
unfolding upsert_payment
upsert_payment-SameBookings id now b currency intent p db db' e = ground arith

pub register_event-SameBookings :
    (id : ℕ) (db db' : Db) → register_event id db ≡ ok (tt, db') → SameBookings db db'
unfolding register_event
register_event-SameBookings id db db' e = ground arith

pub update_payment-SameBookings :
    (id : ℕ) (f : Payment → Payment) (db db' : Db)
    → update_payment id f db ≡ ok (tt, db')
    → SameBookings db db'
unfolding update_payment
update_payment-SameBookings id f db db' e = ground arith

pub failed_tx-SameBookings :
    (event_id : ℕ) (reason : String) (payment_id : ℕ) (db db' : Db)
    → failed_tx event_id reason payment_id db ≡ ok (tt, db')
    → SameBookings db db'
unfolding failed_tx register_event update_payment
failed_tx-SameBookings event_id reason payment_id db db' e = ground arith

pub processing-SameBookings :
    (event_id : ℕ) (object : IntentObject) (db db' : Db)
    → handle_payment_processing event_id object db ≡ ok (tt, db')
    → SameBookings db db'
unfolding handle_payment_processing register_event
processing-SameBookings event_id object db db' e = ground arith

-- Confirming a booking that was found pending.
pub confirm-IsConsistent :
    (id : ℕ) (b : Booking) (db db' : Db)
    → find_unique (λ (b : Booking). b.id) id db.bookings ≡ some b
    → is_pending b.status ≡ true
    → update_booking_status id BookingStatus.confirmed db ≡ ok (tt, db')
    → IsConsistent db
    → IsConsistent db'
unfolding update_booking_status update
confirm-IsConsistent id b db db' f t e c = subst IsConsistent (ground arith) (
    update_status-IsConsistent (λ x. x.id == id) BookingStatus.confirmed db
      (λ x m h _. was_active x m h) c)
  where
    was_active :
        (x : Booking) → IsIn x db.bookings → (x.id == id) ≡ true → is_active_status x.status ≡ true
    was_active x m h =
        let (n, i) = find_unique-eq-some (λ (b : Booking). b.id) id b db.bookings f in
        let same : x ≡ b =
          IsUnique-eq (λ (b : Booking). b.id) x b db.bookings c.booking_ids m n (ground arith) in
        ground arith

-- What a success transaction that goes through has done.
pub data IsPaid (now event_id : ℕ) (charge : Option ℕ) (p : Payment) (db db' : Db) : Type 0 where
  via :
      (registered paid : Db) (b : Booking)
      → register_event event_id db ≡ ok (tt, registered)
      → find_unique (λ (b : Booking). b.id) p.booking_id registered.bookings ≡ some b
      → update_payment p.id (mark_paid now charge) registered ≡ ok (tt, paid)
      → (if is_pending b.status
          then update_booking_status p.booking_id BookingStatus.confirmed paid
          else ok (tt, paid))
        ≡ ok (tt, db')
      → IsPaid now event_id charge p db db'

pub success_tx-IsPaid :
    (now event_id : ℕ) (charge : Option ℕ) (p : Payment) (db db' : Db)
    → success_tx now event_id charge p db ≡ ok (tt, db')
    → IsPaid now event_id charge p db db'
unfolding success_tx
success_tx-IsPaid now event_id charge p db db' e =
    let ((_, registered), r, e1) = >>=-eq-ok (register_event event_id db) _ e in
    let (b, f, e2) =
      >>=-eq-ok
        (or_throw (find_unique (λ (b : Booking). b.id) p.booking_id registered.bookings)
          (not_found Reason.booking_not_found))
        _ e1 in
    let ((_, paid), u, e3) =
      >>=-eq-ok (update_payment p.id (mark_paid now charge) registered) _ e2 in
    via registered paid b r (or_throw-eq-ok _ _ f) u e3

pub success_tx-IsConsistent :
    (now event_id : ℕ) (charge : Option ℕ) (p : Payment) (db db' : Db)
    → success_tx now event_id charge p db ≡ ok (tt, db')
    → IsConsistent db
    → IsConsistent db'
success_tx-IsConsistent now event_id charge p db db' e c =
    finish (success_tx-IsPaid now event_id charge p db db' e)
  where
    finish : IsPaid now event_id charge p db db' → IsConsistent db'
    finish (via registered paid b r f u l) =
        let same = update_payment-SameBookings p.id (mark_paid now charge) registered paid u in
        let c1 =
          SameBookings-IsConsistent db registered
            (register_event-SameBookings event_id db registered r) c in
        let c2 = SameBookings-IsConsistent registered paid same c1 in
        elim (Bool-cases (is_pending b.status)) [
          | inl t ↦
              confirm-IsConsistent p.booking_id b paid db' (rw same.bookings f) t (rw t at l) c2
          | inr n ↦ subst IsConsistent (ground arith) c2
        ]

pub refund_tx-IsConsistent :
    (booking_id payment_id slot_id : ℕ) (db db' : Db)
    → refund_tx booking_id payment_id slot_id db ≡ ok (tt, db')
    → IsConsistent db
    → IsConsistent db'
unfolding refund_tx update_booking_status
refund_tx-IsConsistent booking_id payment_id slot_id db db' e c =
    let ((_, paid), u, e1) =
      >>=-eq-ok (update_payment payment_id (set_payment_status PaymentStatus.refunded) db) _ e in
    let same =
      update_payment-SameBookings payment_id (set_payment_status PaymentStatus.refunded) db paid
        u in
    subst IsConsistent (ground arith) (
      release_cancelled-IsConsistent slot_id booking_id paid
        (SameBookings-IsConsistent db paid same c))
