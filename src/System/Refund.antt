-- ===== src/System/Refund.antt =====
-- What `refund` leaves, on consistent tables.
use turf_sync.Prelude.{
  ℕ, ◌≡◌, ◌≢◌, refl, subst, inl, inr, arith, true, false, Option, some, Option-cases,
}
use turf_sync.Table.{find_unique, update}
use turf_sync.Table.Unique.{
  IsUnique, find_unique-eq-some, find_unique-update_self, find_unique-IsIn,
}
use turf_sync.Schema.{Db, Slot, Booking, BookingStatus, Payment, PaymentStatus, is_paid}
use turf_sync.Outcome.{ok}
use turf_sync.Booking.{set_status, release_slot}
use turf_sync.Payment.{
  StripeClient, refund, refund_tx, check_refund, find_payment, payment_of, has_started,
  update_payment, update_booking_status, set_payment_status,
}
use turf_sync.Payment.Effects.{booking_at, payment_at}
use turf_sync.System.Invariant.{IsConsistent, slot_booked}
use turf_sync.System.Payments.{SameBookings-IsConsistent}
use turf_sync.System.Release.{cancelled_release}

release_slot-payments :
    (slot_id id : ℕ) (db : Db) → (release_slot slot_id id db).payments ≡ db.payments
unfolding release_slot
release_slot-payments slot_id id db = ground arith

-- A refund that is answered with success, from consistent tables with distinct payment numbers: the
-- user owned the booking, its payment was paid, and its slot had not started; now the payment is
-- refunded, the booking is cancelled, its slot is free, and every other booking is as it was.
pub refund_effect :
    (stripe : StripeClient) (now id user_id refund_id : ℕ) (db db' : Db)
    → IsConsistent db
    → IsUnique (λ (p : Payment). p.id) db.payments
    → refund stripe now id user_id db ≡ ok (refund_id, db')
    → (b : Booking) × (p : Payment) × (s : Slot) × (booking_at id db ≡ some b)
      × (payment_of id db ≡ some p)
      × (find_unique (λ (s : Slot). s.id) b.slot_id db.slots ≡ some s)
      × (b.user_id ≡ user_id)
      × (is_paid p.status ≡ true)
      × (has_started now s ≡ false)
      × (payment_at p.id db' ≡ some (set_payment_status PaymentStatus.refunded p))
      × (booking_at id db' ≡ some (set_status BookingStatus.cancelled b))
      × (slot_booked b.slot_id db'.slots ≡ false)
      × ((other : ℕ) → other ≢ id → booking_at other db' ≡ booking_at other db)
unfolding refund check_refund find_payment refund_tx update_payment update_booking_status
refund_effect stripe now id user_id refund_id db db' c u e =
    elim (Option-cases (payment_of id db)) [
      | inl n ↦ absurd (ground arith)
      | inr (p, f) ↦
          let (m, i) = find_unique-eq-some (λ (p : Payment). p.booking_id) id p db.payments f in
          elim (Option-cases (booking_at id db)) [
            | inl n ↦ absurd (let n' = at_booking p n i in ground arith)
            | inr (b, g) ↦
                let g' = at_booking p g i in
                elim (Option-cases (find_unique (λ (s : Slot). s.id) b.slot_id db.slots)) [
                  | inl n ↦ absurd (ground arith)
                  | inr (s, h) ↦
                      let j = (find_unique-eq-some (λ (s : Slot). s.id) b.slot_id s db.slots h).1 in
                      let k = find_unique-IsIn (λ (p : Payment). p.id) p db.payments u m in
                      let paid = record db {
                        payments =
                            update (λ (p : Payment). p.id) p.id
                              (set_payment_status PaymentStatus.refunded) db.payments;
                      } in
                      let c' : IsConsistent paid =
                        SameBookings-IsConsistent db paid (record { bookings = refl; slots = refl })
                          c in
                      let before = record paid {
                        bookings =
                            update (λ (b : Booking). b.id) id (set_status BookingStatus.cancelled)
                              db.bookings;
                      } in
                      let done : release_slot b.slot_id id before ≡ db' = ground arith in
                      let (x, y, z) = cancelled_release paid c' id b g db' done in
                      let refunded =
                        find_unique-update_self (λ (p : Payment). p.id)
                          (set_payment_status PaymentStatus.refunded) p.id p db.payments (λ x. refl)
                          k in
                      (
                        b,
                        p,
                        s,
                        g,
                        f,
                        h,
                        ground arith,
                        ground arith,
                        ground arith,
                        subst
                            (λ (w : Db).
                              payment_at p.id w
                              ≡ some (set_payment_status PaymentStatus.refunded p))
                            done (rw release_slot-payments refunded),
                        x,
                        y,
                        z,
                      )
                ]
          ]
    ]
  where
    at_booking :
        {o : Option Booking} (p : Payment)
        → booking_at id db ≡ o
        → p.booking_id ≡ id
        → booking_at p.booking_id db ≡ o
    at_booking p g i = rw i g
