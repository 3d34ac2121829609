-- ===== src/Booking/Complete.antt =====
-- src/booking/booking-complete.job.ts and `completeBooking` of src/admin/admin.service.ts.
use turf_sync.Prelude.{
  ℕ, Bool, false, not, ◌&&◌, none, some, List, [], ◌∷◌, leb, ltb, if◌then◌else◌,
}
use turf_sync.Table.{find_unique, update}
use turf_sync.Schema.{Db, Slot, Booking, BookingStatus, is_confirmed}
use turf_sync.Outcome.{not_found, bad_request, Reason, ok, ◌>>=◌, ◌>>◌, throw_if, or_throw, Tx}
use turf_sync.TimeText.{hour_of}
use turf_sync.Date.{set_utc_hours}
use turf_sync.Booking.{set_status}

-- `prisma.booking.update({ where: { id }, data: { status: COMPLETED } })`
unfoldable pub complete : ℕ → Db → Db
complete id db = record db {
  bookings = update (λ (b : Booking). b.id) id (set_status BookingStatus.completed) db.bookings;
}

-- A booking with the slot that `include: { slot: true }` joins.
pub record BookingWithSlot : Type 0 where
  pub booking : Booking
  pub slot : Slot

-- `status: CONFIRMED, slot: { date: { lte: now } }`
unfoldable pub confirmed_until : ℕ → List Slot → List Booking → List BookingWithSlot
confirmed_until now slots [] = []
confirmed_until now slots (b ∷ bs) =
    let rest = confirmed_until now slots bs in
    elim (find_unique (λ (s : Slot). s.id) b.slot_id slots) [
      | none ↦ rest
      | some s ↦
          if is_confirmed b.status && leb s.date now
          then record { booking = b; slot = s } ∷ rest
          else rest
    ]

-- `now > slotDate`, with `slotDate` at the end hour; an hour that is no number makes an invalid
-- date, which no date is later than.
unfoldable pub has_ended : ℕ → Slot → Bool
has_ended now s = elim (hour_of s.end_time) [
  | none ↦ false
  | some end_hour ↦ ltb (set_utc_hours s.date end_hour 0) now
]

unfoldable pub complete_ended : ℕ → List BookingWithSlot → Db → Db
complete_ended now [] db = db
complete_ended now (r ∷ rs) db =
    complete_ended now rs (if has_ended now r.slot then complete r.booking.id db else db)

unfoldable pub auto_complete_bookings : ℕ → Db → Db
auto_complete_bookings now db = complete_ended now (confirmed_until now db.slots db.bookings) db

-- `completeBooking`, but for its audit log
unfoldable pub complete_booking : ℕ → Tx (Unit {0})
complete_booking id db = do
  b ←
      or_throw (find_unique (λ (b : Booking). b.id) id db.bookings)
        (not_found Reason.booking_not_found)
  throw_if (not (is_confirmed b.status)) (bad_request Reason.not_confirmed)
  ok (tt, complete id db)
