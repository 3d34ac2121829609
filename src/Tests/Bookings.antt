-- ===== src/Tests/Bookings.antt =====
-- Bookings of the tables of Data.
use turf_sync.Prelude.{ℕ, ◌≡◌, ◌≢◌, refl, inl, arith, true, false, none, some, [], ◌∷◌, IsIn}
use turf_sync.Table.{find_first, find_many, find_unique, update, update_many}
use turf_sync.Schema.{Booking, BookingStatus, is_active_status, is_cancelled}
use turf_sync.Outcome.{ok, is_ok}
use turf_sync.Booking.{
  select_slot, insert_booking, book, cancel_tx, release_slot, check_cancel, set_status,
}
use turf_sync.Booking.Request.{cancel, invalidated, queued_cancelled, counted_cancelled}
use turf_sync.Booking.Bookable.{IsBookable, book_iff}
use turf_sync.Payment.Effects.{booking_at}
use turf_sync.System.{Reach, here, next, book_step, cancel_step}
use turf_sync.System.Invariant.{slot_booked}
use turf_sync.System.Safety.{no_double_booking}
use turf_sync.System.History.{booked_once, Reach-Keeps}
use turf_sync.System.Release.{cancel_effect}
use turf_sync.Booking.Cleanup.{cleanup_stale_pending_bookings, is_stale}
use turf_sync.System.Expiry.{expired, cleanup_effect}
use turf_sync.Tests.Data.{
  dto, booking, open_db, booked_db, cancelled_db, open_db-IsConsistent, booked_db-IsConsistent,
}

book-open : book 21 100 dto 5 none open_db ≡ ok (booking, booked_db)
unfolding book select_slot find_unique find_first insert_booking update update_many
book-open = refl

cancel_tx-booked : cancel_tx 21 booked_db ≡ ok (tt, cancelled_db)
unfolding cancel_tx release_slot find_unique find_first find_many update update_many
cancel_tx-booked = refl

to_booked : Reach open_db booked_db
to_booked = next here (book_step 21 100 dto 5 none booking book-open)

to_cancelled : Reach booked_db cancelled_db
to_cancelled = next here (cancel_step 21 cancel_tx-booked)

no_double_booking_example :
    (booking ≡ booking)
    × (is_active_status booking.status ≡ true → slot_booked 11 booked_db.slots ≡ true)
no_double_booking_example =
    no_double_booking open_db-IsConsistent to_booked booking booking (inl refl) (inl refl) refl

booked_once_example : is_ok (book 22 200 dto 6 none cancelled_db) ≡ false
booked_once_example = booked_once booking (inl refl) to_cancelled 22 200 dto 6 none refl

Reach-Keeps_example : (v : BookingStatus) × IsIn (set_status v booking) cancelled_db.bookings
Reach-Keeps_example = Reach-Keeps to_cancelled booking (inl refl)

book_iff_example :
    (is_ok (book 21 100 dto 5 none open_db) ≡ true → IsBookable 21 11 1 open_db)
    × (IsBookable 21 11 1 open_db → is_ok (book 21 100 dto 5 none open_db) ≡ true)
book_iff_example = book_iff 21 100 dto 5 none open_db (ground arith) (ground arith)

cancelled_run :
    cancel true (λ db. db) 21 5 booked_db
    ≡ (ok tt, cancelled_db, invalidated 1 ∷ queued_cancelled 21 ∷ counted_cancelled ∷ [])
unfolding cancel check_cancel cancel_tx release_slot find_unique find_first find_many update
    update_many
cancelled_run = refl

cancel_effect_example :
    (owned b : Booking) × (booking_at 21 booked_db ≡ some owned)
    × (owned.user_id ≡ 5)
    × (is_cancelled owned.status ≡ false)
    × (booking_at 21 booked_db ≡ some b)
    × (is_cancelled b.status ≡ false)
    × (booking_at 21 cancelled_db ≡ some (set_status BookingStatus.cancelled b))
    × (slot_booked b.slot_id cancelled_db.slots ≡ false)
    × ((other : ℕ) → other ≢ 21 → booking_at other cancelled_db ≡ booking_at other booked_db)
    × IsIn
        (invalidated owned.turf_id)
        (invalidated 1 ∷ queued_cancelled 21 ∷ counted_cancelled ∷ [])
cancel_effect_example =
    cancel_effect true (λ db. db) 21 5 booked_db cancelled_db
      (invalidated 1 ∷ queued_cancelled 21 ∷ counted_cancelled ∷ []) booked_db-IsConsistent
      cancelled_run

cleanup_effect_example :
    (booking_at 21 (cleanup_stale_pending_bookings 1000000 booked_db).1
      ≡ some (expired 1000000 booking))
    × (is_stale 1000000 booking ≡ true
        → slot_booked 11 (cleanup_stale_pending_bookings 1000000 booked_db).1.slots ≡ false)
cleanup_effect_example = cleanup_effect 1000000 booked_db booking booked_db-IsConsistent (inl refl)
