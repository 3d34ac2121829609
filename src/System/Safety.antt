-- ===== src/System/Safety.antt =====
-- What holds in every state that the server can reach.
use turf_sync.Prelude.{◌≡◌, true, IsIn, subst}
use turf_sync.Table.Unique.{IsUnique-eq}
use turf_sync.Schema.{Db, Booking, is_active_status}
use turf_sync.System.{
  Step, Reach, here, next, book_step, cancel_step, cleanup_step, complete_step, upsert_step,
  success_step, failed_step, processing_step, refund_step, generate_step, coupon_step, turf_step,
  cleanup_slots_step,
}
use turf_sync.System.Turfs.{TurfStep-SameTrade}
use turf_sync.System.Invariant.{IsConsistent, slot_booked}
use turf_sync.System.Creation.{book-IsConsistent}
use turf_sync.System.Bookings.{cancel_tx-IsConsistent}
use turf_sync.System.Cleanup.{cleanup_tx-IsConsistent, complete-IsConsistent}
use turf_sync.System.SlotTable.{generate_turf_slots-IsConsistent, cleanup_old_slots-IsConsistent}
use turf_sync.System.Coupons.{CouponStep-SameBookings}
use turf_sync.System.Payments.{
  SameBookings-IsConsistent, upsert_payment-SameBookings, failed_tx-SameBookings,
  processing-SameBookings, success_tx-IsConsistent, refund_tx-IsConsistent,
}

-- Every transaction of the server, at any arguments and on any consistent tables, leaves booking
-- numbers, slot numbers and the slots of bookings distinct, and every pending or confirmed booking
-- with its slot in the table and marked as booked.
pub Step-IsConsistent : {db db' : Db} → Step db db' → IsConsistent db → IsConsistent db'
Step-IsConsistent {db} {db'} (book_step id now dto user_id coupon b e) c =
    book-IsConsistent id now dto user_id coupon b db db' e c
Step-IsConsistent {db} {db'} (cancel_step id e) c = cancel_tx-IsConsistent id db db' e c
Step-IsConsistent {db} (cleanup_step candidate_ids e) c =
    subst IsConsistent e (cleanup_tx-IsConsistent db c candidate_ids)
Step-IsConsistent {db} (complete_step id e) c = subst IsConsistent e (complete-IsConsistent db c id)
Step-IsConsistent {db} {db'} (upsert_step id now b currency intent p e) c =
    SameBookings-IsConsistent db db'
      (upsert_payment-SameBookings id now b currency intent p db db' e) c
Step-IsConsistent {db} {db'} (success_step now event_id charge p e) c =
    success_tx-IsConsistent now event_id charge p db db' e c
Step-IsConsistent {db} {db'} (failed_step event_id reason payment_id e) c =
    SameBookings-IsConsistent db db' (failed_tx-SameBookings event_id reason payment_id db db' e) c
Step-IsConsistent {db} {db'} (processing_step event_id object e) c =
    SameBookings-IsConsistent db db' (processing-SameBookings event_id object db db' e) c
Step-IsConsistent {db} {db'} (refund_step booking_id payment_id slot_id e) c =
    refund_tx-IsConsistent booking_id payment_id slot_id db db' e c
Step-IsConsistent {db} (generate_step fresh turf date e) c =
    subst IsConsistent e (generate_turf_slots-IsConsistent fresh turf date db c)
Step-IsConsistent {db} {db'} (coupon_step s) c =
    SameBookings-IsConsistent db db' (CouponStep-SameBookings s) c
Step-IsConsistent {db} {db'} (turf_step s) c =
    let same = TurfStep-SameTrade s in
    SameBookings-IsConsistent db db' (record { bookings = same.bookings; slots = same.slots }) c
Step-IsConsistent {db} {db'} (cleanup_slots_step now e) c =
    cleanup_old_slots-IsConsistent now db db' e c

pub Reach-IsConsistent : {start db : Db} → Reach start db → IsConsistent start → IsConsistent db
Reach-IsConsistent here c = c
Reach-IsConsistent (next r s) c = Step-IsConsistent s (Reach-IsConsistent r c)

-- No double booking: however transactions interleave from consistent tables, two bookings of one
-- slot are one booking, and while it is pending or confirmed its slot is marked as booked.
pub no_double_booking :
    {start db : Db}
    → IsConsistent start
    → Reach start db
    → (b b' : Booking) → IsIn b db.bookings
    → IsIn b' db.bookings
    → b.slot_id ≡ b'.slot_id
    → (b ≡ b') × (is_active_status b.status ≡ true → slot_booked b.slot_id db.slots ≡ true)
no_double_booking c r b b' m m' e =
    let c' = Reach-IsConsistent r c in
    (IsUnique-eq (λ (b : Booking). b.slot_id) b b' _ c'.booking_slots m m' e, c'.held b m)
