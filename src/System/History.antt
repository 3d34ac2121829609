-- ===== src/System/History.antt =====
-- Bookings are never deleted: what that means for the slot of a cancelled one.
use turf_sync.Prelude.{
  ℕ, Bool, false, List, [], ◌∷◌, ◌≡◌, refl, sym, subst, inl, inr, arith, ◌==◌, ◌∙◌, IsIn, Option,
  Option-cases, List-cases, Bool-cases,
}
use turf_sync.Table.{find_unique, find_many, update_many, update}
use turf_sync.Table.Laws.{IsIn-update_many, find_first-eq-none}
use turf_sync.Schema.{Db, Booking, BookingStatus, Payment, PaymentStatus, is_cancelled, is_pending}
use turf_sync.Outcome.{ok, is_ok, >>=-eq-ok, Result-cases}
use turf_sync.Booking.{
  CreateBookingDto, ValidatedCoupon, set_status, book, cancel_tx, release_slot, clashes,
  new_booking,
}
use turf_sync.Booking.Create.{book-eq-ok}
use turf_sync.Booking.Cleanup.{ids, is_candidate, release_slots, cancel_stale, cleanup_tx}
use turf_sync.Booking.Complete.{complete}
use turf_sync.Payment.{update_booking_status, refund_tx, update_payment, set_payment_status}
use turf_sync.Payment.Webhook.{mark_paid}
use turf_sync.Slot.{generate_turf_slots, cleanup_old_slots}
use turf_sync.System.{
  Step, Reach, here, next, book_step, cancel_step, cleanup_step, complete_step, upsert_step,
  success_step, failed_step, processing_step, refund_step, generate_step, coupon_step, turf_step,
  cleanup_slots_step,
}
use turf_sync.System.Turfs.{TurfStep-SameTrade}
use turf_sync.System.Coupons.{CouponStep-SameBookings}
use turf_sync.System.Payments.{
  SameBookings, upsert_payment-SameBookings, failed_tx-SameBookings, processing-SameBookings,
  register_event-SameBookings, update_payment-SameBookings, IsPaid, via, success_tx-IsPaid,
}

-- Each booking of the first tables is in the second, with nothing but its status changed.
abbrev pub Keeps : List Booking → List Booking → Type 0
Keeps bs bs' = (b : Booking) → IsIn b bs → (v : BookingStatus) × IsIn (set_status v b) bs'

pub Keeps-refl : (bs : List Booking) → Keeps bs bs
Keeps-refl bs b m = (b.status, m)

pub Keeps-trans : (xs ys zs : List Booking) → Keeps xs ys → Keeps ys zs → Keeps xs zs
Keeps-trans xs ys zs h k b m = let (v, n) = h b m in k (set_status v b) n

pub Keeps-update_many :
    (p : Booking → Bool) (v : BookingStatus) (bs : List Booking)
    → Keeps bs (update_many p (set_status v) bs)
Keeps-update_many p v bs b m =
    let n = IsIn-update_many p (set_status v) b bs m in
    elim (Bool-cases (p b)) [ inl t ↦ (v, rw t at n) | inr f ↦ (b.status, rw f at n) ]

release_slot-bookings :
    (slot_id id : ℕ) (db : Db) → (release_slot slot_id id db).bookings ≡ db.bookings
unfolding release_slot
release_slot-bookings slot_id id db = ground arith

pub release_slots-bookings : (xs : List ℕ) (db : Db) → (release_slots xs db).bookings ≡ db.bookings
unfolding release_slots
release_slots-bookings [] db = refl
release_slots-bookings (x ∷ xs) db = refl

book-Keeps :
    (id now : ℕ) (dto : CreateBookingDto) (user_id : ℕ) (coupon : Option ValidatedCoupon)
    (b : Booking) (db db' : Db)
    → book id now dto user_id coupon db ≡ ok (b, db')
    → Keeps db.bookings db'.bookings
book-Keeps id now dto user_id coupon b db db' e =
    let done = book-eq-ok id now dto user_id coupon db b db' e in
    subst (λ (w : Db). Keeps db.bookings w.bookings) (sym done.written) (λ x m. (x.status, inr m))

cancel_tx-Keeps :
    (id : ℕ) (db db' : Db) → cancel_tx id db ≡ ok (tt, db') → Keeps db.bookings db'.bookings
unfolding cancel_tx update
cancel_tx-Keeps id db db' e =
    elim (Option-cases (find_unique (λ (b : Booking). b.id) id db.bookings)) [
      | inl n ↦ absurd (ground arith)
      | inr (b, f) ↦ elim (Bool-cases (is_cancelled b.status)) [
        | inl t ↦ absurd (ground arith)
        | inr t ↦
            let same = release_slot-bookings b.slot_id id (record db {
              bookings =
                  update_many (λ x. x.id == id) (set_status BookingStatus.cancelled) db.bookings;
            }) in
            subst (Keeps db.bookings) (ground arith)
              (Keeps-update_many (λ x. x.id == id) BookingStatus.cancelled db.bookings)
      ]
    ]

cleanup_tx-Keeps :
    (candidate_ids : List ℕ) (db : Db) → Keeps db.bookings (cleanup_tx candidate_ids db).1.bookings
unfolding cleanup_tx cancel_stale
cleanup_tx-Keeps candidate_ids db =
    elim (List-cases (find_many (is_candidate candidate_ids) db.bookings)) [
      | inl e ↦ rw (e, cleanup_tx) (Keeps-refl db.bookings)
      | inr (b, bs, e) ↦
          rw (e, cleanup_tx)
            (rw release_slots-bookings
              (Keeps-update_many (is_candidate (ids (b ∷ bs))) BookingStatus.cancelled db.bookings))
    ]

update_booking_status-Keeps :
    (id : ℕ) (v : BookingStatus) (db db' : Db)
    → update_booking_status id v db ≡ ok (tt, db')
    → Keeps db.bookings db'.bookings
unfolding update_booking_status update
update_booking_status-Keeps id v db db' e =
    subst (Keeps db.bookings) (ground arith) (Keeps-update_many (λ x. x.id == id) v db.bookings)

success_tx-Keeps :
    (now event_id : ℕ) (charge : Option ℕ) (p : Payment) (db db' : Db)
    → IsPaid now event_id charge p db db'
    → Keeps db.bookings db'.bookings
success_tx-Keeps now event_id charge p db db' (via registered paid b r f u l) =
    let r' = register_event-SameBookings event_id db registered r in
    let u' = update_payment-SameBookings p.id (mark_paid now charge) registered paid u in
    subst (λ bs. Keeps bs db'.bookings) (u'.bookings ∙ r'.bookings)
      (elim (Bool-cases (is_pending b.status)) [
        | inl t ↦
            update_booking_status-Keeps p.booking_id BookingStatus.confirmed paid db' (rw t at l)
        | inr n ↦
            let same : paid ≡ db' = ground arith in
            subst (λ (w : Db). Keeps paid.bookings w.bookings) same (Keeps-refl paid.bookings)
      ])

refund_tx-Keeps :
    (booking_id payment_id slot_id : ℕ) (db db' : Db)
    → refund_tx booking_id payment_id slot_id db ≡ ok (tt, db')
    → Keeps db.bookings db'.bookings
unfolding refund_tx
refund_tx-Keeps booking_id payment_id slot_id db db' e =
    let ((_, paid), u, e1) =
      >>=-eq-ok (update_payment payment_id (set_payment_status PaymentStatus.refunded) db) _ e in
    let ((_, cancelled), w, e2) =
      >>=-eq-ok (update_booking_status booking_id BookingStatus.cancelled paid) _ e1 in
    let same =
      update_payment-SameBookings payment_id (set_payment_status PaymentStatus.refunded) db paid
        u in
    let last = release_slot-bookings slot_id booking_id cancelled in
    subst (Keeps db.bookings) (ground arith) (
      subst (λ bs. Keeps bs cancelled.bookings) same.bookings
        (update_booking_status-Keeps booking_id BookingStatus.cancelled paid cancelled w))

cleanup_old_slots-bookings :
    (now : ℕ) (db db' : Db) → cleanup_old_slots now db ≡ ok db' → db'.bookings ≡ db.bookings
unfolding cleanup_old_slots
cleanup_old_slots-bookings now db db' e = ground arith

SameBookings-Keeps : (db db' : Db) → SameBookings db db' → Keeps db.bookings db'.bookings
SameBookings-Keeps db db' s = subst (Keeps db.bookings) (sym s.bookings) (Keeps-refl db.bookings)

-- No transaction deletes a booking or changes anything of it but its status.
pub Step-Keeps : {db db' : Db} → Step db db' → Keeps db.bookings db'.bookings
unfolding complete generate_turf_slots update
Step-Keeps {db} {db'} (book_step id now dto user_id coupon b e) =
    book-Keeps id now dto user_id coupon b db db' e
Step-Keeps {db} {db'} (cancel_step id e) = cancel_tx-Keeps id db db' e
Step-Keeps {db} (cleanup_step candidate_ids e) =
    subst (λ (w : Db). Keeps db.bookings w.bookings) e (cleanup_tx-Keeps candidate_ids db)
Step-Keeps {db} (complete_step id e) =
    subst (λ (w : Db). Keeps db.bookings w.bookings) e
      (Keeps-update_many (λ x. x.id == id) BookingStatus.completed db.bookings)
Step-Keeps {db} {db'} (upsert_step id now b currency intent p e) =
    SameBookings-Keeps db db' (upsert_payment-SameBookings id now b currency intent p db db' e)
Step-Keeps {db} {db'} (success_step now event_id charge p e) =
    success_tx-Keeps now event_id charge p db db' (success_tx-IsPaid now event_id charge p db db' e)
Step-Keeps {db} {db'} (failed_step event_id reason payment_id e) =
    SameBookings-Keeps db db' (failed_tx-SameBookings event_id reason payment_id db db' e)
Step-Keeps {db} {db'} (processing_step event_id object e) =
    SameBookings-Keeps db db' (processing-SameBookings event_id object db db' e)
Step-Keeps {db} {db'} (refund_step booking_id payment_id slot_id e) =
    refund_tx-Keeps booking_id payment_id slot_id db db' e
Step-Keeps {db} (generate_step fresh turf date e) =
    subst (λ (w : Db). Keeps db.bookings w.bookings) e (Keeps-refl db.bookings)
Step-Keeps {db} {db'} (coupon_step s) = SameBookings-Keeps db db' (CouponStep-SameBookings s)
Step-Keeps {db} {db'} (turf_step s) =
    subst (Keeps db.bookings) (sym (TurfStep-SameTrade s).bookings) (Keeps-refl db.bookings)
Step-Keeps {db} {db'} (cleanup_slots_step now e) =
    subst (Keeps db.bookings) (sym (cleanup_old_slots-bookings now db db' e))
      (Keeps-refl db.bookings)

-- However transactions interleave, every booking of the start is still there at the end, with the
-- same number, user, turf, slot, amount, notes and creation time.
pub Reach-Keeps : {start db : Db} → Reach start db → Keeps start.bookings db.bookings
Reach-Keeps {start} here = Keeps-refl start.bookings
Reach-Keeps {start} {db} (next {db = mid} r s) =
    Keeps-trans start.bookings mid.bookings db.bookings (Reach-Keeps r) (Step-Keeps s)

-- A row on a slot keeps every new booking off it, whatever its status.
pub IsIn-not_book :
    (b : Booking) (db : Db)
    → IsIn b db.bookings
    → (id now : ℕ) (dto : CreateBookingDto) (user_id : ℕ) (coupon : Option ValidatedCoupon)
    → dto.slot_id ≡ b.slot_id
    → is_ok (book id now dto user_id coupon db) ≡ false
IsIn-not_book b db m id now dto user_id coupon e =
    elim (Result-cases (book id now dto user_id coupon db)) [
      | inr (x, h) ↦ rw h
      | inl ((new, db'), h) ↦
          let done = book-eq-ok id now dto user_id coupon db new db' h in
          let f =
            find_first-eq-none (clashes (new_booking id now dto user_id coupon done.row)) b
              db.bookings done.no_clash m in
          absurd (ground arith)
    ]

-- Once a slot has been booked it is never booked again: whatever transactions follow, also the
-- cancellation of the booking, every later booking of the slot is refused.
pub booked_once :
    {start db : Db} (b : Booking)
    → IsIn b start.bookings
    → Reach start db
    → (id now : ℕ) (dto : CreateBookingDto) (user_id : ℕ) (coupon : Option ValidatedCoupon)
    → dto.slot_id ≡ b.slot_id
    → is_ok (book id now dto user_id coupon db) ≡ false
booked_once {start} {db} b m r id now dto user_id coupon e =
    let (v, n) = Reach-Keeps r b m in
    IsIn-not_book (set_status v b) db n id now dto user_id coupon e
