-- ===== src/System/Extras.antt =====
-- The transactions on bookings, payments and slots leave coupons, their uses and reviews alone.
use turf_sync.Prelude.{
  ℕ, ◌≡◌, ◌⊎◌, refl, subst, inl, inr, arith, ◌∙◌, List, [], ◌∷◌, Option, List-cases, Bool-cases,
}
use turf_sync.Table.{find_many}
use turf_sync.Schema.{Db, BookingStatus, Payment, PaymentStatus, is_pending}
use turf_sync.Outcome.{ok, >>=-eq-ok}
use turf_sync.Booking.{cancel_tx, release_slot}
use turf_sync.Booking.Create.{book-eq-ok}
use turf_sync.Booking.Cleanup.{cleanup_tx, cancel_stale, release_slots, is_candidate}
use turf_sync.Booking.Complete.{complete}
use turf_sync.Payment.{
  upsert_payment, refund_tx, update_payment, update_booking_status, set_payment_status,
}
use turf_sync.Payment.Webhook.{register_event, failed_tx, handle_payment_processing, mark_paid}
use turf_sync.Slot.{generate_turf_slots, cleanup_old_slots}
use turf_sync.System.{
  Step, CouponStep, TurfStep, book_step, cancel_step, cleanup_step, complete_step, upsert_step,
  success_step, failed_step, processing_step, refund_step, generate_step, coupon_step, turf_step,
  cleanup_slots_step,
}
use turf_sync.System.Payments.{IsPaid, via, success_tx-IsPaid}

pub record SameExtras (db db' : Db) : Type 0 where
  pub coupons : db'.coupons ≡ db.coupons
  pub usages : db'.coupon_usages ≡ db.coupon_usages
  pub reviews : db'.reviews ≡ db.reviews

SameExtras-trans : (a b c : Db) → SameExtras a b → SameExtras b c → SameExtras a c
SameExtras-trans a b c s t = record {
  coupons = t.coupons ∙ s.coupons;
  usages = t.usages ∙ s.usages;
  reviews = t.reviews ∙ s.reviews;
}

release_slot-SameExtras : (slot_id id : ℕ) (db : Db) → SameExtras db (release_slot slot_id id db)
unfolding release_slot
release_slot-SameExtras slot_id id db = ground arith

release_slots-SameExtras : (xs : List ℕ) (db : Db) → SameExtras db (release_slots xs db)
unfolding release_slots
release_slots-SameExtras [] db = record { coupons = refl; usages = refl; reviews = refl }
release_slots-SameExtras (x ∷ xs) db = record { coupons = refl; usages = refl; reviews = refl }

cancel_tx-SameExtras : (id : ℕ) (db db' : Db) → cancel_tx id db ≡ ok (tt, db') → SameExtras db db'
unfolding cancel_tx release_slot
cancel_tx-SameExtras id db db' e = ground arith

cleanup_tx-SameExtras :
    (candidate_ids : List ℕ) (db : Db) → SameExtras db (cleanup_tx candidate_ids db).1
unfolding cleanup_tx cancel_stale
cleanup_tx-SameExtras candidate_ids db =
    elim (List-cases (find_many (is_candidate candidate_ids) db.bookings)) [
      | inl e ↦ rw (e, cleanup_tx) (record { coupons = refl; usages = refl; reviews = refl })
      | inr (b, bs, e) ↦
          rw (e, cleanup_tx)
            (let s = release_slots-SameExtras in
              record {
                coupons = (s _ _).coupons;
                usages = (s _ _).usages;
                reviews = (s _ _).reviews;
              })
    ]

update_booking_status-SameExtras :
    (id : ℕ) (v : BookingStatus) (db db' : Db)
    → update_booking_status id v db ≡ ok (tt, db')
    → SameExtras db db'
unfolding update_booking_status
update_booking_status-SameExtras id v db db' e = ground arith

update_payment-SameExtras :
    (id : ℕ) (f : Payment → Payment) (db db' : Db)
    → update_payment id f db ≡ ok (tt, db')
    → SameExtras db db'
unfolding update_payment
update_payment-SameExtras id f db db' e = ground arith

register_event-SameExtras :
    (id : ℕ) (db db' : Db) → register_event id db ≡ ok (tt, db') → SameExtras db db'
unfolding register_event
register_event-SameExtras id db db' e = ground arith

success_tx-SameExtras :
    (now event_id : ℕ) (charge : Option ℕ) (p : Payment) (db db' : Db)
    → IsPaid now event_id charge p db db'
    → SameExtras db db'
success_tx-SameExtras now event_id charge p db db' (via registered paid b r f u l) =
    SameExtras-trans db registered db' (register_event-SameExtras event_id db registered r) (
      SameExtras-trans registered paid db'
        (update_payment-SameExtras p.id (mark_paid now charge) registered paid u)
        (elim (Bool-cases (is_pending b.status)) [
          | inl t ↦
              update_booking_status-SameExtras p.booking_id BookingStatus.confirmed paid db'
                (rw t at l)
          | inr n ↦ record { coupons = ground arith; usages = ground arith; reviews = ground arith }
        ]))

refund_tx-SameExtras :
    (booking_id payment_id slot_id : ℕ) (db db' : Db)
    → refund_tx booking_id payment_id slot_id db ≡ ok (tt, db')
    → SameExtras db db'
unfolding refund_tx
refund_tx-SameExtras booking_id payment_id slot_id db db' e =
    let ((_, paid), u, e1) =
      >>=-eq-ok (update_payment payment_id (set_payment_status PaymentStatus.refunded) db) _ e in
    let ((_, cancelled), w, e2) =
      >>=-eq-ok (update_booking_status booking_id BookingStatus.cancelled paid) _ e1 in
    let last = release_slot-SameExtras slot_id booking_id cancelled in
    let same : release_slot slot_id booking_id cancelled ≡ db' = ground arith in
    SameExtras-trans db paid db'
      (update_payment-SameExtras payment_id (set_payment_status PaymentStatus.refunded) db paid u)
      (SameExtras-trans paid cancelled db'
        (update_booking_status-SameExtras booking_id BookingStatus.cancelled paid cancelled w)
        (subst (SameExtras cancelled) same last))

-- Every transaction leaves them alone, or is one of the coupons', the turfs' or the reviews'.
pub Step-SameExtras :
    {db db' : Db} → Step db db' → SameExtras db db' ⊎ (CouponStep db db' ⊎ TurfStep db db')
unfolding complete upsert_payment failed_tx register_event update_payment handle_payment_processing
    generate_turf_slots cleanup_old_slots
Step-SameExtras {db} {db'} (book_step id now dto user_id coupon b e) =
    let done = book-eq-ok id now dto user_id coupon db b db' e in
    inl (rw done.written (record { coupons = refl; usages = refl; reviews = refl }))
Step-SameExtras {db} {db'} (cancel_step id e) = inl (cancel_tx-SameExtras id db db' e)
Step-SameExtras {db} {db'} (cleanup_step candidate_ids e) =
    inl (subst (SameExtras db) e (cleanup_tx-SameExtras candidate_ids db))
Step-SameExtras {db} {db'} (complete_step id e) = inl (ground arith)
Step-SameExtras {db} {db'} (upsert_step id now b currency intent p e) = inl (ground arith)
Step-SameExtras {db} {db'} (success_step now event_id charge p e) = inl (
    success_tx-SameExtras now event_id charge p db db'
      (success_tx-IsPaid now event_id charge p db db' e))
Step-SameExtras {db} {db'} (failed_step event_id reason payment_id e) = inl (ground arith)
Step-SameExtras {db} {db'} (processing_step event_id object e) = inl (ground arith)
Step-SameExtras {db} {db'} (refund_step booking_id payment_id slot_id e) =
    inl (refund_tx-SameExtras booking_id payment_id slot_id db db' e)
Step-SameExtras {db} {db'} (generate_step fresh turf date e) = inl (ground arith)
Step-SameExtras (coupon_step s) = inr (inl s)
Step-SameExtras (turf_step s) = inr (inr s)
Step-SameExtras {db} {db'} (cleanup_slots_step now e) = inl (ground arith)
