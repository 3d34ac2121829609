-- ===== src/System/Reviews.antt =====
-- src/review/review.service.ts among the other transactions: a review between the tests of
-- `createReview` and its write, and after it.
use turf_sync.Prelude.{ℕ, ◌≡◌, refl, sym, subst, ap, inl, inr, arith, none, ◌∷◌, ◌∙◌, IsIn}
use turf_sync.Table.{find_unique}
use turf_sync.Table.Unique.{find_unique-eq-some, find_unique-eq-none}
use turf_sync.Schema.{Db, Booking, BookingStatus, Review}
use turf_sync.Outcome.{Exception, ok, err}
use turf_sync.Booking.{set_status}
use turf_sync.Review.{
  CreateReviewDto, check_review, new_review, insert_review, write_rating, create_review,
}
use turf_sync.Review.Create.{check_review-eq-ok, refused, no_turf, reviewed, create_review-Ending}
use turf_sync.Coupon.Admin.{create, update_coupon, delete}
use turf_sync.Coupon.Usage.{apply_coupon-IsApplied}
use turf_sync.System.{
  Step, Reach, here, next, TurfStep, add_turf_step, patch_turf_step, remove_turf_step, review_step,
  rating_step, turf_step, CouponStep, apply_step, create_step, update_step, set_active_step,
  delete_step,
}
use turf_sync.System.Extras.{Step-SameExtras}
use turf_sync.System.History.{Keeps-trans, Reach-Keeps}

insert_review-eq-ok :
    (new r : Review) (db db' : Db)
    → insert_review new db ≡ ok (r, db')
    → (r ≡ new) × (db'.reviews ≡ new ∷ db.reviews)
unfolding insert_review
insert_review-eq-ok new r db db' e = (ground arith, ground arith)

TurfStep-reviews :
    {db db' : Db} (r : Review) → TurfStep db db' → IsIn r db.reviews → IsIn r db'.reviews
unfolding write_rating
TurfStep-reviews r (add_turf_step id dto e) m = subst (λ (w : Db). IsIn r w.reviews) e m
TurfStep-reviews r (patch_turf_step id dto e) m = subst (λ (w : Db). IsIn r w.reviews) e m
TurfStep-reviews r (remove_turf_step id e) m = subst (λ (w : Db). IsIn r w.reviews) e m
TurfStep-reviews {db} {db'} r (review_step new x e) m =
    subst (IsIn r) (sym (insert_review-eq-ok new x db db' e).1) (inr m)
TurfStep-reviews {db} r (rating_step turf_id mean e) m = subst (IsIn r) (ground arith) m

CouponStep-reviews : {db db' : Db} → CouponStep db db' → db'.reviews ≡ db.reviews
unfolding create update_coupon delete
CouponStep-reviews {db} {db'} (apply_step coupon_id user_id booking_id discount e) =
    let done = apply_coupon-IsApplied coupon_id user_id booking_id discount db db' e in
    rw done.written refl
CouponStep-reviews (create_step id dto e) = ground arith
CouponStep-reviews (update_step id dto e) = ground arith
CouponStep-reviews (set_active_step id v e) = ground arith
CouponStep-reviews (delete_step id e) = ground arith

-- No transaction deletes or changes a review.
Step-reviews : {db db' : Db} (r : Review) → Step db db' → IsIn r db.reviews → IsIn r db'.reviews
Step-reviews r s m = elim (Step-SameExtras s) [
  | inl same ↦ subst (IsIn r) (sym same.reviews) m
  | inr (inl c) ↦ subst (IsIn r) (sym (CouponStep-reviews c)) m
  | inr (inr w) ↦ TurfStep-reviews r w m
]

Reach-reviews :
    {start db : Db} (r : Review) → Reach start db → IsIn r start.reviews → IsIn r db.reviews
Reach-reviews r here m = m
Reach-reviews r (next k s) m = Step-reviews r s (Reach-reviews r k m)

-- A review in the table keeps every other of its booking off it.
IsIn-not_reviewed :
    (r : Review) (id now : ℕ) (dto : CreateReviewDto) (user_id : ℕ) (db : Db)
    → IsIn r db.reviews
    → dto.booking_id ≡ r.booking_id
    → (e : Exception) × (create_review id now dto user_id db ≡ (err e, db))
IsIn-not_reviewed r id now dto user_id db m same =
    elim (create_review-Ending id now dto user_id db) [
      | refused e h ↦ (e, h)
      | no_turf b e k n t h ↦ absurd (other k.first (sym same))
      | reviewed b t k n f h ↦ absurd (other k.first (sym same))
    ]
  where
    other :
        find_unique (λ (x : Review). x.booking_id) dto.booking_id db.reviews ≡ none
        → r.booking_id ≡ dto.booking_id
        → ⊥
    other none_yet =
        find_unique-eq-none (λ (x : Review). x.booking_id) dto.booking_id r db.reviews none_yet m

-- A review that passed the tests of `createReview`, and whose row is accepted after any transactions
-- in between, is by the user and for the turf of its booking. Whatever transactions follow, the booking
-- and the review stay in the tables, and every later review of the booking, by anyone, is refused and
-- changes nothing.
pub review_stands :
    {read db db' later : Db} (id now : ℕ) (dto : CreateReviewDto) (user_id : ℕ) (b : Booking)
    (r : Review)
    → check_review dto user_id read ≡ ok b
    → Reach read db
    → insert_review (new_review id now dto user_id b) db ≡ ok (r, db')
    → Reach db' later
    → (id' now' : ℕ) (dto' : CreateReviewDto) (user_id' : ℕ) → dto'.booking_id ≡ dto.booking_id
    → ((v : BookingStatus) × IsIn (set_status v b) later.bookings)
      × (b.id ≡ r.booking_id)
      × (b.user_id ≡ r.user_id)
      × (b.turf_id ≡ r.turf_id)
      × (r.user_id ≡ user_id)
      × IsIn r later.reviews
      × ((e : Exception) × (create_review id' now' dto' user_id' later ≡ (err e, later)))
review_stands {read} {db} {db'} {later} id now dto user_id b r c before e after id' now' dto'
      user_id' same =
    let new = new_review id now dto user_id b in
    let k = check_review-eq-ok dto user_id read b c in
    let (m, asked) =
      find_unique-eq-some (λ (x : Booking). x.id) dto.booking_id b read.bookings k.found in
    let (is_new, added) = insert_review-eq-ok new r db db' e in
    let written = next before (turf_step (review_step new r e)) in
    let stays : IsIn r later.reviews =
      Reach-reviews r after (subst (IsIn r) (sym added) (inl (sym is_new))) in
    let of_booking = sym (ap (λ (x : Review). x.booking_id) is_new) in
    (
      Keeps-trans read.bookings db'.bookings later.bookings (Reach-Keeps written)
          (Reach-Keeps after) b m,
      of_booking,
      k.own ∙ sym (ap (λ (x : Review). x.user_id) is_new),
      sym (ap (λ (x : Review). x.turf_id) is_new),
      ap (λ (x : Review). x.user_id) is_new,
      stays,
      IsIn-not_reviewed r id' now' dto' user_id' later stays (same ∙ sym asked ∙ of_booking),
    )
