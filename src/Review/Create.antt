-- ===== src/Review/Create.antt =====
-- src/review/review.service.ts: when `createReview` accepts a review, and what it then writes.
use turf_sync.Prelude.{
  ◌↔◌, ℕ, ◌≡◌, ◌↔◌, refl, sym, ap, subst, inl, inr, arith, true, not, none, some, ◌∷◌, ◌==◌,
  Option-cases, is_some, ==_iff,
}
use turf_sync.Table.{find_first, find_unique, update}
use turf_sync.Schema.{Db, Booking, Review, Turf, Mean}
use turf_sync.Outcome.{
  known_request_error, unique_violation, record_not_found, Exception, Result, ok, err, >>=-eq-ok,
  throw_if, throw_if-eq-ok, or_throw, or_throw-eq-ok, Result-cases,
}
use turf_sync.Review.{
  CreateReviewDto, is_completed, check_review, new_review, review_clashes, insert_review,
  average_rating, set_rating, write_rating, update_turf_rating, create_review,
}

abbrev pub with_review : Review → Db → Db
with_review new db = record db { reviews = new ∷ db.reviews }

abbrev pub with_rating : ℕ → Mean → Db → Db
with_rating turf_id mean db = record db {
  turfs = update (λ (t : Turf). t.id) turf_id (set_rating mean) db.turfs;
}

-- What the tests of `createReview` have found when they pass.
pub record IsReviewable (dto : CreateReviewDto) (user_id : ℕ) (db : Db) (b : Booking) : Type 0 where
  pub found : find_unique (λ (x : Booking). x.id) dto.booking_id db.bookings ≡ some b
  pub own : b.user_id ≡ user_id
  pub completed : is_completed b.status ≡ true
  pub first : find_unique (λ (r : Review). r.booking_id) dto.booking_id db.reviews ≡ none

pub check_review-eq-ok :
    (dto : CreateReviewDto) (user_id : ℕ) (db : Db) (b : Booking)
    → check_review dto user_id db ≡ ok b
    → IsReviewable dto user_id db b
unfolding check_review
check_review-eq-ok dto user_id db b e =
    let (x, e1, r1) =
      >>=-eq-ok (or_throw (find_unique (λ (y : Booking). y.id) dto.booking_id db.bookings) _) _ e in
    let f = or_throw-eq-ok (find_unique (λ (y : Booking). y.id) dto.booking_id db.bookings) _ e1 in
    let (_, e2, r2) = >>=-eq-ok (throw_if (not (x.user_id == user_id)) _) _ r1 in
    let (_, e3, r3) = >>=-eq-ok (throw_if (not (is_completed x.status)) _) _ r2 in
    let (_, e4, r4) =
      >>=-eq-ok
        (throw_if (is_some (find_unique (λ (r : Review). r.booking_id) dto.booking_id db.reviews))
          _)
        _ r3 in
    let t2 = throw_if-eq-ok (not (x.user_id == user_id)) _ e2 in
    let t3 = throw_if-eq-ok (not (is_completed x.status)) _ e3 in
    let t4 =
      throw_if-eq-ok
        (is_some (find_unique (λ (r : Review). r.booking_id) dto.booking_id db.reviews)) _ e4 in
    let same : x ≡ b = ground arith in
    subst (λ y. IsReviewable dto user_id db y) same
      (record { found = f; own = ground arith; completed = ground arith; first = ground arith })

pub check_review-IsReviewable :
    (dto : CreateReviewDto) (user_id : ℕ) (db : Db) (b : Booking)
    → IsReviewable dto user_id db b
    → check_review dto user_id db ≡ ok b
unfolding check_review
check_review-IsReviewable dto user_id db b r =
    let own : (b.user_id == user_id) ≡ true = (==_iff b.user_id user_id).1 r.own in
    rw (r.found, own, r.completed, r.first) refl

-- How `createReview` can end.
pub data Ending (new : Booking → Review) (dto : CreateReviewDto) (user_id : ℕ) (db : Db)
    (result : Result Review × Db) : Type 0 where
  refused : (e : Exception) → result ≡ (err e, db) → Ending new dto user_id db result
  no_turf :
      (b : Booking) (e : Exception)
      → IsReviewable dto user_id db b
      → find_first (review_clashes (new b)) db.reviews ≡ none
      → find_unique (λ (t : Turf). t.id) b.turf_id db.turfs ≡ none
      → result ≡ (err e, with_review (new b) db)
      → Ending new dto user_id db result
  reviewed :
      (b : Booking) (t : Turf)
      → IsReviewable dto user_id db b
      → find_first (review_clashes (new b)) db.reviews ≡ none
      → find_unique (λ (x : Turf). x.id) b.turf_id db.turfs ≡ some t
      → result ≡ (
        ok (new b),
        with_rating b.turf_id
            (average_rating b.turf_id (with_review (new b) db))
            (with_review (new b) db),
      )
      → Ending new dto user_id db result

pub create_review-Ending :
    (id now : ℕ) (dto : CreateReviewDto) (user_id : ℕ) (db : Db)
    → Ending (new_review id now dto user_id) dto user_id db (create_review id now dto user_id db)
unfolding create_review insert_review update_turf_rating write_rating
create_review-Ending id now dto user_id db = elim (Result-cases (check_review dto user_id db)) [
  | inr (e, h) ↦ refused e (rw (h, create_review) refl)
  | inl (b, h) ↦
      let new = new_review id now dto user_id b in
      let r = check_review-eq-ok dto user_id db b h in
      elim (Option-cases (find_first (review_clashes new) db.reviews)) [
        | inr (x, f) ↦
            refused (known_request_error unique_violation) (rw (h, create_review, f) refl)
        | inl n ↦ elim (Option-cases (find_unique (λ (t : Turf). t.id) b.turf_id db.turfs)) [
          | inl m ↦
              no_turf b (known_request_error record_not_found) r n m
                (rw (h, create_review, n, m) refl)
          | inr (t, f) ↦ reviewed b t r n f (rw (h, create_review, n, f) refl)
        ]
      ]
]

-- `createReview` returns a review exactly if the booking of the request exists, is the caller's, is
-- completed and has no review yet, the number of the new row is no review's, and the turf of the
-- booking exists; and the review is then the caller's, for that booking and its turf, with the rating
-- and the comment of the request.
pub create_review_iff :
    (id now : ℕ) (dto : CreateReviewDto) (user_id : ℕ) (db : Db) (review : Review)
    → ((create_review id now dto user_id db).0 ≡ ok review) ↔ (
        (b : Booking) × IsReviewable dto user_id db b
        × (find_first (review_clashes (new_review id now dto user_id b)) db.reviews ≡ none)
        × (is_some (find_unique (λ (t : Turf). t.id) b.turf_id db.turfs) ≡ true)
        × (review ≡ new_review id now dto user_id b))
unfolding create_review insert_review update_turf_rating write_rating
create_review_iff id now dto user_id db review = (accepted, accepts)
  where
    accepted :
        (create_review id now dto user_id db).0 ≡ ok review
        → (b : Booking) × IsReviewable dto user_id db b
          × (find_first (review_clashes (new_review id now dto user_id b)) db.reviews ≡ none)
          × (is_some (find_unique (λ (t : Turf). t.id) b.turf_id db.turfs) ≡ true)
          × (review ≡ new_review id now dto user_id b)
    accepted h = elim (create_review-Ending id now dto user_id db) [
      | refused e k ↦ absurd (let z = ap (λ r. r.0) k in (cc))
      | no_turf b e r n m k ↦ absurd (let z = ap (λ r. r.0) k in (cc))
      | reviewed b t r n f k ↦ (b, r, n, rw f, (let z = ap (λ r. r.0) k in (cc)))
    ]

    accepts :
        ((b : Booking) × IsReviewable dto user_id db b
          × (find_first (review_clashes (new_review id now dto user_id b)) db.reviews ≡ none)
          × (is_some (find_unique (λ (t : Turf). t.id) b.turf_id db.turfs) ≡ true)
          × (review ≡ new_review id now dto user_id b))
        → (create_review id now dto user_id db).0 ≡ ok review
    accepts (b, r, n, t, e) =
        let h = check_review-IsReviewable dto user_id db b r in
        rw (h, create_review, n, t) (ap ok (sym e))
