-- ===== src/Review.antt =====
-- src/review/review.service.ts: ReviewService. Its queries run outside transactions: what one has
-- written when a later one throws stays written. A mean is kept as a sum and a count; the rounding
-- of the column is not modelled.
pub mod Create
pub mod Rating
pub mod Stale
use turf_sync.Prelude.{
  ℕ, ◌+◌, Bool, true, false, not, ◌||◌, Option, List, [], ◌∷◌, map, ◌==◌, if◌then◌else◌, is_some,
  length, take, drop, String,
}
use turf_sync.Table.{find_first, find_many, find_unique, update}
use turf_sync.Schema.{Db, Booking, Review, Turf, Mean, BookingStatus}
use turf_sync.Outcome.{
  bad_request, not_found, forbidden, known_request_error, unique_violation, record_not_found,
  Reason, Result, Tx, ok, err, ◌>>=◌, ◌>>◌, throw_if, or_throw,
}
use turf_sync.Pagination.{PaginatedResult, get_pagination_params, create_paginated_response}

pub record CreateReviewDto : Type 0 where
  pub booking_id : ℕ
  pub rating : ℕ
  pub comment : Option String

abbrev pub is_completed : BookingStatus → Bool
is_completed BookingStatus.completed = true
is_completed BookingStatus.pending = false
is_completed BookingStatus.confirmed = false
is_completed BookingStatus.cancelled = false

-- The tests of `createReview`.
unfoldable pub check_review : CreateReviewDto → ℕ → Db → Result Booking
check_review dto user_id db = do
  b ←
      or_throw (find_unique (λ (b : Booking). b.id) dto.booking_id db.bookings)
        (not_found Reason.booking_not_found)
  throw_if (not (b.user_id == user_id)) (forbidden Reason.not_your_booking)
  throw_if (not (is_completed b.status)) (bad_request Reason.not_completed)
  throw_if (is_some (find_unique (λ (r : Review). r.booking_id) dto.booking_id db.reviews))
      (bad_request Reason.already_reviewed)
  ok b

abbrev pub new_review : ℕ → ℕ → CreateReviewDto → ℕ → Booking → Review
new_review id now dto user_id b = record {
  id = id;
  user_id = user_id;
  turf_id = b.turf_id;
  booking_id = b.id;
  rating = dto.rating;
  comment = dto.comment;
  created_at = now;
}

-- The unique columns of a review, against another row.
abbrev pub review_clashes : Review → Review → Bool
review_clashes new r = r.id == new.id || r.booking_id == new.booking_id

-- `prisma.review.create`
unfoldable pub insert_review : Review → Tx Review
insert_review new db =
    if is_some (find_first (review_clashes new) db.reviews)
    then err (known_request_error unique_violation)
    else ok (new, record db { reviews = new ∷ db.reviews })

abbrev pub is_review_of : ℕ → Review → Bool
is_review_of turf_id r = r.turf_id == turf_id

abbrev pub sum_ratings : List Review → ℕ
sum_ratings [] = 0
sum_ratings (r ∷ rs) = r.rating + sum_ratings rs

-- `review.aggregate({ where: { turfId }, _avg: { rating } })`, with `?? 0`
unfoldable pub average_rating : ℕ → Db → Mean
average_rating turf_id db = record {
  sum = sum_ratings (find_many (is_review_of turf_id) db.reviews);
  count = length (find_many (is_review_of turf_id) db.reviews);
}

abbrev pub set_rating : Mean → Turf → Turf
set_rating mean t = record t { rating = mean }

-- `turf.update` of `updateTurfRating`, with the average that it read before
unfoldable pub write_rating : ℕ → Mean → Tx (Unit {0})
write_rating turf_id mean db =
    if is_some (find_unique (λ (t : Turf). t.id) turf_id db.turfs)
    then ok
        (tt, record db { turfs = update (λ (t : Turf). t.id) turf_id (set_rating mean) db.turfs })
    else err (known_request_error record_not_found)

-- `updateTurfRating`
unfoldable pub update_turf_rating : ℕ → Tx (Unit {0})
update_turf_rating turf_id db = write_rating turf_id (average_rating turf_id db) db

-- `createReview`
unfoldable pub create_review : ℕ → ℕ → CreateReviewDto → ℕ → Db → Result Review × Db
create_review id now dto user_id db = elim (check_review dto user_id db) [
  | err e ↦ (err e, db)
  | ok b ↦ elim (insert_review (new_review id now dto user_id b) db) [
    | err e ↦ (err e, db)
    | ok (review, db1) ↦ elim (update_turf_rating b.turf_id db1) [
      | err e ↦ (err e, db1)
      | ok (done, db2) ↦ (ok review, db2)
    ]
  ]
]

pub record FormattedReview : Type 0 where
  pub id : ℕ
  pub user_name : ℕ
  pub rating : ℕ
  pub comment : Option String
  pub created_at : ℕ

abbrev pub format_review : (ℕ → ℕ) → Review → FormattedReview
format_review name_of r = record {
  id = r.id;
  user_name = name_of r.user_id;
  rating = r.rating;
  comment = r.comment;
  created_at = r.created_at;
}

-- `getTurfReviews`, with the average; `name_of` is the name that a user's number leads to. A new
-- review is the first row, so the table is in the order of the query.
unfoldable pub get_turf_reviews :
    (ℕ → ℕ) → ℕ → Option ℕ → Option ℕ → Db → PaginatedResult FormattedReview × Mean
get_turf_reviews name_of turf_id page limit db =
    let p = get_pagination_params (record { page = page; limit = limit }) in
    let selected = find_many (is_review_of turf_id) db.reviews in
    (
      create_paginated_response (map (format_review name_of) (take p.limit (drop p.skip selected)))
          (length selected) p.page p.limit,
      average_rating turf_id db,
    )
