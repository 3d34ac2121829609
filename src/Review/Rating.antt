-- ===== src/Review/Rating.antt =====
-- src/review/review.service.ts: the reviews in the table belong to bookings of their authors, and a
-- turf's rating is the mean of its reviews.
use turf_sync.Prelude.{
  ℕ, ◌+◌, ◌≡◌, ◌≢◌, sym, ap, subst, ◌∙◌, inl, inr, arith, false, none, ◌∷◌, ◌==◌, IsIn, Bool-cases,
  ==_iff,
}
use turf_sync.Table.{find_first, find_many, update}
use turf_sync.Table.Laws.{find_first-eq-none, update_many-IsIn}
use turf_sync.Table.Unique.{IsUnique, find_unique-eq-some, find_unique-eq-none}
use turf_sync.Schema.{Db, Booking, Review, Turf, Mean}
use turf_sync.Review.{
  CreateReviewDto, new_review, review_clashes, average_rating, set_rating, create_review,
}
use turf_sync.Review.Create.{
  with_review, with_rating, IsReviewable, refused, no_turf, reviewed, create_review-Ending,
}

abbrev more_rated : Mean → Review → Mean
more_rated m r = record { sum = r.rating + m.sum; count = m.count + 1 }

pub average_rating-add :
    (new : Review) (db : Db)
    → average_rating new.turf_id (with_review new db)
      ≡ more_rated (average_rating new.turf_id db) new
unfolding average_rating find_many
average_rating-add new db = ground arith

average_rating-other :
    (new : Review) (turf_id : ℕ) (db : Db)
    → new.turf_id ≢ turf_id
    → average_rating turf_id (with_review new db) ≡ average_rating turf_id db
unfolding average_rating find_many
average_rating-other new turf_id db ne = ground arith

-- The reviews and the ratings that `createReview` keeps: one review to a booking, each by the user
-- and for the turf of its booking, and each turf rated by the mean of its reviews.
pub record IsReviewed (db : Db) : Type 0 where
  pub one_each : IsUnique (λ (r : Review). r.booking_id) db.reviews
  pub owned :
      (r : Review)
      → IsIn r db.reviews
      → (b : Booking) × IsIn b db.bookings
        × (b.id ≡ r.booking_id)
        × (b.user_id ≡ r.user_id)
        × (b.turf_id ≡ r.turf_id)
  pub rated : (t : Turf) → IsIn t db.turfs → t.rating ≡ average_rating t.id db

module _ (id now : ℕ) (dto : CreateReviewDto) (user_id : ℕ) (db : Db) (b : Booking) where
  abbrev added : Review
  added = new_review id now dto user_id b

  one_each-add :
      find_first (review_clashes added) db.reviews ≡ none
      → IsUnique (λ (r : Review). r.booking_id) db.reviews
      → IsUnique (λ (r : Review). r.booking_id) (added ∷ db.reviews)
  one_each-add n u = (
    λ y m e.
        let f = find_first-eq-none (review_clashes added) y db.reviews n m in absurd (clash y e f),
    u,
  )
    where
      clash : (y : Review) → y.booking_id ≡ b.id → review_clashes added y ≡ false → ⊥
      clash y e f = ground (arith, e, f)

  owned-add :
      IsReviewable dto user_id db b
      → IsReviewed db
      → (r : Review) → IsIn r (added ∷ db.reviews)
      → (x : Booking) × IsIn x db.bookings
        × (x.id ≡ r.booking_id)
        × (x.user_id ≡ r.user_id)
        × (x.turf_id ≡ r.turf_id)
  owned-add h i r (inl e) =
      let (m, _) =
        find_unique-eq-some (λ (x : Booking). x.id) dto.booking_id b db.bookings h.found in
      (
        b,
        m,
        ap (λ (x : Review). x.booking_id) e,
        h.own ∙ ap (λ (x : Review). x.user_id) e,
        ap (λ (x : Review). x.turf_id) e,
      )
  owned-add h i r (inr m) = i.owned r m

  rated-other :
      IsReviewed db
      → (t : Turf) → IsIn t db.turfs
      → b.turf_id ≢ t.id
      → t.rating ≡ average_rating t.id (with_review added db)
  rated-other i t m ne = i.rated t m ∙ sym (average_rating-other added t.id db ne)

  rated-write :
      IsReviewed db
      → (t : Turf)
      → IsIn t (with_rating b.turf_id (average_rating b.turf_id (with_review added db)) db).turfs
      → t.rating ≡ average_rating t.id (with_review added db)
  unfolding update
  rated-write i t m =
      let (x, n, e) =
        update_many-IsIn (λ (y : Turf). y.id == b.turf_id)
          (set_rating (average_rating b.turf_id (with_review added db))) t db.turfs m in
      elim (Bool-cases (x.id == b.turf_id)) [
        | inl t' ↦
            let q : x.id ≡ b.turf_id = (==_iff x.id b.turf_id).0 t' in
            let same : t ≡ set_rating (average_rating b.turf_id (with_review added db)) x =
              rw t' at e in
            ap (λ (y : Turf). y.rating) same
            ∙ sym (
                ap (λ k. average_rating k (with_review added db))
                  (ap (λ (y : Turf). y.id) same ∙ q))
        | inr f ↦
            let same : t ≡ x = rw f at e in
            subst (λ (y : Turf). y.rating ≡ average_rating y.id (with_review added db)) (sym same)
              (rated-other i x n (λ q. absurd (ground (arith, q, f))))
      ]

-- Where there is one review to a booking, each by the user and for the turf of its booking, and each
-- turf is rated by the mean of its reviews, `createReview` leaves the tables so, whatever it answers.
pub create_review-IsReviewed :
    (id now : ℕ) (dto : CreateReviewDto) (user_id : ℕ) (db : Db)
    → IsReviewed db
    → IsReviewed (create_review id now dto user_id db).1
unfolding update average_rating
create_review-IsReviewed id now dto user_id db i =
    elim (create_review-Ending id now dto user_id db) [
      | refused e h ↦ rw h i
      | no_turf b e r n m h ↦ rw h (record {
        one_each = one_each-add id now dto user_id db b n i.one_each;
        owned = owned-add id now dto user_id db b r i;
        rated = λ t k.
            rated-other id now dto user_id db b i t k
              (λ q. find_unique-eq-none (λ (x : Turf). x.id) b.turf_id t db.turfs m k (sym q));
      })
      | reviewed b t r n f h ↦ rw h (record {
        one_each = one_each-add id now dto user_id db b n i.one_each;
        owned = owned-add id now dto user_id db b r i;
        rated = rated-write id now dto user_id db b i;
      })
    ]
