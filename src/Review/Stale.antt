-- ===== src/Review/Stale.antt =====
-- What the rating of a turf misses: the row that TurfService of src/turf/turf.service.ts has cached,
-- and a review that is written at the same time.
use turf_sync.Prelude.{
  ℕ, length, ◌+◌, ◌≡◌, ◌≢◌, refl, sym, ap, subst, Bool-cases, inl, inr, ◌∙◌, arith, some, ◌∷◌, ◌==◌,
  IsIn,
}
use turf_sync.Table.{find_unique, find_many, update}
use turf_sync.Table.Laws.{update_many-IsIn}
use turf_sync.Table.Unique.{find_unique-eq-some, find_unique-update_self}
use turf_sync.Schema.{Db, Review, Turf, Mean}
use turf_sync.Outcome.{Result, ok}
use turf_sync.Cache.{RedisCache, turf_key, turf_value, cache_get}
use turf_sync.Turf.Catalogue.{lookup}
use turf_sync.Turf.Handlers.{find_one}
use turf_sync.Review.{
  CreateReviewDto, new_review, is_review_of, insert_review, average_rating, set_rating,
  write_rating, update_turf_rating, create_review,
}
use turf_sync.Review.Create.{
  with_review, with_rating, refused, no_turf, reviewed, create_review-Ending,
}
use turf_sync.Review.Rating.{IsReviewed, average_rating-add}

-- From tables where each turf is rated by the mean of its reviews, and a cache that holds the row of
-- a turf as the table does: after a review of the turf that `createReview` accepts, `findOne` still
-- answers with the row as it was, which is no longer the row of the table.
create_review-find_one :
    (redis : RedisCache) (s : redis.Store) (id now : ℕ) (dto : CreateReviewDto) (user_id : ℕ)
    (db : Db) (t : Turf) (review : Review)
    → IsReviewed db
    → (create_review id now dto user_id db).0 ≡ ok review
    → find_unique (λ (x : Turf). x.id) review.turf_id db.turfs ≡ some t
    → cache_get redis (turf_key review.turf_id) s ≡ some (turf_value t)
    → ((find_one redis review.turf_id (create_review id now dto user_id db).1 s).0
        ≡ ok (turf_value t))
      × (lookup review.turf_id (create_review id now dto user_id db).1.turfs ≢ ok (turf_value t))
unfolding find_one
create_review-find_one redis s id now dto user_id db t review i h f c =
    (rw (c, find_one) refl, stale)
  where
    counted :
        (new : Review)
        → new.turf_id ≡ review.turf_id
        → (average_rating new.turf_id (with_review new db)).count ≡ t.rating.count + 1
    counted new e =
        let (m, j) = find_unique-eq-some (λ (x : Turf). x.id) review.turf_id t db.turfs f in
        let rated = i.rated t m ∙ ap (λ q. average_rating q db) (j ∙ sym e) in
        ap (λ (x : Mean). x.count) (average_rating-add new db)
        ∙ ap (λ (x : Mean). x.count + 1) (sym rated)

    rating_of_value :
        (x y : Turf) → ok (turf_value x) ≡ ok (turf_value y) → x.rating.count ≡ y.rating.count
    rating_of_value x y e = let same : x ≡ y = cc in ap (λ (z : Turf). z.rating.count) same

    stale : lookup review.turf_id (create_review id now dto user_id db).1.turfs ≢ ok (turf_value t)
    stale k = elim (create_review-Ending id now dto user_id db) [
      | refused e g ↦ let z = ap (λ r. r.0) g in absurd (cc)
      | no_turf b e r n m g ↦ let z = ap (λ r. r.0) g in absurd (cc)
      | reviewed b x r n g j ↦
          let new = new_review id now dto user_id b in
          let mean = average_rating b.turf_id (with_review new db) in
          let z = ap (λ r. r.0) j in
          let same : new ≡ review = cc in
          let turf : b.turf_id ≡ review.turf_id = ap (λ (y : Review). y.turf_id) same in
          let u =
            find_unique-update_self (λ (y : Turf). y.id) (set_rating mean) b.turf_id t db.turfs
              (λ y. refl) (ap (λ q. find_unique (λ (y : Turf). y.id) q db.turfs) turf ∙ f) in
          let after : lookup b.turf_id (with_rating b.turf_id mean (with_review new db)).turfs
              ≡ ok (turf_value t) =
            ap (λ q. lookup q (with_rating b.turf_id mean (with_review new db)).turfs) turf
            ∙ sym (ap (λ (y : Result Review × Db). lookup review.turf_id y.1.turfs) j)
            ∙ k in
          let value : ok (turf_value (set_rating mean t)) ≡ ok (turf_value t) =
            rw (u, lookup) at after in
          let more = rating_of_value (set_rating mean t) t value in
          let one_more = counted new turf in absurd (omega arith)
    ]

inserted :
    (new : Review) (db db' : Db) → insert_review new db ≡ ok (new, db') → db' ≡ with_review new db
unfolding insert_review
inserted new db db' e = ground arith

written :
    (turf_id : ℕ) (mean : Mean) (db db' : Db)
    → write_rating turf_id mean db ≡ ok (tt, db')
    → db' ≡ with_rating turf_id mean db
unfolding write_rating
written turf_id mean db db' e = ground arith

with_rating-rating :
    (turf_id : ℕ) (mean : Mean) (db : Db) (t : Turf)
    → IsIn t (with_rating turf_id mean db).turfs
    → t.id ≡ turf_id
    → t.rating ≡ mean
unfolding update
with_rating-rating turf_id mean db t m e =
    let (x, n, f) =
      update_many-IsIn (λ (y : Turf). y.id == turf_id) (set_rating mean) t db.turfs m in
    elim (Bool-cases (x.id == turf_id)) [
      | inl h ↦ ap (λ (y : Turf). y.rating) (rw h at f)
      | inr h ↦
          let same : t ≡ x = rw h at f in
          absurd (ground (arith, ap (λ (y : Turf). y.id) same, e, h))
    ]

-- Two users review two bookings of one turf at once: the second's `createReview` writes its review
-- and the new rating between the average and the update of the first's. Then the turf is not rated by
-- the mean of its reviews: the review of the second is not counted.
rating_race :
    (first second : Review) (db db1 db2 db3 db4 : Db) (t : Turf)
    → first.turf_id ≡ second.turf_id
    → insert_review first db ≡ ok (first, db1)
    → insert_review second db1 ≡ ok (second, db2)
    → update_turf_rating second.turf_id db2 ≡ ok (tt, db3)
    → write_rating first.turf_id (average_rating first.turf_id db1) db3 ≡ ok (tt, db4)
    → IsIn t db4.turfs
    → t.id ≡ first.turf_id
    → (average_rating t.id db4).count ≡ t.rating.count + 1
unfolding update_turf_rating average_rating
rating_race first second db db1 db2 db3 db4 t e i1 i2 u w m h =
    let a1 = inserted first db db1 i1 in
    let a2 = inserted second db1 db2 i2 in
    let a3 = written second.turf_id (average_rating second.turf_id db2) db2 db3 u in
    let a4 = written first.turf_id (average_rating first.turf_id db1) db3 db4 w in
    let rated =
      with_rating-rating first.turf_id (average_rating first.turf_id db1) db3 t
        (subst (λ (x : Db). IsIn t x.turfs) a4 m) h in
    let reviews : db4.reviews ≡ (second ∷ db1.reviews) =
      ap (λ (x : Db). x.reviews) a4
      ∙ ap (λ (x : Db). x.reviews) a3
      ∙ ap (λ (x : Db). x.reviews) a2 in
    let more = average_rating-add second db1 in
    let id : t.id ≡ second.turf_id = h ∙ e in
    ap (λ k. length (find_many (is_review_of k) db4.reviews)) id
    ∙ ap (λ rs. length (find_many (is_review_of second.turf_id) rs)) reviews
    ∙ ap (λ (x : Mean). x.count) more
    ∙ ap (λ k. length (find_many (is_review_of k) db1.reviews) + 1) (sym e)
    ∙ ap (λ (x : Mean). x.count + 1) (sym rated)
