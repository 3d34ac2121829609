-- ===== src/Tests/Turfs.antt =====
-- Turfs, their cache and their reviews.
use turf_sync.Prelude.{
  ℕ, ◌+◌, ◌≡◌, ◌↔◌, refl, arith, inl, inr, sym, ap, true, false, none, some, List, [], ◌∷◌, IsIn,
  is_some, length,
}
use turf_sync.Table.{find_first, find_many, find_unique, update}
use turf_sync.Schema.{Db, Turf, Slot, Booking, BookingStatus, Review}
use turf_sync.Outcome.{Exception, ok, err}
use turf_sync.Booking.{set_status}
use turf_sync.Slot.{slots_to_create}
use turf_sync.Slot.Repeat.{IsFresh, IsCovered}
use turf_sync.Cache.{
  Key, turf_key, slots_key, turf_value, slots_value, cache_get, scan_loop, del_by_pattern, IsUp,
}
use turf_sync.Cache.Scan.{del_by_pattern_effect}
use turf_sync.Turf.{UpdateTurfDto, is_list_key, slots_on, is_short, expected_slots_count}
use turf_sync.Turf.Catalogue.{Request, finds, updates, removes, after, lookup}
use turf_sync.Turf.Coherence.{serve_all, serve_all-lookup, IsCoherent}
use turf_sync.Turf.Available.{slots_of_day_answer, IsOrdered}
use turf_sync.Turf.Handlers.{find_one, slots_of_day}
use turf_sync.Review.{
  CreateReviewDto, new_review, review_clashes, check_review, insert_review, write_rating,
  create_review, average_rating,
}
use turf_sync.Review.Create.{IsReviewable, create_review_iff, with_review, with_rating}
use turf_sync.Review.Rating.{IsReviewed, create_review-IsReviewed}
use turf_sync.System.{Reach, here, next, turf_step, review_step, rating_step}
use turf_sync.System.Reviews.{review_stands}
use turf_sync.Tests.Data.{turf, open_db, booking}
use turf_sync.Tests.Server.{
  Entries, entry_of, entry_of-with_entry, has_key-turf, with_entry, cache_server, cache_server-IsUp,
  left,
}

abbrev nothing : Entries
nothing k = none

nothing-entry_of : (k : Key) → entry_of k nothing ≡ none
nothing-entry_of k = ground arith

nothing-IsCoherent : IsCoherent cache_server open_db.turfs nothing
nothing-IsCoherent id v e = let n = nothing-entry_of (turf_key id) in absurd (cc)

abbrev changes : UpdateTurfDto
changes = record {
  name = none;
  city = none;
  sport_type = none;
  price_per_hour = some 2000000000;
  open_time = none;
  close_time = none;
  images = none;
}

abbrev requests : List Request
requests = finds 1 ∷ updates 1 changes ∷ finds 1 ∷ finds 2 ∷ removes 1 ∷ []

serve_all-lookup_example :
    ((serve_all cache_server requests open_db nothing).0.turfs ≡ after requests open_db.turfs)
    × ((id : ℕ)
        → (find_one cache_server id
            (serve_all cache_server requests open_db nothing).0
            (serve_all cache_server requests open_db nothing).1).0
          ≡ lookup id (after requests open_db.turfs))
serve_all-lookup_example =
    serve_all-lookup cache_server requests open_db nothing cache_server-IsUp nothing-IsCoherent

abbrev cached : Entries
cached = with_entry (turf_key 1) (some (turf_value turf)) nothing

del_by_pattern_effect_example :
    (scan_loop cache_server (left 0 + 1) 0 is_list_key cached
      ≡ some (del_by_pattern cache_server is_list_key cached))
    × (IsUp cache_server
        → (k : Key) → is_list_key k ≡ true
        → entry_of k (del_by_pattern cache_server is_list_key cached) ≡ none)
    × ((k : Key)
        → is_list_key k ≡ false
        → entry_of k (del_by_pattern cache_server is_list_key cached) ≡ entry_of k cached)
del_by_pattern_effect_example = del_by_pattern_effect cache_server is_list_key cached

nothing-miss : (k : Key) → cache_get cache_server k nothing ≡ none
unfolding cache_get
nothing-miss k = nothing-entry_of k

cached-hit : cache_get cache_server (turf_key 1) cached ≡ some (turf_value turf)
unfolding cache_get
cached-hit = entry_of-with_entry (turf_key 1) (some (turf_value turf)) nothing has_key-turf

abbrev no_slots : Db
no_slots = record open_db { slots = [] }

no_slots-IsFresh : IsFresh (λ n. n) no_slots.slots
no_slots-IsFresh = record { distinct = λ m n e. e; unused = λ s m n. absurd m }

slots_of_day_answer_example :
    (shown : List Slot) × ((slots_of_day cache_server (λ n. n) 1 172800000 no_slots nothing).0
      ≡ ok (slots_value turf shown 172800000))
    × IsOrdered shown
    × ((x : Slot)
        → IsIn x shown ↔ (
            IsIn x (slots_of_day cache_server (λ n. n) 1 172800000 no_slots nothing).1.slots
            × (x.turf_id ≡ 1)
            × (x.date ≡ 172800000)))
    × ((x : Slot)
        → IsIn x no_slots.slots
        → IsIn x (slots_of_day cache_server (λ n. n) 1 172800000 no_slots nothing).1.slots)
    × (is_short (length (slots_on 1 172800000 no_slots)) (expected_slots_count turf) ≡ true
        → IsCovered
            (slots_to_create turf 172800000)
            (slots_of_day cache_server (λ n. n) 1 172800000 no_slots nothing).1.slots)
unfolding cache_get find_unique find_first
slots_of_day_answer_example =
    slots_of_day_answer cache_server (λ n. n) 1 172800000 turf no_slots nothing
      (nothing-miss (slots_key 1 172800000)) refl no_slots-IsFresh

-- A completed booking of the turf, and a review of it.
abbrev done_booking : Booking
done_booking = record booking { status = BookingStatus.completed }

abbrev done_db : Db
done_db = record open_db { bookings = done_booking ∷ [] }

abbrev review_dto : CreateReviewDto
review_dto = record { booking_id = 21; rating = 4; comment = none }

abbrev review : Review
review = new_review 61 172800000 review_dto 5 done_booking

turf_rated : (t : Turf) → IsIn t done_db.turfs → t.rating ≡ average_rating t.id done_db
unfolding average_rating find_many
turf_rated t (inl e) = sym (ap (λ (x : Turf). x.rating) e)
turf_rated t (inr m) = absurd m

done_db-IsReviewed : IsReviewed done_db
done_db-IsReviewed = record { one_each = tt; owned = λ r m. absurd m; rated = turf_rated }

create_review_iff_example : ((create_review 61 172800000 review_dto 5 done_db).0 ≡ ok review) ↔ (
    (b : Booking) × IsReviewable review_dto 5 done_db b
    × (find_first (review_clashes (new_review 61 172800000 review_dto 5 b)) done_db.reviews ≡ none)
    × (is_some (find_unique (λ (t : Turf). t.id) b.turf_id done_db.turfs) ≡ true)
    × (review ≡ new_review 61 172800000 review_dto 5 b))
create_review_iff_example = create_review_iff 61 172800000 review_dto 5 done_db review

create_review-IsReviewed_example : IsReviewed (create_review 61 172800000 review_dto 5 done_db).1
create_review-IsReviewed_example =
    create_review-IsReviewed 61 172800000 review_dto 5 done_db done_db-IsReviewed

abbrev second_review : Review
second_review = record review { id = 62; booking_id = 22; rating = 1 }

abbrev rated_again : Db
rated_again = with_rating 1 (record { sum = 1; count = 1 }) (with_review second_review done_db)

rated_again-Reach : Reach done_db rated_again
unfolding insert_review write_rating update find_first find_unique
rated_again-Reach =
    next (next here (turf_step (review_step second_review second_review refl)))
      (turf_step (rating_step 1 (record { sum = 1; count = 1 }) refl))

review_stands_example :
    ((v : BookingStatus) × IsIn
        (set_status v done_booking)
        (with_review review rated_again).bookings)
    × (done_booking.id ≡ review.booking_id)
    × (done_booking.user_id ≡ review.user_id)
    × (done_booking.turf_id ≡ review.turf_id)
    × (review.user_id ≡ 5)
    × IsIn review (with_review review rated_again).reviews
    × ((e : Exception) × (create_review 63 172800001 review_dto 5 (with_review review rated_again)
          ≡ (err e, with_review review rated_again)))
unfolding check_review insert_review find_unique find_first
review_stands_example =
    review_stands 61 172800000 review_dto 5 done_booking review refl rated_again-Reach refl here 63
      172800001 review_dto 5 refl
