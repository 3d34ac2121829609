-- ===== src/Http/Envelope.antt =====
-- src/common/interceptors/response.interceptor.ts: ResponseInterceptor. An answer of a handler is an
-- object, as the list of its fields, or another value, and `V` is what the fields and the other values
-- are.
use turf_sync.Prelude.{ℕ, ◌≡◌, refl, Bool, true, Option, none, some, List, [], ◌∷◌, if◌then◌else◌}
use turf_sync.Schema.{Text, codes, Mean}
use turf_sync.TimeText.{text_eq}
use turf_sync.Pagination.{PaginatedResult}
use turf_sync.Review.{FormattedReview}

module _ {V : Type 0} where
  -- `obj[key]`; `none` where `key in obj` is false
  unfoldable pub field_of : Text → List (Text × V) → Option V
  field_of key [] = none
  field_of key ((name, value) ∷ fields) =
      if text_eq name key then some value else field_of key fields

pub data Answer (V : Type 0) : Type 0 where
  object : List (Text × V) → Answer V
  value : V → Answer V

pub record StandardResponse (V : Type 0) : Type 0 where
  pub success : Bool
  pub status_code : ℕ
  pub message : Text
  pub payload : Answer V
  pub meta : Option V
  pub request_id : Text

module _ {V : Type 0} (status : ℕ) (request_id : Text) where
  abbrev pub wrap : Answer V → Option V → StandardResponse V
  wrap payload meta = record {
    success = true;
    status_code = status;
    message = codes "Success";
    payload = payload;
    meta = meta;
    request_id = request_id;
  }

  -- `intercept`, of the answer that `next.handle()` gives
  unfoldable pub intercept : Answer V → StandardResponse V
  unfolding field_of text_eq
  intercept (value v) = wrap (value v) none
  intercept (object fields) = elim (field_of (codes "meta") fields) [
    | none ↦ wrap (object fields) none
    | some meta ↦ elim (field_of (codes "data") fields) [
      | none ↦ wrap (object fields) none
      | some payload ↦ wrap (value payload) (some meta)
    ]
  ]

  -- An object with the fields `data` and `meta` reaches the client as those two.
  pub intercept-page :
      (fields : List (Text × V)) (payload meta : V)
      → field_of (codes "data") fields ≡ some payload
      → field_of (codes "meta") fields ≡ some meta
      → intercept (object fields) ≡ wrap (value payload) (some meta)
  unfolding intercept
  intercept-page fields payload meta d m = rw (intercept, m, d) refl

-- What `getTurfReviews` answers with, of its page and its average.
module _ {V : Type 0} (items_value : List FormattedReview → V)
    (meta_value : PaginatedResult FormattedReview → V) (mean_value : Mean → V) where
  unfoldable pub reviews_answer : PaginatedResult FormattedReview × Mean → Answer V
  reviews_answer (page, average) = object (
      (codes "data", items_value page.items)
      ∷ (codes "meta", meta_value page)
      ∷ (codes "avgRating", mean_value average)
      ∷ [])

  -- The average that `getTurfReviews` answers with does not reach the client.
  pub intercept-reviews_answer :
      (status : ℕ) (request_id : Text) (page : PaginatedResult FormattedReview) (average : Mean)
      → intercept status request_id (reviews_answer (page, average))
        ≡ wrap status request_id (value (items_value page.items)) (some (meta_value page))
  unfolding reviews_answer intercept
  intercept-reviews_answer status request_id page average = refl
