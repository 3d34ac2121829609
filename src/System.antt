-- ===== src/System.antt =====
-- The server as its clients see it: any number of requests, webhooks and scheduled jobs at once,
-- each a sequence of transactions, and between two transactions of one request any of the others.
-- A step is one transaction, at any arguments: what a request read before its transaction may be
-- out of date by the time of the transaction.
pub mod Invariant
mod Slots
pub mod Bookings
pub mod Creation
pub mod Cleanup
pub mod SlotTable
pub mod Payments
pub mod Safety
pub mod History
pub mod Coupons
pub mod Turfs
pub mod Extras
pub mod Tally
pub mod Reviews
pub mod Release
pub mod Refund
pub mod Expiry
use turf_sync.Prelude.{ℕ, ◌≡◌, List, ◌∷◌, Option, String, Bool}
use turf_sync.Schema.{Db, Payment, Turf, Booking, Coupon, Review, Mean}
use turf_sync.Table.{update}
use turf_sync.Coupon.{apply_coupon}
use turf_sync.Coupon.Admin.{
  CreateCouponDto, UpdateCouponDto, create, update_coupon, set_active, delete,
}
use turf_sync.Outcome.{ok}
use turf_sync.Booking.{CreateBookingDto, ValidatedCoupon, book, cancel_tx}
use turf_sync.Booking.Cleanup.{cleanup_tx}
use turf_sync.Booking.Complete.{complete}
use turf_sync.Payment.{upsert_payment, refund_tx, PaymentIntent}
use turf_sync.Payment.Webhook.{success_tx, failed_tx, handle_payment_processing, IntentObject}
use turf_sync.Turf.{CreateTurfDto, UpdateTurfDto, new_turf, patch_turf, deactivate}
use turf_sync.Turf.Handlers.{change_turf}
use turf_sync.Review.{insert_review, write_rating}
use turf_sync.Slot.{generate_turf_slots, cleanup_old_slots}

-- The transactions on coupons. `toggleActive` writes what it read before, so it sets any value.
pub data CouponStep (db : Db) (db' : Db) : Type 0 where
  apply_step :
      (coupon_id user_id booking_id discount : ℕ)
      → apply_coupon coupon_id user_id booking_id discount db ≡ ok (tt, db')
      → CouponStep db db'
  create_step :
      (id : ℕ) (dto : CreateCouponDto) → create id dto db ≡ ok (tt, db') → CouponStep db db'
  update_step :
      (id : ℕ) (dto : UpdateCouponDto) → update_coupon id dto db ≡ ok (tt, db') → CouponStep db db'
  set_active_step :
      (id : ℕ) (v : Bool)
      → record db { coupons = update (λ (c : Coupon). c.id) id (set_active v) db.coupons } ≡ db'
      → CouponStep db db'
  delete_step : (id : ℕ) → delete id db ≡ ok (tt, db') → CouponStep db db'

-- The writes of turfs and reviews. `updateTurfRating` writes what it read before, so it sets any mean.
pub data TurfStep (db : Db) (db' : Db) : Type 0 where
  add_turf_step :
      (id : ℕ) (dto : CreateTurfDto)
      → record db { turfs = new_turf id dto ∷ db.turfs } ≡ db'
      → TurfStep db db'
  patch_turf_step :
      (id : ℕ) (dto : UpdateTurfDto) → change_turf id (patch_turf dto) db ≡ db' → TurfStep db db'
  remove_turf_step : (id : ℕ) → change_turf id deactivate db ≡ db' → TurfStep db db'
  review_step : (new : Review) (r : Review) → insert_review new db ≡ ok (r, db') → TurfStep db db'
  rating_step :
      (turf_id : ℕ) (mean : Mean) → write_rating turf_id mean db ≡ ok (tt, db') → TurfStep db db'

pub data Step (db : Db) (db' : Db) : Type 0 where
  book_step :
      (id now : ℕ) (dto : CreateBookingDto) (user_id : ℕ) (coupon : Option ValidatedCoupon)
      (b : Booking)
      → book id now dto user_id coupon db ≡ ok (b, db')
      → Step db db'
  cancel_step : (id : ℕ) → cancel_tx id db ≡ ok (tt, db') → Step db db'
  cleanup_step : (candidate_ids : List ℕ) → (cleanup_tx candidate_ids db).1 ≡ db' → Step db db'
  complete_step : (id : ℕ) → complete id db ≡ db' → Step db db'
  upsert_step :
      (id now : ℕ) (b : Booking) (currency : String) (intent : PaymentIntent) (p : Payment)
      → upsert_payment id now b currency intent db ≡ ok (p, db')
      → Step db db'
  success_step :
      (now event_id : ℕ) (charge : Option ℕ) (p : Payment)
      → success_tx now event_id charge p db ≡ ok (tt, db')
      → Step db db'
  failed_step :
      (event_id : ℕ) (reason : String) (payment_id : ℕ)
      → failed_tx event_id reason payment_id db ≡ ok (tt, db')
      → Step db db'
  processing_step :
      (event_id : ℕ) (object : IntentObject)
      → handle_payment_processing event_id object db ≡ ok (tt, db')
      → Step db db'
  refund_step :
      (booking_id payment_id slot_id : ℕ)
      → refund_tx booking_id payment_id slot_id db ≡ ok (tt, db')
      → Step db db'
  generate_step :
      (fresh : ℕ → ℕ) (turf : Turf) (date : ℕ)
      → generate_turf_slots fresh turf date db ≡ db'
      → Step db db'
  coupon_step : CouponStep db db' → Step db db'
  turf_step : TurfStep db db' → Step db db'
  cleanup_slots_step : (now : ℕ) → cleanup_old_slots now db ≡ ok db' → Step db db'

pub data Reach (start : Db) : Db → Type 0 where
  here : Reach start start
  next : {db db' : Db} → Reach start db → Step db db' → Reach start db'
