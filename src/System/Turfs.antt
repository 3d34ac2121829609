-- ===== src/System/Turfs.antt =====
-- The writes of turfs and reviews leave bookings, slots and coupons alone.
use turf_sync.Prelude.{◌≡◌, arith}
use turf_sync.Schema.{Db}
use turf_sync.Review.{insert_review, write_rating}
use turf_sync.System.{
  TurfStep, add_turf_step, patch_turf_step, remove_turf_step, review_step, rating_step,
}

-- Tables that only the turfs and the reviews tell apart.
pub record SameTrade (db db' : Db) : Type 0 where
  pub bookings : db'.bookings ≡ db.bookings
  pub slots : db'.slots ≡ db.slots
  pub coupons : db'.coupons ≡ db.coupons
  pub usages : db'.coupon_usages ≡ db.coupon_usages

pub TurfStep-SameTrade : {db db' : Db} → TurfStep db db' → SameTrade db db'
unfolding insert_review write_rating
TurfStep-SameTrade {db} {db'} (add_turf_step id dto e) = ground arith
TurfStep-SameTrade {db} {db'} (patch_turf_step id dto e) = ground arith
TurfStep-SameTrade {db} {db'} (remove_turf_step id e) = ground arith
TurfStep-SameTrade {db} {db'} (review_step new r e) = ground arith
TurfStep-SameTrade {db} {db'} (rating_step turf_id mean e) = ground arith
