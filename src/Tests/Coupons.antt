-- ===== src/Tests/Coupons.antt =====
-- A coupon of 25 per cent, and one of 250.
use turf_sync.Prelude.{ℕ, ◌≡◌, ◌≤◌, ◌<◌, ◌+◌, refl, arith, true, some, [], ◌∷◌}
use turf_sync.Table.{find_first, find_many, find_unique, count, update, update_many}
use turf_sync.Schema.{Db, Coupon, DiscountType, empty_db}
use turf_sync.Outcome.{ok}
use turf_sync.Coupon.{
  apply_coupon, discount_of, insert_usage, is_exhausted, priced, usage_count, use_once,
}
use turf_sync.Coupon.Amounts.{priced_splits}
use turf_sync.Coupon.Usage.{apply_coupon_limits}
use turf_sync.System.{here, next, coupon_step, apply_step}
use turf_sync.System.Coupons.{IsTallied}
use turf_sync.System.Tally.{Reach-IsTallied}

abbrev quarter_off : Coupon
quarter_off = record {
  id = 71;
  code = b'Q' ∷ [];
  discount_type = DiscountType.percentage;
  discount_value = 25000000;
  min_order_amount = 0;
  max_discount_amount = 300000000;
  usage_limit = some 1;
  used_count = 0;
  user_usage_limit = 1;
  valid_from = 0;
  valid_until = 1000;
  is_active = true;
}

abbrev generous : Coupon
generous = record quarter_off { discount_value = 250000000; max_discount_amount = 0 }

abbrev unused_db : Db
unused_db = record empty_db { coupons = quarter_off ∷ [] }

abbrev used_db : Db
used_db = record empty_db {
  coupons = use_once quarter_off ∷ [];
  coupon_usages =
      record { coupon_id = 71; user_id = 5; booking_id = 21; discount = 250000000 } ∷ [];
}

applied : apply_coupon 71 5 21 250000000 unused_db ≡ ok (tt, used_db)
unfolding apply_coupon is_exhausted usage_count insert_usage count find_many find_unique find_first
    update update_many
applied = refl

priced_splits_example :
    ((priced quarter_off 999999).final_amount + discount_of quarter_off 999999 ≡ 999999)
    × ((priced quarter_off 999999).discount ≤ discount_of quarter_off 999999 + 5000)
    × (discount_of quarter_off 999999 < (priced quarter_off 999999).discount + 5000)
    × (quarter_off.discount_type ≡ DiscountType.percentage
        → 0 < quarter_off.max_discount_amount
        → discount_of quarter_off 999999 ≤ quarter_off.max_discount_amount)
    × (quarter_off.discount_type ≡ DiscountType.fixed
        → discount_of quarter_off 999999 ≤ quarter_off.discount_value)
priced_splits_example = priced_splits quarter_off 999999 (ground arith)

apply_coupon_limits_example :
    (c : Coupon) × (find_unique (λ (c : Coupon). c.id) 71 unused_db.coupons ≡ some c)
    × (find_unique (λ (c : Coupon). c.id) 71 used_db.coupons ≡ some (use_once c))
    × (c.is_active ≡ true)
    × ((limit : ℕ) → c.usage_limit ≡ some limit → 0 < limit → (use_once c).used_count ≤ limit)
    × (usage_count 71 5 used_db ≡ usage_count 71 5 unused_db + 1)
    × (usage_count 71 5 used_db ≤ c.user_usage_limit)
apply_coupon_limits_example = apply_coupon_limits 71 5 21 250000000 unused_db used_db applied

unused_db-IsTallied : IsTallied unused_db
unfolding count find_many
unused_db-IsTallied = record { counted = ground arith; referred = λ u m. absurd m }

Reach-IsTallied_example : IsTallied used_db
Reach-IsTallied_example =
    Reach-IsTallied (next here (coupon_step (apply_step 71 5 21 250000000 applied)))
      unused_db-IsTallied
