-- ===== src/Coupon.antt =====
-- src/coupon/coupon.service.ts: CouponService. Percentages, like amounts, are in millionths.
pub mod Admin
pub mod Amounts
pub mod Usage
use turf_sync.Prelude.{
  ℕ, ◌+◌, ◌*◌, ◌-◌, ◌/◌, Bool, true, false, not, ◌&&◌, ◌||◌, Option, none, some, List, [], ◌∷◌, map,
  leb, ltb, min, if◌then◌else◌, ◌==◌, is_some,
}
use turf_sync.Table.{find_first, find_unique, update, count}
use turf_sync.Schema.{Db, Coupon, CouponUsage, DiscountType, Text}
use turf_sync.Outcome.{
  bad_request, not_found, known_request_error, unique_violation, value_out_of_range, Reason, Result,
  ok, err, ◌>>=◌, ◌>>◌, throw_if, or_throw, Tx,
}
use turf_sync.TimeText.{text_eq}
use turf_sync.Booking.{ValidatedCoupon}

-- `toUpperCase`, of ASCII letters
abbrev pub to_upper : Text → Text
to_upper = map (λ c. if leb b'a' c && leb c b'z' then c - 32 else c)

abbrev pub find_by_code : Text → List Coupon → Option Coupon
find_by_code code = find_first (λ (c : Coupon). text_eq c.code code)

-- `couponUsages: { where: { userId } }` of one coupon
abbrev pub is_usage_by : ℕ → ℕ → CouponUsage → Bool
is_usage_by coupon_id user_id u = u.coupon_id == coupon_id && u.user_id == user_id

unfoldable pub usage_count : ℕ → ℕ → Db → ℕ
usage_count coupon_id user_id db = count (is_usage_by coupon_id user_id) db.coupon_usages

-- `coupon.usageLimit && coupon.usedCount >= coupon.usageLimit`: a limit of 0 is no limit.
unfoldable pub is_exhausted : Coupon → Bool
is_exhausted c = elim c.usage_limit [
  | none ↦ false
  | some limit ↦ not (limit == 0) && leb limit c.used_count
]

-- `minOrder > 0 && bookingAmount < minOrder`; an amount that is no number is below nothing.
abbrev pub below_min : Option ℕ → Coupon → Bool
below_min none c = false
below_min (some amount) c = ltb 0 c.min_order_amount && ltb amount c.min_order_amount

abbrev pub hundred : ℕ
hundred = 100 * 1000000

abbrev pub percentage_of : ℕ → ℕ → ℕ
percentage_of amount value = amount * value / hundred

-- The discount before it is rounded.
unfoldable pub discount_of : Coupon → ℕ → ℕ
discount_of c amount = elim c.discount_type [
  | DiscountType.percentage ↦
      if ltb 0 c.max_discount_amount
      then min (percentage_of amount c.discount_value) c.max_discount_amount
      else percentage_of amount c.discount_value
  | DiscountType.fixed ↦ min c.discount_value amount
]

-- `Math.round(discount * 100) / 100`
abbrev pub round_to_cents : ℕ → ℕ
round_to_cents d = (d + 5000) / 10000 * 10000

-- The value that is returned. `amount - discount` stops at 0, as `Math.max(finalAmount, 0)` does.
unfoldable pub priced : Coupon → ℕ → ValidatedCoupon
unfolding discount_of
priced c amount = record {
  coupon_id = c.id;
  original_amount = amount;
  discount = round_to_cents (discount_of c amount);
  final_amount = amount - discount_of c amount;
}

abbrev pub number_or_zero : Option ℕ → ℕ
number_or_zero none = 0
number_or_zero (some n) = n

-- `validateAndCalculate`. An amount of `none` is NaN, of a turf that is not there: the amounts that
-- it returns are NaN too, and no booking is made of them, since no slot is found for such a turf.
unfoldable pub validate_and_calculate : ℕ → Text → ℕ → Option ℕ → Db → Result ValidatedCoupon
validate_and_calculate now code user_id amount db = do
  c ← or_throw (find_by_code (to_upper code) db.coupons) (bad_request Reason.coupon_invalid)
  throw_if (not c.is_active) (bad_request Reason.coupon_invalid)
  throw_if (ltb now c.valid_from || ltb c.valid_until now) (bad_request Reason.coupon_expired)
  throw_if (is_exhausted c) (bad_request Reason.coupon_exhausted)
  throw_if (leb c.user_usage_limit (usage_count c.id user_id db))
      (bad_request Reason.coupon_already_used)
  throw_if (below_min amount c) (bad_request Reason.below_minimum)
  ok (priced c (number_or_zero amount))

abbrev pub use_once : Coupon → Coupon
use_once c = record c { used_count = c.used_count + 1 }

-- What no longer fits into a column `Decimal(10, 2)`: a hundred million.
abbrev pub decimal_limit : ℕ
decimal_limit = 100000000 * 1000000

-- `tx.couponUsage.create`, against the column of the discount and the unique index on the booking
unfoldable pub insert_usage : CouponUsage → Tx (Unit {0})
insert_usage u db =
    if leb decimal_limit u.discount
    then err (known_request_error value_out_of_range)
    else if is_some (find_unique (λ (v : CouponUsage). v.booking_id) u.booking_id db.coupon_usages)
    then err (known_request_error unique_violation)
    else ok (tt, record db { coupon_usages = u ∷ db.coupon_usages })

-- `applyCoupon`
unfoldable pub apply_coupon : ℕ → ℕ → ℕ → ℕ → Tx (Unit {0})
apply_coupon coupon_id user_id booking_id discount db = do
  c ←
      or_throw (find_unique (λ (c : Coupon). c.id) coupon_id db.coupons)
        (not_found Reason.coupon_not_found)
  throw_if (not c.is_active) (bad_request Reason.coupon_inactive)
  throw_if (is_exhausted c) (bad_request Reason.coupon_exhausted)
  throw_if (leb c.user_usage_limit (usage_count coupon_id user_id db))
      (bad_request Reason.coupon_already_used)
  used ←
      insert_usage
        (record {
          coupon_id = coupon_id;
          user_id = user_id;
          booking_id = booking_id;
          discount = discount;
        })
        db
  ok (
    tt,
    record used.1 { coupons = update (λ (c : Coupon). c.id) coupon_id use_once used.1.coupons },
  )
