-- ===== src/Coupon/Amounts.antt =====
-- What a coupon takes off a price.
use turf_sync.Prelude.{ℕ, ◌+◌, ◌*◌, ◌≤◌, ◌<◌, ◌≡◌, arith}
use turf_sync.Schema.{Coupon, DiscountType}
use turf_sync.Coupon.{priced, discount_of, percentage_of, hundred}

-- A percentage of at most 100 is at most the amount.
pub percentage_of-le : (amount value : ℕ) → value ≤ hundred → percentage_of amount value ≤ amount
percentage_of-le amount value h =
    let p : amount * value ≤ amount * hundred = grind arith in omega arith

-- A percentage of more than 100 is at least the amount.
pub le-percentage_of : (amount value : ℕ) → hundred ≤ value → amount ≤ percentage_of amount value
le-percentage_of amount value h =
    let p : amount * hundred ≤ amount * value = grind arith in omega arith

-- The discount of a coupon that asks for no more than the whole price.
abbrev pub IsModest : Coupon → Type 0
IsModest c = c.discount_type ≡ DiscountType.percentage → c.discount_value ≤ hundred

pub discount_of-le : (c : Coupon) (amount : ℕ) → IsModest c → discount_of c amount ≤ amount
unfolding discount_of
discount_of-le c amount h = ground (arith, percentage_of-le amount c.discount_value)

capped :
    (c : Coupon) (amount : ℕ)
    → c.discount_type ≡ DiscountType.percentage
    → 0 < c.max_discount_amount
    → discount_of c amount ≤ c.max_discount_amount
unfolding discount_of
capped c amount t p = ground arith

fixed_cap :
    (c : Coupon) (amount : ℕ)
    → c.discount_type ≡ DiscountType.fixed
    → discount_of c amount ≤ c.discount_value
unfolding discount_of
fixed_cap c amount t = ground arith

-- A coupon that is fixed, or a percentage of at most 100, splits the price: what is left to pay
-- and the exact discount add up to the price, the recorded discount is within half a cent of the
-- exact one, a cap of a percentage that is not 0 is kept, and a fixed value is never exceeded.
pub priced_splits :
    (c : Coupon) (amount : ℕ)
    → IsModest c
    → ((priced c amount).final_amount + discount_of c amount ≡ amount)
      × ((priced c amount).discount ≤ discount_of c amount + 5000)
      × (discount_of c amount < (priced c amount).discount + 5000)
      × (c.discount_type ≡ DiscountType.percentage
          → 0 < c.max_discount_amount
          → discount_of c amount ≤ c.max_discount_amount)
      × (c.discount_type ≡ DiscountType.fixed → discount_of c amount ≤ c.discount_value)
unfolding priced
priced_splits c amount h = (
  omega (arith, discount_of-le c amount h),
  omega arith,
  omega arith,
  capped c amount,
  fixed_cap c amount,
)

-- A percentage of 200 or more with no cap makes the booking free and records a discount of at least
-- twice the price.
priced-overshoot :
    (c : Coupon) (amount : ℕ)
    → c.discount_type ≡ DiscountType.percentage
    → c.max_discount_amount ≡ 0
    → 2 * hundred ≤ c.discount_value
    → ((priced c amount).final_amount ≡ 0) × (2 * amount < (priced c amount).discount + 5000)
unfolding priced discount_of
priced-overshoot c amount t m v =
    let p : amount * (2 * hundred) ≤ amount * c.discount_value = grind arith in
    let q : 2 * amount ≤ percentage_of amount c.discount_value = omega arith in
    (ground arith, ground arith)
