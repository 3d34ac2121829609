-- ===== src/Coupon/Usage.antt =====
-- How often a coupon is used: `applyCoupon` and the count that it keeps.
use turf_sync.Prelude.{
  ℕ, ◌+◌, ◌≤◌, ◌<◌, ◌≡◌, refl, sym, subst, inl, inr, arith, true, false, ◌==◌, none, some, ◌∷◌,
  IsIn, Option-cases,
}
use turf_sync.Table.{find_unique, find_many, update, count}
use turf_sync.Table.Laws.{update_many-IsIn}
use turf_sync.Table.Unique.{find_unique-update_self}
use turf_sync.Schema.{Db, Coupon, CouponUsage}
use turf_sync.Outcome.{ok}
use turf_sync.Coupon.{apply_coupon, insert_usage, is_exhausted, usage_count, use_once}
use turf_sync.Coupon.Admin.{is_usage_of}

-- What a use that goes through has passed, and what it wrote.
pub record IsApplied (coupon_id user_id booking_id discount : ℕ) (db db' : Db) : Type 0 where
  pub coupon : Coupon
  pub found : find_unique (λ (c : Coupon). c.id) coupon_id db.coupons ≡ some coupon
  pub active : coupon.is_active ≡ true
  pub available : is_exhausted coupon ≡ false
  pub allowed : usage_count coupon_id user_id db < coupon.user_usage_limit
  pub first_of_booking :
      find_unique (λ (u : CouponUsage). u.booking_id) booking_id db.coupon_usages ≡ none
  pub written : db' ≡ record db {
    coupons = update (λ (c : Coupon). c.id) coupon_id use_once db.coupons;
    coupon_usages =
        record {
          coupon_id = coupon_id;
          user_id = user_id;
          booking_id = booking_id;
          discount = discount;
        }
        ∷ db.coupon_usages;
  }

pub apply_coupon-IsApplied :
    (coupon_id user_id booking_id discount : ℕ) (db db' : Db)
    → apply_coupon coupon_id user_id booking_id discount db ≡ ok (tt, db')
    → IsApplied coupon_id user_id booking_id discount db db'
unfolding apply_coupon insert_usage
apply_coupon-IsApplied coupon_id user_id booking_id discount db db' e =
    elim (Option-cases (find_unique (λ (c : Coupon). c.id) coupon_id db.coupons)) [
      | inl n ↦ absurd (ground arith)
      | inr (c, f) ↦
          elim (Option-cases
            (find_unique (λ (u : CouponUsage). u.booking_id) booking_id db.coupon_usages)) [
              | inr (u, g) ↦ absurd (ground arith)
              | inl g ↦ record {
                coupon = c;
                found = f;
                active = ground arith;
                available = ground arith;
                allowed = ground arith;
                first_of_booking = g;
                written = ground arith;
              }
            ]
    ]

-- Each use of a coupon is one row of the usage table, and its count is the number of those rows.
abbrev pub IsCounted : Db → Type 0
IsCounted db =
    (c : Coupon) → IsIn c db.coupons → c.used_count ≡ count (is_usage_of c.id) db.coupon_usages

pub apply_coupon-IsCounted :
    (coupon_id user_id booking_id discount : ℕ) (db db' : Db)
    → apply_coupon coupon_id user_id booking_id discount db ≡ ok (tt, db')
    → IsCounted db
    → IsCounted db'
unfolding update count find_many
apply_coupon-IsCounted coupon_id user_id booking_id discount db db' e h =
    let done = apply_coupon-IsApplied coupon_id user_id booking_id discount db db' e in
    subst IsCounted (sym done.written) λ c m.
      let (x, n, i) =
        update_many-IsIn (λ (c : Coupon). c.id == coupon_id) use_once c db.coupons m in
      ground (arith, h x n)

usage_count-IsApplied :
    (coupon_id user_id booking_id discount : ℕ) (db db' : Db)
    → IsApplied coupon_id user_id booking_id discount db db'
    → usage_count coupon_id user_id db' ≡ usage_count coupon_id user_id db + 1
unfolding usage_count count find_many
usage_count-IsApplied coupon_id user_id booking_id discount db db' done =
    rw done.written (ground arith)

within_limit :
    (c : Coupon) (limit : ℕ)
    → c.usage_limit ≡ some limit
    → 0 < limit
    → is_exhausted c ≡ false
    → (use_once c).used_count ≤ limit
unfolding is_exhausted
within_limit c limit l p a = ground arith

-- A use that goes through finds the coupon active, below its limit if it has one, and below its
-- limit for the user; it adds one to the count of the coupon and to the uses of the user, and the
-- limits still hold after it.
pub apply_coupon_limits :
    (coupon_id user_id booking_id discount : ℕ) (db db' : Db)
    → apply_coupon coupon_id user_id booking_id discount db ≡ ok (tt, db')
    → (c : Coupon) × (find_unique (λ (c : Coupon). c.id) coupon_id db.coupons ≡ some c)
      × (find_unique (λ (c : Coupon). c.id) coupon_id db'.coupons ≡ some (use_once c))
      × (c.is_active ≡ true)
      × ((limit : ℕ) → c.usage_limit ≡ some limit → 0 < limit → (use_once c).used_count ≤ limit)
      × (usage_count coupon_id user_id db' ≡ usage_count coupon_id user_id db + 1)
      × (usage_count coupon_id user_id db' ≤ c.user_usage_limit)
apply_coupon_limits coupon_id user_id booking_id discount db db' e =
    let done = apply_coupon-IsApplied coupon_id user_id booking_id discount db db' e in
    let grown = usage_count-IsApplied coupon_id user_id booking_id discount db db' done in
    (
      done.coupon,
      done.found,
      subst
          (λ (w : Db).
            find_unique (λ (c : Coupon). c.id) coupon_id w.coupons ≡ some (use_once done.coupon))
          (sym done.written)
          (find_unique-update_self (λ (c : Coupon). c.id) use_once coupon_id done.coupon db.coupons
            (λ x. refl) done.found),
      done.active,
      λ limit l p. within_limit done.coupon limit l p done.available,
      grown,
      omega (arith, grown, done.allowed),
    )
