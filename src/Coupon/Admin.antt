-- ===== src/Coupon/Admin.antt =====
-- src/coupon/coupon.service.ts: the administrator's operations on coupons.
use turf_sync.Prelude.{
  ℕ, Bool, true, false, not, ◌&&◌, Option, none, some, List, [], ◌∷◌, map, ltb, ◌==◌, is_some,
}
use turf_sync.Table.{find_first, find_unique, update, delete_many, count}
use turf_sync.Pagination.{PaginationDto, PaginatedResult, paginate}
use turf_sync.Schema.{Db, Coupon, CouponUsage, DiscountType, Text}
use turf_sync.Outcome.{
  bad_request, not_found, known_request_error, unique_violation, Reason, Result, ok, ◌>>=◌, ◌>>◌,
  throw_if, or_throw, Tx,
}
use turf_sync.TimeText.{text_eq}
use turf_sync.Coupon.{to_upper, find_by_code}

-- CreateCouponDto; `none` is a field left out.
pub record CreateCouponDto : Type 0 where
  pub code : Text
  pub discount_type : DiscountType
  pub discount_value : ℕ
  pub min_order_amount : ℕ
  pub max_discount_amount : ℕ
  pub usage_limit : Option ℕ
  pub user_usage_limit : Option ℕ
  pub valid_from : ℕ
  pub valid_until : ℕ
  pub is_active : Option Bool

abbrev pub get_or {ℓ} : {A : Type ℓ} → Option A → A → A
get_or none d = d
get_or (some a) d = a

abbrev pub new_coupon : ℕ → CreateCouponDto → Coupon
new_coupon id dto = record {
  id = id;
  code = to_upper dto.code;
  discount_type = dto.discount_type;
  discount_value = dto.discount_value;
  min_order_amount = dto.min_order_amount;
  max_discount_amount = dto.max_discount_amount;
  usage_limit = dto.usage_limit;
  used_count = 0;
  user_usage_limit = get_or dto.user_usage_limit 1;
  valid_from = dto.valid_from;
  valid_until = dto.valid_until;
  is_active = get_or dto.is_active true;
}

-- `create`, where the database numbers the row `id`
unfoldable pub create : ℕ → CreateCouponDto → Tx (Unit {0})
create id dto db = do
  throw_if (is_some (find_by_code (to_upper dto.code) db.coupons))
      (bad_request Reason.coupon_code_taken)
  throw_if (is_some (find_unique (λ (c : Coupon). c.id) id db.coupons))
      (known_request_error unique_violation)
  ok (tt, record db { coupons = new_coupon id dto ∷ db.coupons })

-- UpdateCouponDto: every field may be left out.
pub record UpdateCouponDto : Type 0 where
  pub code : Option Text
  pub discount_type : Option DiscountType
  pub discount_value : Option ℕ
  pub min_order_amount : Option ℕ
  pub max_discount_amount : Option ℕ
  pub usage_limit : Option (Option ℕ)
  pub user_usage_limit : Option ℕ
  pub valid_from : Option ℕ
  pub valid_until : Option ℕ
  pub is_active : Option Bool

abbrev pub patch : UpdateCouponDto → Coupon → Coupon
patch dto c = record c {
  code = get_or dto.code c.code;
  discount_type = get_or dto.discount_type c.discount_type;
  discount_value = get_or dto.discount_value c.discount_value;
  min_order_amount = get_or dto.min_order_amount c.min_order_amount;
  max_discount_amount = get_or dto.max_discount_amount c.max_discount_amount;
  usage_limit = get_or dto.usage_limit c.usage_limit;
  user_usage_limit = get_or dto.user_usage_limit c.user_usage_limit;
  valid_from = get_or dto.valid_from c.valid_from;
  valid_until = get_or dto.valid_until c.valid_until;
  is_active = get_or dto.is_active c.is_active;
}

-- Another coupon than `id` has the code.
abbrev pub is_other_with : ℕ → Text → Coupon → Bool
is_other_with id code c = text_eq c.code code && not (c.id == id)

-- `if (dto.code) dto.code = codeUpper`: an empty code is not truthy.
abbrev pub upper_code : Option Text → Option Text
upper_code none = none
upper_code (some []) = some []
upper_code (some (c ∷ cs)) = some (to_upper (c ∷ cs))

abbrev pub code_taken : ℕ → Option Text → List Coupon → Bool
code_taken id none coupons = false
code_taken id (some code) coupons = is_some (find_first (is_other_with id code) coupons)

-- The check of the service, which an empty code skips.
abbrev pub checked_code : Option Text → Option Text
checked_code none = none
checked_code (some []) = none
checked_code (some (c ∷ cs)) = some (to_upper (c ∷ cs))

-- `update`
unfoldable pub update_coupon : ℕ → UpdateCouponDto → Tx (Unit {0})
update_coupon id dto db = do
  c ←
      or_throw (find_unique (λ (c : Coupon). c.id) id db.coupons)
        (not_found Reason.coupon_not_found)
  throw_if (code_taken id (checked_code dto.code) db.coupons) (bad_request Reason.coupon_code_taken)
  throw_if (code_taken id (upper_code dto.code) db.coupons) (known_request_error unique_violation)
  let dto' = record dto { code = upper_code dto.code }
  ok (tt, record db { coupons = update (λ (c : Coupon). c.id) id (patch dto') db.coupons })

abbrev pub set_active : Bool → Coupon → Coupon
set_active v c = record c { is_active = v }

-- `toggleActive`
unfoldable pub toggle_active : ℕ → Tx (Unit {0})
toggle_active id db = do
  c ←
      or_throw (find_unique (λ (c : Coupon). c.id) id db.coupons)
        (not_found Reason.coupon_not_found)
  ok (
    tt,
    record db {
      coupons = update (λ (c : Coupon). c.id) id (set_active (not c.is_active)) db.coupons;
    },
  )

abbrev pub is_usage_of : ℕ → CouponUsage → Bool
is_usage_of id u = u.coupon_id == id

-- `delete`
unfoldable pub delete : ℕ → Tx (Unit {0})
delete id db = do
  c ←
      or_throw (find_unique (λ (c : Coupon). c.id) id db.coupons)
        (not_found Reason.coupon_not_found)
  throw_if (ltb 0 (count (is_usage_of id) db.coupon_usages)) (bad_request Reason.coupon_in_use)
  ok (tt, record db { coupons = delete_many (λ (c : Coupon). c.id == id) db.coupons })

-- A coupon with `_count: { couponUsages }`.
pub record CouponWithCount : Type 0 where
  pub coupon : Coupon
  pub usages : ℕ

abbrev pub with_count : Db → Coupon → CouponWithCount
with_count db c = record { coupon = c; usages = count (is_usage_of c.id) db.coupon_usages }

-- `findAll`; a new coupon is the first row, so the table is in the order of the query.
unfoldable pub find_all : PaginationDto → Db → PaginatedResult CouponWithCount
find_all page db = paginate page (map (with_count db) db.coupons)

-- `findOne`
unfoldable pub find_one : ℕ → Db → Result CouponWithCount
find_one id db = do
  c ←
      or_throw (find_unique (λ (c : Coupon). c.id) id db.coupons)
        (not_found Reason.coupon_not_found)
  ok (with_count db c)
