-- ===== src/System/Coupons.antt =====
-- The coupon tables across all transactions.
use turf_sync.Prelude.{
  ℕ, ◌≡◌, refl, sym, subst, inl, inr, arith, ap, ◌∙◌, Bool, false, ◌==◌, none, List, ◌∷◌,
  if◌then◌else◌, IsIn, Option-cases, Bool-cases,
}
use turf_sync.Table.{find_unique, update, update_many, count, delete_many}
use turf_sync.Table.Laws.{
  update_many-IsIn, IsIn-update_many, delete_many-IsIn, IsIn-delete_many, count-eq-zero,
  count-eq-zero_IsIn,
}
use turf_sync.Table.Unique.{find_unique-eq-none, find_unique-eq-some}
use turf_sync.Schema.{Db, Coupon, CouponUsage}
use turf_sync.Outcome.{ok}
use turf_sync.Coupon.{apply_coupon, use_once}
use turf_sync.Coupon.Usage.{IsCounted, apply_coupon-IsCounted, apply_coupon-IsApplied}
use turf_sync.Coupon.Admin.{
  CreateCouponDto, UpdateCouponDto, create, update_coupon, set_active, delete, is_usage_of, patch,
  new_coupon, upper_code,
}
use turf_sync.System.{
  CouponStep, apply_step, create_step, update_step, set_active_step, delete_step,
}
use turf_sync.System.Payments.{SameBookings}

pub CouponStep-SameBookings : {db db' : Db} → CouponStep db db' → SameBookings db db'
unfolding create update_coupon delete
CouponStep-SameBookings {db} {db'} (apply_step coupon_id user_id booking_id discount e) =
    let done = apply_coupon-IsApplied coupon_id user_id booking_id discount db db' e in
    rw done.written (record { bookings = refl; slots = refl })
CouponStep-SameBookings {db} {db'} (create_step id dto e) = ground arith
CouponStep-SameBookings {db} {db'} (update_step id dto e) = ground arith
CouponStep-SameBookings {db} {db'} (set_active_step id v e) = ground arith
CouponStep-SameBookings {db} {db'} (delete_step id e) = ground arith

-- The count of each coupon is the number of its uses, and each use is of a coupon in the table.
pub record IsTallied (db : Db) : Type 0 where
  pub counted : IsCounted db
  pub referred :
      (u : CouponUsage)
      → IsIn u db.coupon_usages
      → (c : Coupon) × IsIn c db.coupons × (c.id ≡ u.coupon_id)

-- An update of coupons that leaves their numbers and their counts alone.
updated-IsTallied :
    (p : Coupon → Bool) (f : Coupon → Coupon) (db : Db)
    → ((c : Coupon) → (f c).id ≡ c.id)
    → ((c : Coupon) → (f c).used_count ≡ c.used_count)
    → IsTallied db
    → IsTallied (record db { coupons = update_many p f db.coupons })
updated-IsTallied p f db same_id same_count t = record {
  counted =
      λ c m. let (x, n, e) = update_many-IsIn p f c db.coupons m in counts c x e (t.counted x n);
  referred = λ u m.
      let (c, n, e) = t.referred u m in
      ((if p c then f c else c), IsIn-update_many p f c db.coupons n, kept_id c ∙ e);
}
  where
    kept_id : (c : Coupon) → (if p c then f c else c).id ≡ c.id
    kept_id c = elim (Bool-cases (p c)) [ inl h ↦ rw h (same_id c) | inr h ↦ rw h refl ]

    kept_count : (c : Coupon) → (if p c then f c else c).used_count ≡ c.used_count
    kept_count c = elim (Bool-cases (p c)) [ inl h ↦ rw h (same_count c) | inr h ↦ rw h refl ]

    counts :
        (c x : Coupon)
        → c ≡ (if p x then f x else x)
        → x.used_count ≡ count (is_usage_of x.id) db.coupon_usages
        → c.used_count ≡ count (is_usage_of c.id) db.coupon_usages
    counts c x e h =
        ap (λ (y : Coupon). y.used_count) e
        ∙ kept_count x
        ∙ h
        ∙ ap (λ k. count (is_usage_of k) db.coupon_usages)
            (sym (ap (λ (y : Coupon). y.id) e ∙ kept_id x))

apply-IsTallied :
    (coupon_id user_id booking_id discount : ℕ) (db db' : Db)
    → apply_coupon coupon_id user_id booking_id discount db ≡ ok (tt, db')
    → IsTallied db
    → IsTallied db'
unfolding update
apply-IsTallied coupon_id user_id booking_id discount db db' e t =
    let done = apply_coupon-IsApplied coupon_id user_id booking_id discount db db' e in
    let (m, i) =
      find_unique-eq-some (λ (c : Coupon). c.id) coupon_id done.coupon db.coupons done.found in
    let p : Coupon → Bool = λ c. c.id == coupon_id in
    record {
      counted = apply_coupon-IsCounted coupon_id user_id booking_id discount db db' e t.counted;
      referred =
          subst
            (λ (w : Db).
              (u : CouponUsage)
              → IsIn u w.coupon_usages
              → (c : Coupon) × IsIn c w.coupons × (c.id ≡ u.coupon_id))
            (sym done.written) (λ u n. refers done.coupon m i u n);
    }
  where
    moved : List Coupon
    moved = update_many (λ (c : Coupon). c.id == coupon_id) use_once db.coupons

    move :
        (c : Coupon) (u : CouponUsage)
        → IsIn c db.coupons
        → c.id ≡ u.coupon_id
        → (c : Coupon) × IsIn c moved × (c.id ≡ u.coupon_id)
    move c u n j = elim (Bool-cases (c.id == coupon_id)) [
      | inl h ↦ (
        use_once c,
        (let k = IsIn-update_many (λ (c : Coupon). c.id == coupon_id) use_once c db.coupons n in
            rw h at k),
        j,
      )
      | inr h ↦ (
        c,
        (let k = IsIn-update_many (λ (c : Coupon). c.id == coupon_id) use_once c db.coupons n in
            rw h at k),
        j,
      )
    ]

    refers :
        (c : Coupon)
        → IsIn c db.coupons
        → c.id ≡ coupon_id
        → (u : CouponUsage)
        → IsIn u (
            record {
              coupon_id = coupon_id;
              user_id = user_id;
              booking_id = booking_id;
              discount = discount;
            }
            ∷ db.coupon_usages)
        → (c : Coupon) × IsIn c moved × (c.id ≡ u.coupon_id)
    refers c m i u (inl e) = move c u m (i ∙ ap (λ (v : CouponUsage). v.coupon_id) e)
    refers c m i u (inr n) = let (d, k, j) = t.referred u n in move d u k j

create-IsTallied :
    (id : ℕ) (dto : CreateCouponDto) (db db' : Db)
    → create id dto db ≡ ok (tt, db')
    → IsTallied db
    → IsTallied db'
unfolding create
create-IsTallied id dto db db' e t =
    elim (Option-cases (find_unique (λ (c : Coupon). c.id) id db.coupons)) [
      | inr (c, f) ↦ absurd (ground arith)
      | inl f ↦
          let same : record db { coupons = new_coupon id dto ∷ db.coupons } ≡ db' = ground arith in
          subst IsTallied same (record {
            counted = λ c m. counts f c m;
            referred = λ u m. let (c, n, i) = t.referred u m in (c, inr n, i);
          })
    ]
  where
    unused :
        find_unique (λ (c : Coupon). c.id) id db.coupons ≡ none
        → (u : CouponUsage) → IsIn u db.coupon_usages
        → is_usage_of id u ≡ false
    unused f u m =
        let (c, n, i) = t.referred u m in
        let ne = find_unique-eq-none (λ (c : Coupon). c.id) id c db.coupons f n in ground arith

    counts :
        find_unique (λ (c : Coupon). c.id) id db.coupons ≡ none
        → (c : Coupon) → IsIn c (new_coupon id dto ∷ db.coupons)
        → c.used_count ≡ count (is_usage_of c.id) db.coupon_usages
    counts f c (inl e) =
        subst (λ (x : Coupon). x.used_count ≡ count (is_usage_of x.id) db.coupon_usages) e
          (sym (count-eq-zero (is_usage_of id) db.coupon_usages (unused f)))
    counts f c (inr m) = t.counted c m

delete-IsTallied :
    (id : ℕ) (db db' : Db) → delete id db ≡ ok (tt, db') → IsTallied db → IsTallied db'
unfolding delete
delete-IsTallied id db db' e t =
    elim (Option-cases (find_unique (λ (c : Coupon). c.id) id db.coupons)) [
      | inl f ↦ absurd (ground arith)
      | inr (c, f) ↦
          let none_used : count (is_usage_of id) db.coupon_usages ≡ 0 = ground arith in
          let same : record db { coupons = delete_many (λ (c : Coupon). c.id == id) db.coupons }
              ≡ db' =
            ground arith in
          subst IsTallied same (record {
            counted =
                λ c m. t.counted c (delete_many-IsIn (λ (c : Coupon). c.id == id) c db.coupons m).0;
            referred = λ u m.
                let (c, n, i) = t.referred u m in
                let f = count-eq-zero_IsIn (is_usage_of id) u db.coupon_usages none_used m in
                (c, IsIn-delete_many (λ (c : Coupon). c.id == id) c db.coupons n (ground arith), i);
          })
    ]

update_coupon-IsTallied :
    (id : ℕ) (dto : UpdateCouponDto) (db db' : Db)
    → update_coupon id dto db ≡ ok (tt, db')
    → IsTallied db
    → IsTallied db'
unfolding update_coupon update
update_coupon-IsTallied id dto db db' e t =
    let dto' = record dto { code = upper_code dto.code } in
    let same : record db { coupons = update_many (λ c. c.id == id) (patch dto') db.coupons } ≡ db' =
      ground arith in
    subst IsTallied same
      (updated-IsTallied (λ c. c.id == id) (patch dto') db (λ c. refl) (λ c. refl) t)

-- Every transaction on coupons keeps the counts equal to the numbers of uses.
pub CouponStep-IsTallied : {db db' : Db} → CouponStep db db' → IsTallied db → IsTallied db'
unfolding update
CouponStep-IsTallied {db} {db'} (apply_step coupon_id user_id booking_id discount e) t =
    apply-IsTallied coupon_id user_id booking_id discount db db' e t
CouponStep-IsTallied {db} {db'} (create_step id dto e) t = create-IsTallied id dto db db' e t
CouponStep-IsTallied {db} {db'} (update_step id dto e) t = update_coupon-IsTallied id dto db db' e t
CouponStep-IsTallied {db} {db'} (set_active_step id v e) t =
    subst IsTallied e
      (updated-IsTallied (λ c. c.id == id) (set_active v) db (λ c. refl) (λ c. refl) t)
CouponStep-IsTallied {db} {db'} (delete_step id e) t = delete-IsTallied id db db' e t
