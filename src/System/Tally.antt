-- ===== src/System/Tally.antt =====
-- The counts of the coupons in every state that the server can reach.
use turf_sync.Prelude.{◌≡◌, inl, inr}
use turf_sync.Schema.{Db}
use turf_sync.System.{Step, Reach, here, next}
use turf_sync.System.Extras.{Step-SameExtras}
use turf_sync.System.Turfs.{TurfStep-SameTrade}
use turf_sync.System.Coupons.{IsTallied, CouponStep-IsTallied}

same-IsTallied :
    (db db' : Db)
    → db'.coupons ≡ db.coupons
    → db'.coupon_usages ≡ db.coupon_usages
    → IsTallied db
    → IsTallied db'
same-IsTallied db db' c u t = record {
  counted = rw (c, u) t.counted;
  referred = rw (c, u) t.referred;
}

-- Every transaction of the server keeps the count of each coupon equal to the number of its uses.
pub Step-IsTallied : {db db' : Db} → Step db db' → IsTallied db → IsTallied db'
Step-IsTallied {db} {db'} s t = elim (Step-SameExtras s) [
  | inl same ↦ same-IsTallied db db' same.coupons same.usages t
  | inr (inl c) ↦ CouponStep-IsTallied c t
  | inr (inr w) ↦
      let same = TurfStep-SameTrade w in same-IsTallied db db' same.coupons same.usages t
]

-- However transactions interleave from tables where the count of each coupon is the number of
-- its uses and each use is of a coupon in the table, both stay so.
pub Reach-IsTallied : {start db : Db} → Reach start db → IsTallied start → IsTallied db
Reach-IsTallied here t = t
Reach-IsTallied (next r s) t = Step-IsTallied s (Reach-IsTallied r t)
