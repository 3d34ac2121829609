-- ===== src/Booking/Locking.antt =====
-- The lock round `BookingService.create`.
use turf_sync.Prelude.{
  ℕ, ◌≡◌, ◌≢◌, ap, ◌∙◌, inl, inr, Option, none, some, [], ◌∷◌, Option-cases, Bool-cases,
}
use turf_sync.Schema.{Db}
use turf_sync.Outcome.{err, Exception, Result-cases, ◌>>◌, bad_request, Reason}
use turf_sync.Lock.{RedisClient, acquire_lock, release_lock, owns}
use turf_sync.Lock.Exclusion.{acquire_held, release_own}
use turf_sync.Booking.{CreateBookingDto, ValidatedCoupon}
use turf_sync.Booking.Request.{
  Env, check_date, check_coupon, create_locked, create, counted_lock_failure,
}

module _ (redis : RedisClient) where
  open redis use {Store, get}

  acquire_free :
      (key token ttl : ℕ) (s : Store)
      → get key s ≡ none
      → ((acquire_lock redis key token ttl s).0 ≡ some token)
        × (get key (acquire_lock redis key token ttl s).1 ≡ some token)
  unfolding acquire_lock
  acquire_free key token ttl s h =
      let (done, held) = redis.set_nx_free key token ttl s h in (rw done, held)

  acquire_other :
      (j key token ttl : ℕ) (s : Store)
      → j ≢ key
      → get j (acquire_lock redis key token ttl s).1 ≡ get j s
  unfolding acquire_lock
  acquire_other j key token ttl s ne = redis.set_nx_other j key token ttl s ne

  release_other :
      (j key token : ℕ) (s : Store) → j ≢ key → get j (release_lock redis key token s).1 ≡ get j s
  unfolding release_lock
  release_other j key token s ne = elim (Bool-cases (owns redis key token s)) [
    | inl e ↦ rw e (redis.get_del_other j key s ne)
    | inr f ↦ rw f
  ]

  module _ (env : Env) (dto : CreateBookingDto) (user_id : ℕ) (coupon : Option ValidatedCoupon)
      (db : Db) (s : Store) where
    locked-frees :
        get dto.slot_id s ≡ none
        → get dto.slot_id (create_locked redis env dto user_id coupon db s).3 ≡ none
    unfolding create_locked
    locked-frees h =
        let (took, held) = acquire_free dto.slot_id env.token 30 s h in
        rw (took, create_locked) (release_own redis dto.slot_id env.token _ held).1

    locked-others :
        (j : ℕ)
        → j ≢ dto.slot_id
        → get j (create_locked redis env dto user_id coupon db s).3 ≡ get j s
    unfolding create_locked
    locked-others j ne = elim (Option-cases (acquire_lock redis dto.slot_id env.token 30 s).0) [
      | inl e ↦ rw (e, create_locked) (acquire_other j dto.slot_id env.token 30 s ne)
      | inr (t, e) ↦
          rw (e, create_locked)
            (release_other j dto.slot_id t _ ne ∙ acquire_other j dto.slot_id env.token 30 s ne)
    ]

    locked_out :
        (w : ℕ)
        → get dto.slot_id s ≡ some w
        → create_locked redis env dto user_id coupon db s
          ≡ (err (bad_request Reason.slot_locked), db, counted_lock_failure ∷ [], s)
    unfolding create_locked
    locked_out w h =
        let held = acquire_held redis dto.slot_id w env.token 30 s h in
        rw (held, create_locked)
          (ap
            (λ (r : Option ℕ × Store).
              (err (bad_request Reason.slot_locked), db, counted_lock_failure ∷ [], r.1))
            held)

  -- On every path, errors of the checks, of the transaction and of the coupon included, a request
  -- that finds its slot unlocked leaves it unlocked, and never touches the lock of another slot.
  pub create-unlocks :
      (env : Env) (dto : CreateBookingDto) (user_id : ℕ) (db : Db) (s : Store)
      → get dto.slot_id s ≡ none
      → (get dto.slot_id (create redis env dto user_id db s).3 ≡ none)
        × ((j : ℕ) → j ≢ dto.slot_id → get j (create redis env dto user_id db s).3 ≡ get j s)
  unfolding create
  create-unlocks env dto user_id db s h =
      elim (Result-cases (check_date env.now dto.date >> check_coupon env.now dto user_id db)) [
        | inr (x, e) ↦ (rw (e, create) h, λ j ne. rw (e, create))
        | inl (coupon, e) ↦ (
          rw (e, create) (locked-frees env dto user_id coupon db s h),
          λ j ne. rw (e, create) (locked-others env dto user_id coupon db s j ne),
        )
      ]

  -- A request that finds its slot locked by another writes nothing to the database, frees nothing,
  -- and fails: with the error of its checks, or with the message that the slot is being booked.
  create_locked_out :
      (env : Env) (dto : CreateBookingDto) (user_id : ℕ) (db : Db) (s : Store) (w : ℕ)
      → get dto.slot_id s ≡ some w
      → (x : Exception) × ((create redis env dto user_id db s).0 ≡ err x)
        × ((create redis env dto user_id db s).1 ≡ db)
        × ((create redis env dto user_id db s).3 ≡ s)
  unfolding create
  create_locked_out env dto user_id db s w h =
      elim (Result-cases (check_date env.now dto.date >> check_coupon env.now dto user_id db)) [
        | inr (x, e) ↦ (x, rw (e, create), rw (e, create), rw (e, create))
        | inl (coupon, e) ↦
            let out = locked_out env dto user_id coupon db s w h in
            (
              bad_request Reason.slot_locked,
              rw (e, create) (ap (λ r. r.0) out),
              rw (e, create) (ap (λ r. r.1) out),
              rw (e, create) (ap (λ r. r.3) out),
            )
      ]
