-- ===== src/System/Cleanup.antt =====
-- The scheduled jobs keep the invariant.
use turf_sync.Prelude.{
  ℕ, Bool, true, false, not, List, [], ◌∷◌, ◌≡◌, refl, sym, subst, inl, inr, arith, ◌==◌, ap, ◌∙◌,
  IsIn, List-cases, Bool-cases, includes,
}
use turf_sync.Table.{find_many, update_many, update}
use turf_sync.Table.Laws.{update_many-IsIn, find_many-IsIn, IsIn-find_many}
use turf_sync.Table.Unique.{IsUnique-eq, update_many-IsUnique}
use turf_sync.Schema.{Db, Slot, Booking, BookingStatus, is_active_status}
use turf_sync.Booking.{set_booked, set_status}
use turf_sync.Booking.Cleanup.{
  ids, slot_ids, is_candidate, still_holds, slots_to_release, release_slots, cancel_stale,
  cleanup_tx,
}
use turf_sync.Booking.Complete.{complete}
use turf_sync.System.Invariant.{IsConsistent}
use turf_sync.System.Slots.{slot_booked-set_false}
use turf_sync.System.Bookings.{update_status-IsConsistent}

pub includes-slot_ids :
    (b : Booking) (bs : List Booking) → IsIn b bs → includes b.slot_id (slot_ids bs) ≡ true
includes-slot_ids b [] m = absurd m
includes-slot_ids b (x ∷ bs) (inl e) = ground arith
includes-slot_ids b (x ∷ bs) (inr m) = ground (arith, includes-slot_ids b bs m)

pub includes-ids : (b : Booking) (bs : List Booking) → IsIn b bs → includes b.id (ids bs) ≡ true
includes-ids b [] m = absurd m
includes-ids b (x ∷ bs) (inl e) = ground arith
includes-ids b (x ∷ bs) (inr m) = ground (arith, includes-ids b bs m)

-- A number that a filter refuses is not in its result.
pub includes-find_many :
    (p : ℕ → Bool) (n : ℕ) (xs : List ℕ) → p n ≡ false → includes n (find_many p xs) ≡ false
unfolding find_many
includes-find_many p n [] f = refl
includes-find_many p n (x ∷ xs) f = ground (arith, includes-find_many p n xs f)

pub not_includes-find_many :
    (p : ℕ → Bool) (n : ℕ) (xs : List ℕ)
    → includes n xs ≡ false
    → includes n (find_many p xs) ≡ false
unfolding find_many
not_includes-find_many p n [] f = refl
not_includes-find_many p n (x ∷ xs) f = ground (arith, not_includes-find_many p n xs)

-- Releasing slots that no active booking has keeps the invariant.
pub release_slots-IsConsistent :
    (xs : List ℕ) (db : Db)
    → ((b : Booking)
        → IsIn b db.bookings
        → is_active_status b.status ≡ true
        → includes b.slot_id xs ≡ false)
    → IsConsistent db
    → IsConsistent (release_slots xs db)
unfolding release_slots
release_slots-IsConsistent [] db none_held c = c
release_slots-IsConsistent (x ∷ xs) db none_held c = record {
  booking_ids = c.booking_ids;
  booking_slots = c.booking_slots;
  slot_numbers =
      update_many-IsUnique (λ (s : Slot). s.id) (λ s. includes s.id (x ∷ xs)) (set_booked false)
        db.slots (λ y. refl) c.slot_numbers;
  held = λ b m a.
      slot_booked-set_false b.slot_id db.slots (λ i. includes i (x ∷ xs)) (none_held b m a)
        (c.held b m a);
}

module _ (db : Db) (c : IsConsistent db) where
  abbrev cancelled_db : List Booking → Db
  cancelled_db stale = record db {
    bookings =
        update_many (is_candidate (ids stale)) (set_status BookingStatus.cancelled) db.bookings;
  }

  cancelled_db-IsConsistent : (stale : List Booking) → IsConsistent (cancelled_db stale)
  cancelled_db-IsConsistent stale =
      update_status-IsConsistent (is_candidate (ids stale)) BookingStatus.cancelled db
        (λ b m t a. cc) c

  -- An active booking of a released slot would be one of the cancelled ones.
  cancel_stale_free :
      (stale : List Booking) (b : Booking)
      → ((x : Booking)
          → IsIn x db.bookings
          → includes x.id (ids stale) ≡ true
          → is_candidate (ids stale) x ≡ true)
      → IsIn b (cancelled_db stale).bookings
      → is_active_status b.status ≡ true
      → includes b.slot_id (
          slots_to_release
            (slot_ids stale)
            (find_many (still_holds (slot_ids stale) (ids stale)) (cancelled_db stale).bookings))
        ≡ false
  cancel_stale_free stale b pend m a =
      let (x, n, e) =
        update_many-IsIn (is_candidate (ids stale)) (set_status BookingStatus.cancelled) b
          db.bookings m in
      elim (Bool-cases (is_candidate (ids stale) x)) [
        | inl t ↦
            absurd (let e' : b ≡ set_status BookingStatus.cancelled x = rw (e, t) in ground arith)
        | inr f ↦
            let e' : b ≡ x = rw (e, f) in
            elim (Bool-cases (includes b.slot_id (slot_ids stale))) [
              | inr out ↦ not_includes-find_many _ b.slot_id (slot_ids stale) out
              | inl in_slots ↦ includes-find_many _ b.slot_id (slot_ids stale) (
                  ap not (
                    includes-slot_ids b _ (
                      IsIn-find_many (still_holds (slot_ids stale) (ids stale)) b _ m
                        (holds x e' f (pend x n) in_slots))))
            ]
      ]
    where
      holds :
          (x : Booking)
          → b ≡ x
          → is_candidate (ids stale) x ≡ false
          → (includes x.id (ids stale) ≡ true → is_candidate (ids stale) x ≡ true)
          → includes b.slot_id (slot_ids stale) ≡ true
          → still_holds (slot_ids stale) (ids stale) b ≡ true
      holds x e f h t = elim (Bool-cases (includes x.id (ids stale))) [
        | inl y ↦ absurd (let g = h y in ground arith)
        | inr y ↦
            let z : includes b.id (ids stale) ≡ false =
              ap (λ (w : Booking). includes w.id (ids stale)) e ∙ y in
            ground arith
      ]

  cancel_stale-IsConsistent :
      (stale : List Booking)
      → ((x : Booking)
          → IsIn x db.bookings
          → includes x.id (ids stale) ≡ true
          → is_candidate (ids stale) x ≡ true)
      → IsConsistent (cancel_stale stale db)
  unfolding cancel_stale
  cancel_stale-IsConsistent stale pend =
      release_slots-IsConsistent _ (cancelled_db stale)
        (λ b m a. cancel_stale_free stale b pend m a) (cancelled_db-IsConsistent stale)

  -- A number among those of selected bookings is that of one of them.
  includes-ids-IsIn :
      (n : ℕ) (bs : List Booking)
      → includes n (ids bs) ≡ true
      → (b : Booking) × IsIn b bs × (b.id ≡ n)
  includes-ids-IsIn n [] e = cc
  includes-ids-IsIn n (b ∷ bs) e = elim (Bool-cases (n == b.id)) [
    | inl t ↦ (b, inl refl, ground arith)
    | inr f ↦ let (x, m, i) = includes-ids-IsIn n bs (ground arith) in (x, inr m, i)
  ]

  selected_pending :
      (candidate_ids : List ℕ) (x : Booking)
      → IsIn x db.bookings
      → includes x.id (ids (find_many (is_candidate candidate_ids) db.bookings)) ≡ true
      → is_candidate (ids (find_many (is_candidate candidate_ids) db.bookings)) x ≡ true
  selected_pending candidate_ids x m t =
      let (b, n, i) = includes-ids-IsIn x.id _ t in
      let (k, h) = find_many-IsIn (is_candidate candidate_ids) b db.bookings n in
      let e = IsUnique-eq (λ (y : Booking). y.id) b x db.bookings c.booking_ids k m i in
      let g = ap (is_candidate candidate_ids) (sym e) ∙ h in ground arith

  pub cleanup_tx-IsConsistent :
      (candidate_ids : List ℕ) → IsConsistent (cleanup_tx candidate_ids db).1
  unfolding cleanup_tx
  cleanup_tx-IsConsistent candidate_ids =
      elim (List-cases (find_many (is_candidate candidate_ids) db.bookings)) [
        | inl e ↦ rw (e, cleanup_tx) c
        | inr (b, bs, e) ↦
            rw (e, cleanup_tx)
              (cancel_stale-IsConsistent (b ∷ bs) (
                subst
                  (λ (l : List Booking).
                    (x : Booking)
                    → IsIn x db.bookings
                    → includes x.id (ids l) ≡ true
                    → is_candidate (ids l) x ≡ true)
                  e (selected_pending candidate_ids)))
      ]

  pub complete-IsConsistent : (id : ℕ) → IsConsistent (complete id db)
  unfolding complete update
  complete-IsConsistent id =
      update_status-IsConsistent (λ b. b.id == id) BookingStatus.completed db (λ b m t a. cc) c
