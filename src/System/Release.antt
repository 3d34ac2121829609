-- ===== src/System/Release.antt =====
-- Cancelling a booking frees its slot: `cancel` on consistent tables.
use turf_sync.Prelude.{
  ℕ, ◌≡◌, ◌≢◌, refl, sym, ◌∙◌, subst, inl, inr, arith, Bool, false, ◌==◌, some, List, [], IsIn,
  Option-cases, List-cases,
}
use turf_sync.Table.{find_unique, find_many, update}
use turf_sync.Table.Laws.{find_many-IsIn}
use turf_sync.Table.Unique.{
  IsUnique, IsUnique-eq, find_unique-eq-some, find_unique-update_self, find_unique-update_ne,
  find_unique-update_many,
}
use turf_sync.Schema.{Db, Slot, Booking, BookingStatus, is_cancelled}
use turf_sync.Outcome.{ok}
use turf_sync.Booking.{set_booked, set_status, holds_slot, release_slot, cancel_tx, check_cancel}
use turf_sync.Booking.Request.{cancel, Effect, invalidated}
use turf_sync.Payment.Effects.{booking_at}
use turf_sync.System.Invariant.{IsConsistent, slot_booked}
use turf_sync.System.Bookings.{cancelled-IsConsistent}

-- Where a slot has one booking at most, none other holds it.
no_other_holder :
    (b : Booking) (bs : List Booking)
    → IsUnique (λ (x : Booking). x.slot_id) bs
    → IsIn b bs
    → find_many (holds_slot b.slot_id b.id) bs ≡ []
no_other_holder b bs u m = elim (List-cases (find_many (holds_slot b.slot_id b.id) bs)) [
  | inl e ↦ e
  | inr (x, xs, e) ↦
      let here : IsIn x (find_many (holds_slot b.slot_id b.id) bs) = rw e (inl refl) in
      let (n, t) = find_many-IsIn (holds_slot b.slot_id b.id) x bs here in
      let same : x ≡ b = IsUnique-eq (λ (x : Booking). x.slot_id) x b bs u n m (ground arith) in
      absurd (ground arith)
]

slot_booked-set_free :
    (id : ℕ) (slots : List Slot)
    → slot_booked id (update (λ (s : Slot). s.id) id (set_booked false) slots) ≡ false
unfolding slot_booked update
slot_booked-set_free id slots = elim (Option-cases (find_unique (λ (s : Slot). s.id) id slots)) [
  | inl e ↦ ground (
    arith,
    find_unique-update_many (λ (s : Slot). s.id) (λ s. s.id == id) (set_booked false) id slots
        (λ x. refl),
  )
  | inr (s, e) ↦
      let i = (find_unique-eq-some (λ (s : Slot). s.id) id s slots e).1 in
      ground (
        arith,
        find_unique-update_many (λ (s : Slot). s.id) (λ s. s.id == id) (set_booked false) id slots
            (λ x. refl),
      )
]

module _ (db : Db) (c : IsConsistent db) (id : ℕ) (b : Booking)
    (found : booking_at id db ≡ some b) where
  cancelled : Db
  cancelled = record db {
    bookings = update (λ (b : Booking). b.id) id (set_status BookingStatus.cancelled) db.bookings;
  }

  cancelled_row : booking_at id cancelled ≡ some (set_status BookingStatus.cancelled b)
  unfolding cancelled
  cancelled_row =
      find_unique-update_self (λ (b : Booking). b.id) (set_status BookingStatus.cancelled) id b
        db.bookings (λ x. refl) found

  no_holder : find_many (holds_slot b.slot_id id) cancelled.bookings ≡ []
  unfolding cancelled
  no_holder =
      let (m, i) =
        find_unique-eq-some (λ (b : Booking). b.id) id (set_status BookingStatus.cancelled b)
          cancelled.bookings cancelled_row in
      subst (λ n. find_many (holds_slot b.slot_id n) cancelled.bookings ≡ []) i
        (no_other_holder (set_status BookingStatus.cancelled b) cancelled.bookings
          (cancelled-IsConsistent id db c).booking_slots m)

  freed : Db
  unfolding cancelled
  freed = record cancelled {
    slots = update (λ (s : Slot). s.id) b.slot_id (set_booked false) cancelled.slots;
  }

  released-eq-freed : release_slot b.slot_id id cancelled ≡ freed
  unfolding release_slot freed
  released-eq-freed = rw (no_holder, release_slot)

  -- The booking is cancelled, its slot is free, and every other booking is as it was.
  pub cancelled_release :
      (done : Db)
      → release_slot b.slot_id id (record db {
        bookings =
            update (λ (b : Booking). b.id) id (set_status BookingStatus.cancelled) db.bookings;
      })
        ≡ done
      → (booking_at id done ≡ some (set_status BookingStatus.cancelled b))
        × (slot_booked b.slot_id done.slots ≡ false)
        × ((other : ℕ) → other ≢ id → booking_at other done ≡ booking_at other db)
  unfolding cancelled freed
  cancelled_release done e =
      subst
        (λ (w : Db).
          (booking_at id w ≡ some (set_status BookingStatus.cancelled b))
          × (slot_booked b.slot_id w.slots ≡ false)
          × ((other : ℕ) → other ≢ id → booking_at other w ≡ booking_at other db))
        (sym released-eq-freed ∙ e)
        (
          cancelled_row,
          slot_booked-set_free b.slot_id db.slots,
          λ other ne.
              find_unique-update_ne (λ (b : Booking). b.id) (set_status BookingStatus.cancelled)
                other id db.bookings (λ x. refl) ne,
        )

-- A cancellation that is answered with success, whatever other requests committed since its
-- checks, as long as the tables are consistent: the user owned the booking, which was not
-- cancelled before; now it is, its slot is free, every other booking is as those requests left
-- it, and the cached slots of its turf are dropped.
pub cancel_effect :
    (queue_up : Bool) (others : Db → Db) (id user_id : ℕ) (db db' : Db) (effects : List Effect)
    → IsConsistent (others db)
    → cancel queue_up others id user_id db ≡ (ok tt, db', effects)
    → (owned b : Booking) × (booking_at id db ≡ some owned)
      × (owned.user_id ≡ user_id)
      × (is_cancelled owned.status ≡ false)
      × (booking_at id (others db) ≡ some b)
      × (is_cancelled b.status ≡ false)
      × (booking_at id db' ≡ some (set_status BookingStatus.cancelled b))
      × (slot_booked b.slot_id db'.slots ≡ false)
      × ((other : ℕ) → other ≢ id → booking_at other db' ≡ booking_at other (others db))
      × IsIn (invalidated owned.turf_id) effects
unfolding cancel check_cancel cancel_tx
cancel_effect queue_up others id user_id db db' effects c e =
    elim (Option-cases (booking_at id db)) [
      | inl n ↦ absurd (ground arith)
      | inr (owned, f) ↦ elim (Option-cases (booking_at id (others db))) [
        | inl n ↦ absurd (ground arith)
        | inr (b, g) ↦
            let (x, y, z) = cancelled_release (others db) c id b g db' (ground arith) in
            (owned, b, f, ground arith, ground arith, g, ground arith, x, y, z, ground arith)
      ]
    ]
