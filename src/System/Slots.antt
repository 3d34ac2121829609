-- ===== src/System/Slots.antt =====
-- How the updates of the slot table change `slot_booked`.
use turf_sync.Prelude.{
  ℕ, Bool, true, false, some, List, ◌≡◌, refl, inl, inr, arith, ◌==◌, IsIn, Option-cases,
  List-cases, ap, ◌∙◌,
}
use turf_sync.Table.{find_unique, find_many, update_many, update}
use turf_sync.Table.Laws.{find_many-eq-nil}
use turf_sync.Table.Unique.{find_unique-eq-some, find_unique-update_many, update_many-IsUnique}
use turf_sync.Schema.{Db, Slot, Booking, is_active_status}
use turf_sync.Booking.{set_booked, holds_slot, release_slot}
use turf_sync.System.Invariant.{slot_booked, IsConsistent}

module _ (sid : ℕ) (slots : List Slot) where
  pub slot_booked-set_true :
      (id : ℕ)
      → slot_booked sid slots ≡ true
      → slot_booked sid (update (λ s. s.id) id (set_booked true) slots) ≡ true
  unfolding slot_booked update
  slot_booked-set_true id h = ground (
    arith,
    find_unique-update_many (λ (s : Slot). s.id) (λ s. s.id == id) (set_booked true) sid slots
        (λ x. refl),
  )

  pub slot_booked-set_self :
      (s : Slot)
      → find_unique (λ s. s.id) sid slots ≡ some s
      → s.id ≡ sid
      → slot_booked sid (update (λ s. s.id) sid (set_booked true) slots) ≡ true
  unfolding slot_booked update
  slot_booked-set_self s e i = ground (
    arith,
    find_unique-update_many (λ (s : Slot). s.id) (λ s. s.id == sid) (set_booked true) sid slots
        (λ x. refl),
  )

  pub slot_booked-set_false :
      (q : ℕ → Bool)
      → q sid ≡ false
      → slot_booked sid slots ≡ true
      → slot_booked sid (update_many (λ s. q s.id) (set_booked false) slots) ≡ true
  unfolding slot_booked
  slot_booked-set_false q f h = elim (Option-cases (find_unique (λ (s : Slot). s.id) sid slots)) [
    | inl e ↦ ground arith
    | inr (s, e) ↦
        let i : s.id ≡ sid = (find_unique-eq-some (λ (s : Slot). s.id) sid s slots e).1 in
        let g : q s.id ≡ false = ap q i ∙ f in
        ground (
          arith,
          find_unique-update_many (λ (s : Slot). s.id) (λ s. q s.id) (set_booked false) sid slots
              (λ x. refl),
        )
  ]

-- Freeing the slot of a booking that is no longer active keeps the invariant.
pub release_slot-IsConsistent :
    (slot_id id : ℕ) (db : Db)
    → ((b : Booking) → IsIn b db.bookings → b.id ≡ id → is_active_status b.status ≡ false)
    → IsConsistent db
    → IsConsistent (release_slot slot_id id db)
unfolding release_slot update
release_slot-IsConsistent slot_id id db gone c =
    elim (List-cases (find_many (holds_slot slot_id id) db.bookings)) [
      | inl e ↦
          rw (e, release_slot)
            (record {
              booking_ids = c.booking_ids;
              booking_slots = c.booking_slots;
              slot_numbers =
                  update_many-IsUnique (λ (s : Slot). s.id) (λ s. s.id == slot_id)
                    (set_booked false) db.slots (λ x. refl) c.slot_numbers;
              held = λ b m a.
                  let none_held = find_many-eq-nil (holds_slot slot_id id) b db.bookings e m in
                  slot_booked-set_false b.slot_id db.slots (λ i. i == slot_id)
                    (other b (gone b m) a none_held) (c.held b m a);
            })
      | inr (y, ys, e) ↦ rw (e, release_slot) c
    ]
  where
    other :
        (b : Booking)
        → (b.id ≡ id → is_active_status b.status ≡ false)
        → is_active_status b.status ≡ true
        → holds_slot slot_id id b ≡ false
        → (b.slot_id == slot_id) ≡ false
    other b g a n = ground arith
