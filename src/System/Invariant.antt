-- ===== src/System/Invariant.antt =====
-- The invariant of the booking tables.
use turf_sync.Prelude.{ℕ, Bool, true, false, none, some, List, ◌≡◌, IsIn}
use turf_sync.Table.{find_unique}
use turf_sync.Table.Unique.{IsUnique}
use turf_sync.Schema.{Db, Slot, Booking, is_active_status}

-- The slot is there and marked as booked.
unfoldable pub slot_booked : ℕ → List Slot → Bool
slot_booked id slots = elim (find_unique (λ (s : Slot). s.id) id slots) [
  | none ↦ false
  | some s ↦ s.is_booked
]

pub record IsConsistent (db : Db) : Type 0 where
  pub booking_ids : IsUnique (λ (b : Booking). b.id) db.bookings
  pub booking_slots : IsUnique (λ (b : Booking). b.slot_id) db.bookings
  pub slot_numbers : IsUnique (λ (s : Slot). s.id) db.slots
  pub held :
      (b : Booking)
      → IsIn b db.bookings
      → is_active_status b.status ≡ true
      → slot_booked b.slot_id db.slots ≡ true
