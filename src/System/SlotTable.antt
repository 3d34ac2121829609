-- ===== src/System/SlotTable.antt =====
-- The operations of SlotService keep the invariant.
use turf_sync.Prelude.{
  ℕ, ◌+◌, true, false, ◌&&◌, List, [], ◌∷◌, ◌≡◌, ◌≢◌, subst, inl, inr, arith, IsIn, Option-cases,
}
use turf_sync.Table.{find_unique, find_first, delete_many}
use turf_sync.Table.Laws.{find_first-eq-none, IsIn-delete_many}
use turf_sync.Table.Unique.{IsUnique, find_unique-eq-some, find_unique-IsIn, delete_many-IsUnique}
use turf_sync.Schema.{Db, Slot, Turf}
use turf_sync.Outcome.{ok}
use turf_sync.Slot.{
  SlotInput, new_slot, is_duplicate, create_many, generate_turf_slots, slots_to_create, is_old_slot,
  is_referenced, cleanup_old_slots,
}
use turf_sync.System.Invariant.{slot_booked, IsConsistent}

abbrev slot_id : Slot → ℕ
slot_id s = s.id

-- A booked slot is in the table.
pub slot_booked-IsIn :
    (sid : ℕ) (slots : List Slot)
    → slot_booked sid slots ≡ true
    → (s : Slot) × IsIn s slots × (s.id ≡ sid) × (s.is_booked ≡ true)
unfolding slot_booked
slot_booked-IsIn sid slots h = elim (Option-cases (find_unique slot_id sid slots)) [
  | inl e ↦ absurd (ground arith)
  | inr (s, e) ↦ let (m, i) = find_unique-eq-some slot_id sid s slots e in (s, m, i, ground arith)
]

pub IsIn-slot_booked :
    (s : Slot) (slots : List Slot)
    → IsUnique slot_id slots
    → IsIn s slots
    → s.is_booked ≡ true
    → slot_booked s.id slots ≡ true
unfolding slot_booked
IsIn-slot_booked s slots u m b = ground (arith, find_unique-IsIn slot_id s slots u m)

-- What holds of the slot table between two rounds of `createMany`.
pub record Extends (old new : List Slot) : Type 0 where
  pub unique : IsUnique slot_id new
  pub keeps : (s : Slot) → IsIn s old → IsIn s new

pub create_many-Extends :
    (fresh : ℕ → ℕ) (inputs : List SlotInput) (old slots : List Slot)
    → Extends old slots
    → Extends old (create_many fresh inputs slots)
unfolding create_many
create_many-Extends fresh [] old slots x = x
create_many-Extends fresh (new ∷ more) old slots x =
    elim (Option-cases (find_first (is_duplicate (fresh 0) new) slots)) [
      | inr (s, e) ↦ rw e (create_many-Extends (λ n. fresh (n + 1)) more old slots x)
      | inl e ↦ rw e (
          create_many-Extends (λ n. fresh (n + 1)) more old (new_slot (fresh 0) new ∷ slots)
            (record {
              unique = (λ y m. distinct y (find_first-eq-none _ y slots e m), x.unique);
              keeps = λ s m. inr (x.keeps s m);
            }))
    ]
  where
    distinct : (y : Slot) → is_duplicate (fresh 0) new y ≡ false → y.id ≢ fresh 0
    distinct y f = ground arith

pub generate_turf_slots-IsConsistent :
    (fresh : ℕ → ℕ) (turf : Turf) (date : ℕ) (db : Db)
    → IsConsistent db
    → IsConsistent (generate_turf_slots fresh turf date db)
unfolding generate_turf_slots
generate_turf_slots-IsConsistent fresh turf date db c =
    let x =
      create_many-Extends fresh (slots_to_create turf date) db.slots db.slots
        (record { unique = c.slot_numbers; keeps = λ s m. m }) in
    record {
      booking_ids = c.booking_ids;
      booking_slots = c.booking_slots;
      slot_numbers = x.unique;
      held = λ b m a.
          let (s, n, i, t) = slot_booked-IsIn b.slot_id db.slots (c.held b m a) in
          subst (λ k. slot_booked k (generate_turf_slots fresh turf date db).slots ≡ true) i
            (IsIn-slot_booked s (generate_turf_slots fresh turf date db).slots x.unique
              (x.keeps s n) t);
    }

pub cleanup_old_slots-IsConsistent :
    (now : ℕ) (db db' : Db) → cleanup_old_slots now db ≡ ok db' → IsConsistent db → IsConsistent db'
unfolding cleanup_old_slots
cleanup_old_slots-IsConsistent now db db' e c =
    elim (Option-cases
      (find_first (λ (s : Slot). is_old_slot now s && is_referenced db.bookings s) db.slots)) [
        | inr (s, f) ↦ absurd (ground arith)
        | inl f ↦ subst IsConsistent (ground arith) deleted
      ]
  where
    left : List Slot
    left = delete_many (is_old_slot now) db.slots

    unique : IsUnique slot_id left
    unique = delete_many-IsUnique slot_id (is_old_slot now) db.slots c.slot_numbers

    young : (s : Slot) → s.is_booked ≡ true → is_old_slot now s ≡ false
    young s t = ground arith

    deleted : IsConsistent (record db { slots = left })
    deleted = record {
      booking_ids = c.booking_ids;
      booking_slots = c.booking_slots;
      slot_numbers = unique;
      held = λ b m a.
          let (s, n, i, t) = slot_booked-IsIn b.slot_id db.slots (c.held b m a) in
          subst (λ k. slot_booked k left ≡ true) i
            (IsIn-slot_booked s left unique
              (IsIn-delete_many (is_old_slot now) s db.slots n (young s t)) t);
    }
