-- ===== src/Booking/Create.antt =====
-- The transaction of `BookingService.create`, branch by branch.
use turf_sync.Prelude.{
  ℕ, true, false, ◌&&◌, ◌==◌, Option, some, none, ◌∷◌, ◌≡◌, subst, inl, inr, arith, IsIn,
  Option-cases,
}
use turf_sync.Table.{find_first, find_unique, update}
use turf_sync.Table.Laws.{find_first-eq-some}
use turf_sync.Table.Unique.{find_unique-eq-some}
use turf_sync.Schema.{Db, Turf, Slot, Booking}
use turf_sync.Outcome.{ok}
use turf_sync.Booking.{
  CreateBookingDto, ValidatedCoupon, SlotWithTurfDetails, select_slot, is_own_live, clashes,
  insert_booking, set_booked, new_booking, book,
}

-- A selected row is a slot of the table, with the turf that it belongs to.
pub select_slot-eq-some :
    (slot_id turf_id : ℕ) (db : Db) (row : SlotWithTurfDetails)
    → select_slot slot_id turf_id db ≡ some row
    → IsIn row.slot db.slots
      × (row.slot.id ≡ slot_id)
      × (row.slot.turf_id ≡ turf_id)
      × IsIn row.turf db.turfs
      × (row.turf.id ≡ turf_id)
unfolding select_slot
select_slot-eq-some slot_id turf_id db row e =
    let p = λ (s : Slot). s.id == slot_id && s.turf_id == turf_id in
    elim (Option-cases (find_first p db.slots)) [
      | inl n ↦ ground arith
      | inr (s, f) ↦ elim (Option-cases (find_unique (λ (t : Turf). t.id) s.turf_id db.turfs)) [
        | inl n ↦ ground arith
        | inr (t, g) ↦
            let (m, h) = find_first-eq-some p s db.slots f in
            let (k, i) = find_unique-eq-some (λ (t : Turf). t.id) s.turf_id t db.turfs g in
            let r : record { slot = s; turf = t } ≡ row = ground arith in
            subst
              (λ (w : SlotWithTurfDetails).
                IsIn w.slot db.slots
                × (w.slot.id ≡ slot_id)
                × (w.slot.turf_id ≡ turf_id)
                × IsIn w.turf db.turfs
                × (w.turf.id ≡ turf_id))
              r (m, ground arith, ground arith, k, ground arith)
      ]
    ]

module _ (id now : ℕ) (dto : CreateBookingDto) (user_id : ℕ) (coupon : Option ValidatedCoupon)
    (db : Db) where
  -- What a booking that goes through has passed, and what it wrote.
  pub record IsBooked (b : Booking) (db' : Db) : Type 0 where
    pub row : SlotWithTurfDetails
    pub selected : select_slot dto.slot_id dto.turf_id db ≡ some row
    pub active : row.turf.is_active ≡ true
    pub free : row.slot.is_booked ≡ false
    pub not_own : find_first (is_own_live user_id dto.slot_id) db.bookings ≡ none
    pub no_clash :
        find_first (clashes (new_booking id now dto user_id coupon row)) db.bookings ≡ none
    pub booked : b ≡ new_booking id now dto user_id coupon row
    pub written : db' ≡ record db {
      slots = update (λ (s : Slot). s.id) dto.slot_id (set_booked true) db.slots;
      bookings = new_booking id now dto user_id coupon row ∷ db.bookings;
    }

  pub book-eq-ok :
      (b : Booking) (db' : Db) → book id now dto user_id coupon db ≡ ok (b, db') → IsBooked b db'
  unfolding book insert_booking
  book-eq-ok b db' e = elim (Option-cases (select_slot dto.slot_id dto.turf_id db)) [
    | inl n ↦ ground arith
    | inr (row, s) ↦
        elim (Option-cases (find_first (is_own_live user_id dto.slot_id) db.bookings)) [
          | inr (o, h) ↦ ground arith
          | inl h ↦
              elim (Option-cases
                (find_first (clashes (new_booking id now dto user_id coupon row)) db.bookings)) [
                  | inr (o, g) ↦ ground arith
                  | inl g ↦ record {
                    row = row;
                    selected = s;
                    active = ground arith;
                    free = ground arith;
                    not_own = h;
                    no_clash = g;
                    booked = ground arith;
                    written = ground arith;
                  }
                ]
        ]
  ]
