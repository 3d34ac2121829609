-- ===== src/System/Creation.antt =====
-- The transaction that makes a booking keeps the invariant.
use turf_sync.Prelude.{
  ℕ, true, some, none, List, ◌∷◌, ◌≡◌, ◌≢◌, refl, sym, subst, inl, inr, arith, ◌==◌, IsIn, Option,
}
use turf_sync.Table.{find_unique, find_first, update}
use turf_sync.Table.Laws.{find_first-eq-none}
use turf_sync.Table.Unique.{find_unique-IsIn, update_many-IsUnique}
use turf_sync.Schema.{Db, Slot, Booking, is_active_status}
use turf_sync.Outcome.{ok}
use turf_sync.Booking.{CreateBookingDto, ValidatedCoupon, set_booked, new_booking, clashes, book}
use turf_sync.Booking.Create.{book-eq-ok, select_slot-eq-some}
use turf_sync.System.Invariant.{slot_booked, IsConsistent}
use turf_sync.System.Slots.{slot_booked-set_true, slot_booked-set_self}

-- A row that passes the unique indexes has a number and a slot of its own.
no_clash_fresh :
    (new b : Booking) (bs : List Booking)
    → find_first (clashes new) bs ≡ none
    → IsIn b bs
    → (b.id ≢ new.id) × (b.slot_id ≢ new.slot_id)
no_clash_fresh new b bs e m =
    let f = find_first-eq-none (clashes new) b bs e m in (ground arith, ground arith)

module _ (db : Db) (c : IsConsistent db) (new : Booking) (s : Slot) where
  inserted-IsConsistent :
      find_first (clashes new) db.bookings ≡ none
      → IsIn s db.slots
      → s.id ≡ new.slot_id
      → IsConsistent (record db {
        slots = update (λ (s : Slot). s.id) new.slot_id (set_booked true) db.slots;
        bookings = new ∷ db.bookings;
      })
  unfolding update
  inserted-IsConsistent free m i = record {
    booking_ids = (λ b n. (no_clash_fresh new b db.bookings free n).0, c.booking_ids);
    booking_slots = (λ b n. (no_clash_fresh new b db.bookings free n).1, c.booking_slots);
    slot_numbers =
        update_many-IsUnique (λ (s : Slot). s.id) (λ s. s.id == new.slot_id) (set_booked true)
          db.slots (λ x. refl) c.slot_numbers;
    held = holds;
  }
    where
      found : find_unique (λ (s : Slot). s.id) new.slot_id db.slots ≡ some s
      found =
          subst (λ k. find_unique (λ (s : Slot). s.id) k db.slots ≡ some s) i
            (find_unique-IsIn (λ (s : Slot). s.id) s db.slots c.slot_numbers m)

      holds :
          (b : Booking)
          → IsIn b (new ∷ db.bookings)
          → is_active_status b.status ≡ true
          → slot_booked b.slot_id
              (update (λ (s : Slot). s.id) new.slot_id (set_booked true) db.slots)
            ≡ true
      holds b (inl e) a =
          subst
            (λ (y : Booking).
              slot_booked y.slot_id
                (update (λ (s : Slot). s.id) new.slot_id (set_booked true) db.slots)
              ≡ true)
            e (slot_booked-set_self new.slot_id db.slots s found i)
      holds b (inr n) a = slot_booked-set_true b.slot_id db.slots new.slot_id (c.held b n a)

pub book-IsConsistent :
    (id now : ℕ) (dto : CreateBookingDto) (user_id : ℕ) (coupon : Option ValidatedCoupon)
    (b : Booking) (db db' : Db)
    → book id now dto user_id coupon db ≡ ok (b, db')
    → IsConsistent db
    → IsConsistent db'
book-IsConsistent id now dto user_id coupon b db db' e c =
    let done = book-eq-ok id now dto user_id coupon db b db' e in
    let (m, i, _, _, _) = select_slot-eq-some dto.slot_id dto.turf_id db done.row done.selected in
    subst IsConsistent (sym done.written) (
      inserted-IsConsistent db c (new_booking id now dto user_id coupon done.row) done.row.slot
        done.no_clash m i)
