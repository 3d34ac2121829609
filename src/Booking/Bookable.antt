-- ===== src/Booking/Bookable.antt =====
-- When the transaction of `create` goes through.
use turf_sync.Prelude.{
  ℕ, ◌≡◌, ◌≢◌, ◌↔◌, sym, ap, ◌∙◌, subst, inl, inr, arith, Bool, true, false, ◌&&◌, ◌==◌, Option,
  none, some, List, IsIn, Option-cases,
}
use turf_sync.Table.{find_first, find_unique}
use turf_sync.Table.Laws.{find_first-eq-some, find_first-eq-none}
use turf_sync.Table.Unique.{IsUnique, IsUnique-eq, find_unique-IsIn}
use turf_sync.Schema.{Db, Turf, Slot, Booking}
use turf_sync.Outcome.{is_ok, Result-cases}
use turf_sync.Booking.{
  CreateBookingDto, ValidatedCoupon, SlotWithTurfDetails, select_slot, is_own_live, clashes,
  insert_booking, new_booking, book,
}
use turf_sync.Booking.Create.{book-eq-ok, select_slot-eq-some}

-- A slot that can be booked: it is in the table, free, on the turf of the request, which is active;
-- and no booking of any status, by any user, has the slot or the new number.
pub record IsBookable (id slot_id turf_id : ℕ) (db : Db) : Type 0 where
  pub slot : Slot
  pub turf : Turf
  pub slot_in : IsIn slot db.slots
  pub turf_in : IsIn turf db.turfs
  pub of_slot : slot.id ≡ slot_id
  pub of_turf : slot.turf_id ≡ turf_id
  pub turf_of : turf.id ≡ turf_id
  pub free : slot.is_booked ≡ false
  pub active : turf.is_active ≡ true
  pub fresh : (b : Booking) → IsIn b db.bookings → b.id ≢ id
  pub unused : (b : Booking) → IsIn b db.bookings → b.slot_id ≢ slot_id

-- A search that every row fails finds nothing.
find_first-none :
    (p : Booking → Bool) (bs : List Booking)
    → ((b : Booking) → IsIn b bs → p b ≡ false)
    → find_first p bs ≡ none
find_first-none p bs h = elim (Option-cases (find_first p bs)) [
  | inl e ↦ e
  | inr (b, e) ↦ let (m, t) = find_first-eq-some p b bs e in absurd (let f = h b m in ground arith)
]

module _ (id now : ℕ) (dto : CreateBookingDto) (user_id : ℕ) (coupon : Option ValidatedCoupon)
    (db : Db) (turfs : IsUnique (λ (t : Turf). t.id) db.turfs)
    (slots : IsUnique (λ (s : Slot). s.id) db.slots) where
  select_bookable :
      (k : IsBookable id dto.slot_id dto.turf_id db)
      → select_slot dto.slot_id dto.turf_id db ≡ some (record { slot = k.slot; turf = k.turf })
  unfolding select_slot
  select_bookable k =
      let p = λ (s : Slot). s.id == dto.slot_id && s.turf_id == dto.turf_id in
      elim (Option-cases (find_first p db.slots)) [
        | inl e ↦
            let f = find_first-eq-none p k.slot db.slots e k.slot_in in
            let i = k.of_slot in let j = k.of_turf in absurd (ground arith)
        | inr (s, e) ↦
            let (m, t) = find_first-eq-some p s db.slots e in
            let same : s ≡ k.slot =
              IsUnique-eq (λ (s : Slot). s.id) s k.slot db.slots slots m k.slot_in
                (ground (arith, k.of_slot)) in
            let g = find_unique-IsIn (λ (t : Turf). t.id) k.turf db.turfs turfs k.turf_in in
            let i : k.turf.id ≡ s.turf_id =
              k.turf_of ∙ sym k.of_turf ∙ ap (λ (x : Slot). x.turf_id) (sym same) in
            let g' : find_unique (λ (t : Turf). t.id) s.turf_id db.turfs ≡ some k.turf =
              subst (λ n. find_unique (λ (t : Turf). t.id) n db.turfs ≡ some k.turf) i g in
            rw (e, select_slot)
              (rw g' (ap (λ (x : Slot). some (record { slot = x; turf = k.turf })) same))
      ]

  -- With the numbers of turfs and slots distinct, the transaction goes through exactly if the slot
  -- is there, free and of an active turf, and no booking of any status has it or the new number.
  -- The date of the request and that of the slot play no part.
  pub book_iff :
      (is_ok (book id now dto user_id coupon db) ≡ true) ↔ IsBookable id dto.slot_id dto.turf_id db
  unfolding book insert_booking
  book_iff = (forward, backward)
    where
      from_clash :
          (row : SlotWithTurfDetails) (b : Booking)
          → clashes (new_booking id now dto user_id coupon row) b ≡ false
          → (b.id ≢ id) × (b.slot_id ≢ dto.slot_id)
      from_clash row b f = (ground arith, ground arith)

      forward :
          is_ok (book id now dto user_id coupon db) ≡ true
          → IsBookable id dto.slot_id dto.turf_id db
      forward t = elim (Result-cases (book id now dto user_id coupon db)) [
        | inr (x, e) ↦ absurd (ground arith)
        | inl ((b, db'), e) ↦
            let done = book-eq-ok id now dto user_id coupon db b db' e in
            let (m, i, j, n, k) =
              select_slot-eq-some dto.slot_id dto.turf_id db done.row done.selected in
            record {
              slot = done.row.slot;
              turf = done.row.turf;
              slot_in = m;
              turf_in = n;
              of_slot = i;
              of_turf = j;
              turf_of = k;
              free = done.free;
              active = done.active;
              fresh = λ c h.
                  (from_clash done.row c (find_first-eq-none _ c db.bookings done.no_clash h)).0;
              unused = λ c h.
                  (from_clash done.row c (find_first-eq-none _ c db.bookings done.no_clash h)).1;
            }
      ]

      backward :
          IsBookable id dto.slot_id dto.turf_id db
          → is_ok (book id now dto user_id coupon db) ≡ true
      backward k =
          let row : SlotWithTurfDetails = record { slot = k.slot; turf = k.turf } in
          let e = select_bookable k in
          let own =
            find_first-none (is_own_live user_id dto.slot_id) db.bookings
              (λ b m. let u = k.unused b m in ground arith) in
          let clear =
            find_first-none (clashes (new_booking id now dto user_id coupon row)) db.bookings
              (λ b m. let u = k.unused b m in let f = k.fresh b m in ground arith) in
          let a = k.active in let f = k.free in ground arith
