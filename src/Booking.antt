-- ===== src/Booking.antt =====
-- src/booking/booking.service.ts: the transactions of BookingService.
pub mod Cleanup
pub mod Complete
pub mod Create
pub mod Request
pub mod Locking
pub mod Bookable
use turf_sync.Prelude.{
  ℕ, Bool, true, false, not, ◌&&◌, ◌||◌, ◌==◌, if◌then◌else◌, Option, none, some, List, [], ◌∷◌,
  String, is_some,
}
use turf_sync.Table.{find_first, find_many, find_unique, update}
use turf_sync.Schema.{Db, Turf, Slot, Booking, BookingStatus, is_active_status, is_cancelled}
use turf_sync.Outcome.{
  bad_request, not_found, forbidden, conflict, known_request_error, unique_violation, Reason,
  Result, ok, err, ◌>>=◌, ◌>>◌, throw_if, or_throw, Tx,
}

-- The fields of CreateBookingDto that the service reads; `date` is `new Date(dto.date)`.
pub record CreateBookingDto : Type 0 where
  pub turf_id : ℕ
  pub slot_id : ℕ
  pub date : ℕ
  pub notes : Option String
  pub coupon_code : Option (List ℕ)

pub record ValidatedCoupon : Type 0 where
  pub coupon_id : ℕ
  pub original_amount : ℕ
  pub discount : ℕ
  pub final_amount : ℕ

pub record SlotWithTurfDetails : Type 0 where
  pub slot : Slot
  pub turf : Turf

-- `SELECT … FROM slots s JOIN turfs t ON s."turfId" = t.id WHERE s.id = … AND s."turfId" = …`
unfoldable pub select_slot : ℕ → ℕ → Db → Option SlotWithTurfDetails
select_slot slot_id turf_id db =
    elim (find_first (λ (s : Slot). s.id == slot_id && s.turf_id == turf_id) db.slots) [
      | none ↦ none
      | some s ↦ elim (find_unique (λ (t : Turf). t.id) s.turf_id db.turfs) [
        | none ↦ none
        | some t ↦ some (record { slot = s; turf = t })
      ]
    ]

-- `tx.booking.findFirst` in `create`: a booking of this user and slot that is not cancelled
abbrev pub is_own_live : ℕ → ℕ → Booking → Bool
is_own_live user_id slot_id b =
    b.user_id == user_id && (b.slot_id == slot_id && not (is_cancelled b.status))

-- The primary key and the unique index `bookings_slotId_key` refuse a row.
abbrev pub clashes : Booking → Booking → Bool
clashes new b = b.id == new.id || b.slot_id == new.slot_id

-- `tx.booking.create`
unfoldable pub insert_booking : Booking → Tx Booking
insert_booking b db =
    if is_some (find_first (clashes b) db.bookings)
    then err (known_request_error unique_violation)
    else ok (b, record db { bookings = b ∷ db.bookings })

abbrev pub set_booked : Bool → Slot → Slot
set_booked v s = record s { is_booked = v }

abbrev pub set_status : BookingStatus → Booking → Booking
set_status v b = record b { status = v }

-- The row that `create` inserts, at the identifier `id` and the time `now` that the database gives.
abbrev pub new_booking :
    ℕ → ℕ → CreateBookingDto → ℕ → Option ValidatedCoupon → SlotWithTurfDetails → Booking
new_booking id now dto user_id coupon row = record {
  id = id;
  user_id = user_id;
  turf_id = dto.turf_id;
  slot_id = dto.slot_id;
  total_amount = elim coupon [ none ↦ row.turf.price_per_hour | some c ↦ c.final_amount ];
  status = BookingStatus.pending;
  notes = dto.notes;
  created_at = now;
}

-- The transaction of `create`.
unfoldable pub book : ℕ → ℕ → CreateBookingDto → ℕ → Option ValidatedCoupon → Tx Booking
book id now dto user_id coupon db = do
  row ← or_throw (select_slot dto.slot_id dto.turf_id db) (not_found Reason.slot_not_found)
  throw_if (not row.turf.is_active) (bad_request Reason.turf_inactive)
  throw_if row.slot.is_booked (bad_request Reason.slot_already_booked)
  throw_if (is_some (find_first (is_own_live user_id dto.slot_id) db.bookings))
      (conflict Reason.user_already_booked)
  let db' = record db { slots = update (λ (s : Slot). s.id) dto.slot_id (set_booked true) db.slots }
  insert_booking (new_booking id now dto user_id coupon row) db'

-- `tx.booking.findMany`: the other bookings that hold a slot
abbrev pub holds_slot : ℕ → ℕ → Booking → Bool
holds_slot slot_id id b = b.slot_id == slot_id && (is_active_status b.status && not (b.id == id))

-- The end of the transactions of `cancel` and of `refund`: free the slot if no other active booking
-- has it. The foreign key of the booking keeps the slot in its table.
unfoldable pub release_slot : ℕ → ℕ → Db → Db
release_slot slot_id id db = elim (find_many (holds_slot slot_id id) db.bookings) [
  | [] ↦ record db { slots = update (λ (s : Slot). s.id) slot_id (set_booked false) db.slots }
  | _ ↦ db
]

-- The transaction of `cancel`.
unfoldable pub cancel_tx : ℕ → Tx (Unit {0})
cancel_tx id db = do
  b ←
      or_throw (find_unique (λ (b : Booking). b.id) id db.bookings)
        (not_found Reason.booking_not_found)
  throw_if (is_cancelled b.status) (bad_request Reason.already_cancelled)
  let db' = record db {
    bookings = update (λ (b : Booking). b.id) id (set_status BookingStatus.cancelled) db.bookings;
  }
  ok (tt, release_slot b.slot_id id db')

-- What `cancel` checks before its transaction.
unfoldable pub check_cancel : ℕ → ℕ → Db → Result Booking
check_cancel id user_id db = do
  b ←
      or_throw (find_unique (λ (b : Booking). b.id) id db.bookings)
        (not_found Reason.booking_not_found)
  throw_if (not (b.user_id == user_id)) (forbidden Reason.not_your_booking)
  throw_if (is_cancelled b.status) (bad_request Reason.already_cancelled)
  ok b
