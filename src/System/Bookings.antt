-- ===== src/System/Bookings.antt =====
-- The transactions of BookingService keep the invariant.
use turf_sync.Prelude.{
  ℕ, Bool, true, List, ◌≡◌, refl, sym, subst, inl, inr, arith, ◌==◌, ap, ◌∙◌, if◌then◌else◌, IsIn,
  Option-cases, Bool-cases,
}
use turf_sync.Table.{find_unique, update_many, update}
use turf_sync.Table.Laws.{update_many-IsIn}
use turf_sync.Table.Unique.{update_many-IsUnique}
use turf_sync.Schema.{Db, Booking, BookingStatus, is_active_status, is_cancelled}
use turf_sync.Outcome.{ok}
use turf_sync.Booking.{set_status, cancel_tx, release_slot}
use turf_sync.System.Invariant.{slot_booked, IsConsistent}
use turf_sync.System.Slots.{release_slot-IsConsistent}

-- A status update that makes no booking active that was not.
pub update_status-IsConsistent :
    (p : Booking → Bool) (v : BookingStatus) (db : Db)
    → ((b : Booking)
        → IsIn b db.bookings
        → p b ≡ true
        → is_active_status v ≡ true
        → is_active_status b.status ≡ true)
    → IsConsistent db
    → IsConsistent (record db { bookings = update_many p (set_status v) db.bookings })
update_status-IsConsistent p v db calm c = record {
  booking_ids =
      update_many-IsUnique (λ (b : Booking). b.id) p (set_status v) db.bookings (λ x. refl)
        c.booking_ids;
  booking_slots =
      update_many-IsUnique (λ (b : Booking). b.slot_id) p (set_status v) db.bookings (λ x. refl)
        c.booking_slots;
  slot_numbers = c.slot_numbers;
  held =
      λ b m a. let (x, n, e) = update_many-IsIn p (set_status v) b db.bookings m in kept b x n e a;
}
  where
    kept :
        (b x : Booking)
        → IsIn x db.bookings
        → b ≡ (if p x then set_status v x else x)
        → is_active_status b.status ≡ true
        → slot_booked b.slot_id db.slots ≡ true
    kept b x n e a = elim (Bool-cases (p x)) [
      | inl t ↦
          let e' : b ≡ set_status v x = rw (e, t) in
          let live : is_active_status v ≡ true =
            sym (ap (λ (y : Booking). is_active_status y.status) e') ∙ a in
          ap (λ (y : Booking). slot_booked y.slot_id db.slots) e' ∙ c.held x n (calm x n t live)
      | inr f ↦
          let e' : b ≡ x = rw (e, f) in
          subst (λ (y : Booking). slot_booked y.slot_id db.slots ≡ true) (sym e')
            (c.held x n (sym (ap (λ (y : Booking). is_active_status y.status) e') ∙ a))
    ]

-- After the update of one booking's status, that booking has the status.
pub update_status-eq :
    (id : ℕ) (v : BookingStatus) (b : Booking) (bs : List Booking)
    → IsIn b (update (λ (x : Booking). x.id) id (set_status v) bs)
    → b.id ≡ id
    → b.status ≡ v
unfolding update
update_status-eq id v b bs m i =
    let (x, n, e) = update_many-IsIn (λ (y : Booking). y.id == id) (set_status v) b bs m in
    ground arith

pub cancelled-IsConsistent :
    (id : ℕ) (db : Db)
    → IsConsistent db
    → IsConsistent (record db {
      bookings = update (λ (b : Booking). b.id) id (set_status BookingStatus.cancelled) db.bookings;
    })
unfolding update
cancelled-IsConsistent id db c =
    update_status-IsConsistent (λ b. b.id == id) BookingStatus.cancelled db (λ b m t a. cc) c

pub release_cancelled-IsConsistent :
    (slot_id id : ℕ) (db : Db)
    → IsConsistent db
    → IsConsistent (
        release_slot slot_id id (record db {
          bookings =
              update (λ (b : Booking). b.id) id (set_status BookingStatus.cancelled) db.bookings;
        }))
release_cancelled-IsConsistent slot_id id db c =
    release_slot-IsConsistent slot_id id _
      (λ b m i. ap is_active_status (update_status-eq id BookingStatus.cancelled b db.bookings m i))
      (cancelled-IsConsistent id db c)

pub cancel_tx-IsConsistent :
    (id : ℕ) (db db' : Db) → cancel_tx id db ≡ ok (tt, db') → IsConsistent db → IsConsistent db'
unfolding cancel_tx
cancel_tx-IsConsistent id db db' e c =
    elim (Option-cases (find_unique (λ (b : Booking). b.id) id db.bookings)) [
      | inl n ↦ absurd (ground arith)
      | inr (b, f) ↦ elim (Bool-cases (is_cancelled b.status)) [
        | inl t ↦ absurd (ground arith)
        | inr t ↦
            subst IsConsistent (ground arith) (release_cancelled-IsConsistent b.slot_id id db c)
      ]
    ]
