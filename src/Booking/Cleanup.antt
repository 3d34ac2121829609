-- ===== src/Booking/Cleanup.antt =====
-- src/booking/booking.service.ts: `cleanupStalePendingBookings`.
use turf_sync.Prelude.{ℕ, ◌+◌, Bool, false, not, ◌&&◌, List, [], ◌∷◌, map, includes, ltb, ◌*◌, ◌==◌}
use turf_sync.Table.{find_many, update_many}
use turf_sync.Schema.{Db, Slot, Booking, BookingStatus, is_active_status, is_pending}
use turf_sync.Booking.Request.{Effect, invalidated}
use turf_sync.Booking.{set_booked, set_status}

abbrev pub fifteen_minutes : ℕ
fifteen_minutes = 15 * 60 * 1000

-- `status: PENDING, createdAt: { lt: fifteenMinutesAgo }`
abbrev pub is_stale : ℕ → Booking → Bool
is_stale now b = is_pending b.status && ltb (b.created_at + fifteen_minutes) now

abbrev pub ids : List Booking → List ℕ
ids = map (λ b. b.id)

abbrev pub slot_ids : List Booking → List ℕ
slot_ids = map (λ b. b.slot_id)

-- `SELECT … WHERE id = ANY(candidateIds) AND status = 'PENDING' FOR UPDATE`
abbrev pub is_candidate : List ℕ → Booking → Bool
is_candidate candidate_ids b = includes b.id candidate_ids && is_pending b.status

-- The other active bookings of the slots of the cancelled ones.
abbrev pub still_holds : List ℕ → List ℕ → Booking → Bool
still_holds slots stale_ids b =
    includes b.slot_id slots && (is_active_status b.status && not (includes b.id stale_ids))

-- `slotIds.filter((id) => !slotsWithActiveBookings.has(id))`
abbrev pub slots_to_release : List ℕ → List Booking → List ℕ
slots_to_release slots active = find_many (λ id. not (includes id (slot_ids active))) slots

-- `if (slotsToRelease.length > 0) await tx.slot.updateMany(…)`
unfoldable pub release_slots : List ℕ → Db → Db
release_slots [] db = db
release_slots (id ∷ more) db = record db {
  slots = update_many (λ (s : Slot). includes s.id (id ∷ more)) (set_booked false) db.slots;
}

-- The part of the transaction behind the test that there is a stale booking.
unfoldable pub cancel_stale : List Booking → Db → Db
cancel_stale stale db =
    let db' = record db {
      bookings =
          update_many (is_candidate (ids stale)) (set_status BookingStatus.cancelled) db.bookings;
    } in
    let active = find_many (still_holds (slot_ids stale) (ids stale)) db'.bookings in
    release_slots (slots_to_release (slot_ids stale) active) db'

-- The transaction, which returns the bookings that it cancelled.
unfoldable pub cleanup_tx : List ℕ → Db → List Booking × Db
cleanup_tx candidate_ids db = elim (find_many (is_candidate candidate_ids) db.bookings) [
  | [] ↦ ([], db)
  | b ∷ more ↦ (b ∷ more, cancel_stale (b ∷ more) db)
]

-- The job, up to the cache.
unfoldable pub cleanup_stale_pending_bookings : ℕ → Db → List Booking × Db
cleanup_stale_pending_bookings now db = elim (find_many (is_stale now) db.bookings) [
  | [] ↦ ([], db)
  | b ∷ more ↦ cleanup_tx (ids (b ∷ more)) db
]

-- `Array.from(new Set(xs))`
unfoldable pub distinct : List ℕ → List ℕ
distinct [] = []
distinct (x ∷ xs) = x ∷ find_many (λ y. not (y == x)) (distinct xs)

-- The whole job, with the turfs whose cached slots it deletes.
unfoldable pub cleanup_job : ℕ → Db → List Effect × Db
unfolding cleanup_stale_pending_bookings distinct
cleanup_job now db =
    let (cancelled, db') = cleanup_stale_pending_bookings now db in
    (map invalidated (distinct (map (λ (b : Booking). b.turf_id) cancelled)), db')
