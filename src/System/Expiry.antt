-- ===== src/System/Expiry.antt =====
-- What `cleanupStalePendingBookings` does to each booking and its slot.
use turf_sync.Prelude.{
  ℕ, ◌≡◌, refl, sym, ap, ◌∙◌, subst, inl, inr, arith, Bool, true, false, not, List, [], ◌∷◌, IsIn,
  includes, Bool-cases, List-cases, if◌then◌else◌, ◌==◌, some, Option-cases,
}
use turf_sync.Table.{find_many, find_unique, update_many}
use turf_sync.Table.Laws.{IsIn-find_many, find_many-IsIn, find_many-eq-nil, update_many-IsIn}
use turf_sync.Table.Unique.{
  IsUnique, IsUnique-eq, find_unique-IsIn, find_unique-eq-some, find_unique-update_many,
}
use turf_sync.Schema.{Db, Slot, Booking, BookingStatus, is_pending}
use turf_sync.Booking.{set_booked, set_status}
use turf_sync.Booking.Cleanup.{
  is_stale, ids, slot_ids, is_candidate, still_holds, slots_to_release, release_slots, cancel_stale,
  cleanup_tx, cleanup_stale_pending_bookings,
}
use turf_sync.Payment.Effects.{booking_at}
use turf_sync.System.Invariant.{IsConsistent, slot_booked}
use turf_sync.System.Cleanup.{includes-ids, includes-slot_ids}
use turf_sync.System.History.{release_slots-bookings}

-- A number among those of some bookings is that of one of them.
includes-ids-IsIn :
    (n : ℕ) (bs : List Booking)
    → includes n (ids bs) ≡ true
    → (b : Booking) × IsIn b bs × (b.id ≡ n)
includes-ids-IsIn n [] e = cc
includes-ids-IsIn n (b ∷ bs) e = elim (Bool-cases (n == b.id)) [
  | inl t ↦ (b, inl refl, ground arith)
  | inr f ↦ let (x, m, i) = includes-ids-IsIn n bs (ground arith) in (x, inr m, i)
]

includes-slot_ids-IsIn :
    (n : ℕ) (bs : List Booking)
    → includes n (slot_ids bs) ≡ true
    → (b : Booking) × IsIn b bs × (b.slot_id ≡ n)
includes-slot_ids-IsIn n [] e = cc
includes-slot_ids-IsIn n (b ∷ bs) e = elim (Bool-cases (n == b.slot_id)) [
  | inl t ↦ (b, inl refl, ground arith)
  | inr f ↦ let (x, m, i) = includes-slot_ids-IsIn n bs (ground arith) in (x, inr m, i)
]

includes-find_many-true :
    (p : ℕ → Bool) (n : ℕ) (xs : List ℕ)
    → includes n xs ≡ true
    → p n ≡ true
    → includes n (find_many p xs) ≡ true
unfolding find_many
includes-find_many-true p n [] h t = cc
includes-find_many-true p n (x ∷ xs) h t = ground (arith, includes-find_many-true p n xs)

-- The bookings that a query for pending ones picks are the candidates of their numbers.
picked :
    (p : Booking → Bool) (b : Booking) (bs : List Booking)
    → IsUnique (λ (x : Booking). x.id) bs
    → (p b ≡ true → is_pending b.status ≡ true)
    → IsIn b bs
    → is_candidate (ids (find_many p bs)) b ≡ p b
picked p b bs u pending m = elim (Bool-cases (p b)) [
  | inl t ↦
      let i = includes-ids b (find_many p bs) (IsIn-find_many p b bs m t) in
      let s = pending t in ground arith
  | inr f ↦ elim (Bool-cases (is_candidate (ids (find_many p bs)) b)) [
    | inr n ↦ n ∙ sym f
    | inl c ↦
        let (x, k, e) = includes-ids-IsIn b.id (find_many p bs) (ground arith) in
        let (k', t) = find_many-IsIn p x bs k in
        let same = IsUnique-eq (λ (x : Booking). x.id) x b bs u k' m e in absurd (ground arith)
  ]
]

-- A slot whose number is released is free.
slot_booked-release_slots :
    (id : ℕ) (xs : List ℕ) (db : Db)
    → includes id xs ≡ true
    → slot_booked id (release_slots xs db).slots ≡ false
unfolding slot_booked release_slots
slot_booked-release_slots id [] db h = cc
slot_booked-release_slots id (x ∷ xs) db h =
    let e =
      find_unique-update_many (λ (s : Slot). s.id) (λ s. includes s.id (x ∷ xs)) (set_booked false)
        id db.slots (λ s. refl) in
    elim (Option-cases (find_unique (λ (s : Slot). s.id) id db.slots)) [
      | inl n ↦ ground arith
      | inr (s, f) ↦
          let (m, i) = find_unique-eq-some (λ (s : Slot). s.id) id s db.slots f in
          let t : includes s.id (x ∷ xs) ≡ true = ap (λ n. includes n (x ∷ xs)) i ∙ h in
          ground arith
    ]

-- The booking after the job.
abbrev pub expired : ℕ → Booking → Booking
expired now b = if is_stale now b then set_status BookingStatus.cancelled b else b

module _ (now : ℕ) (db : Db) (c : IsConsistent db) (b : Booking) (m : IsIn b db.bookings) where
  -- An update of the stale bookings, seen at one booking.
  at_update :
      (p : Booking → Bool)
      → p b ≡ is_stale now b
      → find_unique
          (λ (x : Booking). x.id)
          b.id
          (update_many p (set_status BookingStatus.cancelled) db.bookings)
        ≡ some (expired now b)
  at_update p e =
      let f = find_unique-IsIn (λ (x : Booking). x.id) b db.bookings c.booking_ids m in
      let g =
        find_unique-update_many (λ (x : Booking). x.id) p (set_status BookingStatus.cancelled) b.id
          db.bookings (λ x. refl) in
      rw (f, e) at g

  kept : is_stale now b ≡ false → booking_at b.id db ≡ some (expired now b)
  kept n = rw n (find_unique-IsIn (λ (x : Booking). x.id) b db.bookings c.booking_ids m)

  -- The slot of a stale booking is among the released ones: no other booking has it.
  stale_slot_released :
      (stale : List Booking) (db' : Db)
      → db'.bookings
        ≡ update_many (is_candidate (ids stale)) (set_status BookingStatus.cancelled) db.bookings
      → IsIn b stale
      → is_candidate (ids stale) b ≡ true
      → includes b.slot_id (
          slots_to_release
            (slot_ids stale)
            (find_many (still_holds (slot_ids stale) (ids stale)) db'.bookings))
        ≡ true
  stale_slot_released stale db' e k t =
      let active = find_many (still_holds (slot_ids stale) (ids stale)) db'.bookings in
      let free : includes b.slot_id (slot_ids active) ≡ false =
        elim (Bool-cases (includes b.slot_id (slot_ids active))) [
          | inr f ↦ f
          | inl h ↦
              let p = is_candidate (ids stale) in
              let (x, n, i) = includes-slot_ids-IsIn b.slot_id active h in
              let (n', held) =
                find_many-IsIn (still_holds (slot_ids stale) (ids stale)) x db'.bookings n in
              let (y, o, f) =
                update_many-IsIn p (set_status BookingStatus.cancelled) x db.bookings
                  (subst (IsIn x) e n') in
              let same_slot : y.slot_id ≡ b.slot_id = ground (arith, f, i) in
              let same =
                IsUnique-eq (λ (z : Booking). z.slot_id) y b db.bookings c.booking_slots o m
                  same_slot in
              absurd (ground arith)
        ] in
      includes-find_many-true (λ id. not (includes id (slot_ids active))) b.slot_id (slot_ids stale)
        (includes-slot_ids b stale k) (rw free)

  cancel_stale_booking :
      (stale : List Booking)
      → is_candidate (ids stale) b ≡ is_stale now b
      → booking_at b.id (cancel_stale stale db) ≡ some (expired now b)
  unfolding cancel_stale
  cancel_stale_booking stale e =
      ap (λ bs. find_unique (λ (x : Booking). x.id) b.id bs) (release_slots-bookings _ _)
      ∙ at_update (is_candidate (ids stale)) e

  cancel_stale_slot :
      (stale : List Booking)
      → IsIn b stale
      → is_candidate (ids stale) b ≡ true
      → slot_booked b.slot_id (cancel_stale stale db).slots ≡ false
  unfolding cancel_stale
  cancel_stale_slot stale k t =
      let db' = record db {
        bookings =
            update_many (is_candidate (ids stale)) (set_status BookingStatus.cancelled) db.bookings;
      } in
      slot_booked-release_slots b.slot_id _ db' (stale_slot_released stale db' refl k t)

  -- The transaction, on numbers among which that of the booking is if it is stale.
  cleanup_tx_effect :
      (candidate_ids : List ℕ)
      → is_candidate candidate_ids b ≡ is_stale now b
      → (booking_at b.id (cleanup_tx candidate_ids db).1 ≡ some (expired now b))
        × (is_stale now b ≡ true
            → slot_booked b.slot_id (cleanup_tx candidate_ids db).1.slots ≡ false)
  unfolding cleanup_tx
  cleanup_tx_effect candidate_ids e =
      elim (List-cases (find_many (is_candidate candidate_ids) db.bookings)) [
        | inl n ↦
            let f = find_many-eq-nil (is_candidate candidate_ids) b db.bookings n m in
            (rw (n, cleanup_tx) (kept (sym e ∙ f)), λ t. absurd (ground arith))
        | inr (b0, more, n) ↦
            let stale = b0 ∷ more in
            let again : is_candidate (ids stale) b ≡ is_candidate candidate_ids b =
              subst (λ bs. is_candidate (ids bs) b ≡ is_candidate candidate_ids b) n
                (picked (is_candidate candidate_ids) b db.bookings c.booking_ids (λ t. ground arith)
                  m) in
            (
              rw (n, cleanup_tx) (cancel_stale_booking stale (again ∙ e)),
              λ t.
                  rw (n, cleanup_tx)
                    (cancel_stale_slot stale
                      (subst (IsIn b) n
                        (IsIn-find_many (is_candidate candidate_ids) b db.bookings m (e ∙ t)))
                      (again ∙ e ∙ t)),
            )
      ]

-- The job, on consistent tables, cancels each booking that has been pending for more than fifteen
-- minutes and frees its slot, and leaves every other booking as it was.
pub cleanup_effect :
    (now : ℕ) (db : Db) (b : Booking)
    → IsConsistent db
    → IsIn b db.bookings
    → (booking_at b.id (cleanup_stale_pending_bookings now db).1 ≡ some (expired now b))
      × (is_stale now b ≡ true
          → slot_booked b.slot_id (cleanup_stale_pending_bookings now db).1.slots ≡ false)
unfolding cleanup_stale_pending_bookings
cleanup_effect now db b c m = elim (List-cases (find_many (is_stale now) db.bookings)) [
  | inl n ↦
      let f = find_many-eq-nil (is_stale now) b db.bookings n m in
      (rw (n, cleanup_stale_pending_bookings) (kept now db c b m f), λ t. absurd (ground arith))
  | inr (b0, more, n) ↦
      let e : is_candidate (ids (b0 ∷ more)) b ≡ is_stale now b =
        subst (λ bs. is_candidate (ids bs) b ≡ is_stale now b) n
          (picked (is_stale now) b db.bookings c.booking_ids (λ t. ground arith) m) in
      let (x, y) = cleanup_tx_effect now db c b m (ids (b0 ∷ more)) e in
      (rw (n, cleanup_stale_pending_bookings) x, λ t. rw (n, cleanup_stale_pending_bookings) (y t))
]
