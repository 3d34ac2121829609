-- ===== src/Slot.antt =====
-- src/slot/slot.service.ts: SlotService. A database query that fails is not modelled.
pub mod Ending
pub mod Repeat
use turf_sync.Prelude.{
  ℕ, zero, suc, ◌+◌, ◌*◌, ◌-◌, ◌%◌, Bool, true, false, not, ◌&&◌, ◌||◌, Option, none, some, List,
  [], ◌∷◌, leb, ltb, if◌then◌else◌, ◌==◌, is_some,
}
use turf_sync.Table.{find_first, find_many, find_unique, delete_many}
use turf_sync.Schema.{Db, Turf, Slot, Booking, Text}
use turf_sync.Outcome.{Result, ok, err, known_request_error, foreign_key_violation}
use turf_sync.TimeText.{hour_of, on_the_hour, text_eq}
use turf_sync.Date.{start_of_utc_day, add_utc_days}

-- `Prisma.SlotCreateManyInput`
pub record SlotInput : Type 0 where
  pub turf_id : ℕ
  pub date : ℕ
  pub start_time : Text
  pub end_time : Text

-- One round of the loop of `generateTurfSlots`.
abbrev pub slot_at : ℕ → ℕ → ℕ → SlotInput
slot_at turf_id date hour = record {
  turf_id = turf_id;
  date = if leb 24 hour then add_utc_days date 1 else date;
  start_time = on_the_hour (hour % 24);
  end_time = on_the_hour ((hour + 1) % 24);
}

-- `while (currentHour < endHour)`, of `rounds` rounds
unfoldable pub slots_from : ℕ → ℕ → ℕ → ℕ → List SlotInput
slots_from turf_id date hour zero = []
slots_from turf_id date hour (suc rounds) =
    slot_at turf_id date hour ∷ slots_from turf_id date (hour + 1) rounds

-- `if (endHour <= currentHour) endHour += 24;`
abbrev pub adjusted_end : ℕ → ℕ → ℕ
adjusted_end from to = if leb to from then to + 24 else to

-- `slotsToCreate` of `generateTurfSlots`; an hour that does not parse makes no slot.
unfoldable pub slots_to_create : Turf → ℕ → List SlotInput
slots_to_create turf date = elim (hour_of turf.open_time) [
  | none ↦ []
  | some from ↦ elim (hour_of turf.close_time) [
    | none ↦ []
    | some to ↦ slots_from turf.id date from (adjusted_end from to - from)
  ]
]

-- The unique index on turf, date and start time.
abbrev pub same_slot : SlotInput → Slot → Bool
same_slot new s =
    s.turf_id == new.turf_id && (s.date == new.date && text_eq s.start_time new.start_time)

abbrev pub new_slot : ℕ → SlotInput → Slot
new_slot id new = record {
  id = id;
  turf_id = new.turf_id;
  date = new.date;
  start_time = new.start_time;
  end_time = new.end_time;
  is_booked = false;
}

-- A row that `skipDuplicates` passes over: its number or its index entry is taken.
abbrev pub is_duplicate : ℕ → SlotInput → Slot → Bool
is_duplicate id new s = s.id == id || same_slot new s

-- `slot.createMany({ data, skipDuplicates: true })`, where the database numbers the rows by `fresh`
unfoldable pub create_many : (ℕ → ℕ) → List SlotInput → List Slot → List Slot
create_many fresh [] slots = slots
create_many fresh (new ∷ more) slots =
    create_many (λ n. fresh (n + 1)) more
      (if is_some (find_first (is_duplicate (fresh 0) new) slots)
        then slots
        else new_slot (fresh 0) new ∷ slots)

-- `generateTurfSlots`
unfoldable pub generate_turf_slots : (ℕ → ℕ) → Turf → ℕ → Db → Db
generate_turf_slots fresh turf date db = record db {
  slots = create_many fresh (slots_to_create turf date) db.slots;
}

-- `for (const turf of turfs)`; call number `k` takes its numbers from `fresh k`.
unfoldable pub generate_for_turfs : (ℕ → ℕ → ℕ) → List Turf → ℕ → Db → Db
generate_for_turfs fresh [] date db = db
generate_for_turfs fresh (t ∷ ts) date db =
    generate_for_turfs (λ k. fresh (k + 1)) ts date (generate_turf_slots (fresh 0) t date db)

abbrev pub active_turfs : Db → List Turf
active_turfs db = find_many (λ (t : Turf). t.is_active) db.turfs

-- `generateSlotsForDate`
unfoldable pub generate_slots_for_date : (ℕ → ℕ → ℕ) → ℕ → Db → Db
generate_slots_for_date fresh date db = generate_for_turfs fresh (active_turfs db) date db

-- `generateDailySlots`: tomorrow's slots
unfoldable pub generate_daily_slots : (ℕ → ℕ → ℕ) → ℕ → Db → Db
generate_daily_slots fresh now db =
    generate_slots_for_date fresh (start_of_utc_day (add_utc_days now 1)) db

-- The loop of `generateSlotsForNextDays`, from `date` on; day `i` takes its numbers from `fresh i`.
unfoldable pub generate_next_days : (ℕ → ℕ → ℕ → ℕ) → List Turf → ℕ → ℕ → Db → Db
generate_next_days fresh turfs date zero db = db
generate_next_days fresh turfs date (suc days) db =
    generate_next_days (λ i. fresh (i + 1)) turfs (add_utc_days date 1) days
      (generate_for_turfs (fresh 0) turfs date db)

-- `generateSlotsForNextDays`
unfoldable pub generate_slots_for_next_days : (ℕ → ℕ → ℕ → ℕ) → ℕ → ℕ → Db → Db
generate_slots_for_next_days fresh now days db =
    generate_next_days fresh (active_turfs db) (start_of_utc_day now) days db

-- The loop of `generateForTurf` over the days from `date` on.
unfoldable pub generate_days : (ℕ → ℕ → ℕ) → Turf → ℕ → ℕ → Db → Db
generate_days fresh turf date zero db = db
generate_days fresh turf date (suc days) db =
    generate_days (λ k. fresh (k + 1)) turf (add_utc_days date 1) days
      (generate_turf_slots (fresh 0) turf date db)

-- `generateForTurf`; an unknown turf changes nothing.
unfoldable pub generate_for_turf : (ℕ → ℕ → ℕ) → ℕ → ℕ → ℕ → Db → Db
generate_for_turf fresh now turf_id days db =
    elim (find_unique (λ (t : Turf). t.id) turf_id db.turfs) [
      | none ↦ db
      | some turf ↦ generate_days fresh turf (start_of_utc_day now) days db
    ]

-- `date: { lt: thirtyDaysAgo }, isBooked: false`, with the thirty days on the other side
abbrev pub is_old_slot : ℕ → Slot → Bool
is_old_slot now s = ltb (add_utc_days s.date 30) (start_of_utc_day now) && not s.is_booked

-- A slot that a booking of any status refers to, by the foreign key `bookings_slotId_fkey`, which
-- restricts deletion.
abbrev pub is_referenced : List Booking → Slot → Bool
is_referenced bookings s = is_some (find_first (λ (b : Booking). b.slot_id == s.id) bookings)

-- `cleanupOldSlots`
unfoldable pub cleanup_old_slots : ℕ → Db → Result Db
cleanup_old_slots now db =
    if is_some
      (find_first (λ (s : Slot). is_old_slot now s && is_referenced db.bookings s) db.slots)
    then err (known_request_error foreign_key_violation)
    else ok (record db { slots = delete_many (is_old_slot now) db.slots })
