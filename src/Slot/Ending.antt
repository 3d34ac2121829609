-- ===== src/Slot/Ending.antt =====
-- The slots that are generated, against the test by which a booking is completed.
use turf_sync.Prelude.{
  ℕ, zero, suc, ◌+◌, ◌*◌, ◌%◌, ◌<◌, ◌≡◌, refl, arith, Bool, true, false, ltb, some, none,
  if◌then◌else◌, ◌==◌, ◌&&◌,
}
use turf_sync.TimeText.{hour_of, on_the_hour}
use turf_sync.Date.{start_of_utc_day, set_utc_hours, add_utc_days, ms_per_day, ms_per_hour}
use turf_sync.Slot.{slot_at, new_slot}
use turf_sync.Booking.Complete.{has_ended}

hours_table : ℕ → Bool
hours_table zero = true
hours_table (suc n) = elim (hour_of (on_the_hour n)) [
  | none ↦ false
  | some h ↦ h == n && hours_table n
]

hours_table_holds : hours_table 24 ≡ true
unfolding hours_table hour_of on_the_hour
hours_table_holds = refl

hours_table_sound : (n h : ℕ) → hours_table n ≡ true → h < n → hour_of (on_the_hour h) ≡ some h
unfolding hours_table
hours_table_sound zero h t lt = absurd (omega arith)
hours_table_sound (suc n) h t lt = ground (arith, hours_table_sound n h)

-- An hour that SlotService writes is read back as that hour.
pub hour_of-on_the_hour : (h : ℕ) → h < 24 → hour_of (on_the_hour h) ≡ some h
hour_of-on_the_hour h lt = hours_table_sound 24 h hours_table_holds lt

-- For a slot that starts on a day's midnight plus `hour` hours, of less than 48, as
-- `generateTurfSlots` counts them, the completion test asks whether the slot's last moment has
-- passed, but for a slot that ends at midnight: for that it asks whether the day on which the
-- slot starts has begun.
pub has_ended-slot_at :
    (id turf_id date hour now : ℕ)
    → date % ms_per_day ≡ 0
    → hour < 48
    → has_ended now (new_slot id (slot_at turf_id date hour)) ≡ (
        if hour % 24 == 23
        then ltb (slot_at turf_id date hour).date now
        else ltb (date + (hour + 1) * ms_per_hour) now)
unfolding has_ended set_utc_hours start_of_utc_day add_utc_days
has_ended-slot_at id turf_id date hour now midnight h =
    let e = hour_of-on_the_hour ((hour + 1) % 24) (omega arith) in ground (arith, e)
