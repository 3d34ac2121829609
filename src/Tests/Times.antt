-- ===== src/Tests/Times.antt =====
-- The last slot of a day, a day's slots generated twice, the pages of a short list, and a month
-- added to the last day of January.
use turf_sync.Prelude.{
  IsIn, inl, inr, ap, ◌≢◌, ℕ, ◌≡◌, ◌*◌, ◌+◌, ◌%◌, ◌≤◌, ◌-◌, min, refl, arith, true, List, [], ◌∷◌,
  some,
}
use turf_sync.Date.{ms_per_day}
use turf_sync.Date.Months.{
  add_utc_months, sub_utc_months, at_month, start_of_utc_month, month_day, month_day_from,
  month_length, month_start, utc_month_day, date_at,
}
use turf_sync.Date.Calendar.{add_utc_months_lem}
use turf_sync.Booking.Complete.{has_ended}
use turf_sync.Slot.{slot_at, new_slot}
use turf_sync.Slot.Ending.{has_ended-slot_at}
use turf_sync.Slot.{generate_turf_slots, slots_to_create}
use turf_sync.Slot.Repeat.{IsFresh, IsCovered, generate_repeated}
use turf_sync.Schema.{Slot}
use turf_sync.Tests.Data.{turf, open_db}
use turf_sync.Pagination.{paginate}
use turf_sync.Pagination.Pages.{first_pages, first_pages-total_pages}

-- The slot from 23:00 to midnight counts as ended a millisecond into its day.
has_ended-slot_at_example :
    has_ended (2 * ms_per_day + 1) (new_slot 11 (slot_at 1 (2 * ms_per_day) 23)) ≡ true
has_ended-slot_at_example =
    has_ended-slot_at 11 1 (2 * ms_per_day) 23 (2 * ms_per_day + 1) refl (omega arith)

abbrev rows : List ℕ
rows = 5 ∷ 6 ∷ 7 ∷ 8 ∷ 9 ∷ []

three_pages : (paginate (record { page = some 3; limit = some 2 }) rows).items ≡ 9 ∷ []
unfolding paginate
three_pages = refl

first_pages-total_pages_example :
    first_pages 2 (paginate (record { page = some 1; limit = some 2 }) rows).total_pages rows ≡ rows
first_pages-total_pages_example = first_pages-total_pages 2 rows (omega arith)

hundreds : (s : Slot) → IsIn s open_db.slots → (n : ℕ) → s.id ≢ n + 100
hundreds s (inl e) n = λ h. let k = ap (λ (x : Slot). x.id) e in omega arith
hundreds s (inr (inl e)) n = λ h. let k = ap (λ (x : Slot). x.id) e in omega arith
hundreds s (inr (inr m)) n = absurd m

hundreds-IsFresh : IsFresh (λ n. n + 100) open_db.slots
hundreds-IsFresh = record { distinct = λ m n h. omega arith; unused = hundreds }

generate_repeated_example :
    let db' = generate_turf_slots (λ n. n + 100) turf ms_per_day open_db in
    ((s : Slot) → IsIn s open_db.slots → IsIn s db'.slots)
    × IsCovered (slots_to_create turf ms_per_day) db'.slots
    × (generate_turf_slots (λ n. n + 200) turf ms_per_day db' ≡ db')
generate_repeated_example =
    generate_repeated (λ n. n + 100) (λ n. n + 200) turf ms_per_day open_db hundreds-IsFresh

-- A moment of 31 January 1970, and what is a month later.
abbrev january_end : ℕ
january_end = 30 * ms_per_day + 5

february_end : add_utc_months january_end 1 ≡ 58 * ms_per_day + 5
unfolding add_utc_months at_month month_day month_day_from month_length month_start
february_end = refl

add_utc_months_lem_example :
    (date_at
        (utc_month_day january_end).month
        (utc_month_day january_end).day
        (january_end % ms_per_day)
      ≡ january_end)
    × (start_of_utc_month january_end ≤ january_end)
    × ((utc_month_day (start_of_utc_month january_end)).month ≡ (utc_month_day january_end).month)
    × ((utc_month_day (start_of_utc_month january_end)).day ≡ 0)
    × (start_of_utc_month january_end % ms_per_day ≡ 0)
    × ((utc_month_day (add_utc_months january_end 1)).month ≡ (utc_month_day january_end).month + 1)
    × ((utc_month_day (add_utc_months january_end 1)).day
        ≡ min
            (utc_month_day january_end).day
            (month_length ((utc_month_day january_end).month + 1) - 1))
    × (add_utc_months january_end 1 % ms_per_day ≡ january_end % ms_per_day)
    × (sub_utc_months (add_utc_months (start_of_utc_month january_end) 1) 1
        ≡ start_of_utc_month january_end)
add_utc_months_lem_example = add_utc_months_lem january_end 1
