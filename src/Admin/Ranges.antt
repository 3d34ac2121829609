-- ===== src/Admin/Ranges.antt =====
-- src/admin/admin.service.ts: what the filters and the reports of AdminService select.
use turf_sync.Prelude.{
  ℕ, ◌≤◌, ◌≡◌, ◌↔◌, refl, arith, Bool, true, ◌&&◌, Option, some, List, leb, IsIn,
}
use turf_sync.Table.{find_many}
use turf_sync.Table.Laws.{find_many-IsIn, IsIn-find_many}
use turf_sync.Schema.{Db, Booking, BookingStatus}
use turf_sync.Date.{start_of_utc_day}
use turf_sync.Outcome.{ok}
use turf_sync.Pagination.{PaginationDto, paginate}
use turf_sync.Admin.Reports.{
  status_is, id_is, end_of_utc_day, DateFilter, date_filter, is_listed, get_all_bookings,
}

pub whole_days :
    (from to c : ℕ)
    → ((leb (start_of_utc_day from) c && leb c (end_of_utc_day to)) ≡ true)
      ↔ ((start_of_utc_day from ≤ start_of_utc_day c) × (start_of_utc_day c ≤ start_of_utc_day to))
unfolding start_of_utc_day end_of_utc_day
whole_days from to c = ground arith

and_iff : (x y z : Bool) → ((x && (y && z)) ≡ true) ↔ ((x ≡ true) × (y ≡ true) × (z ≡ true))
and_iff x y z = ground arith

-- Given two dates that parse, `getAllBookings` pages through the bookings of the status and the turf
-- that are asked for, where they are, that were made on a day from the first date to the second, both
-- days included in full, in the order of the table.
get_all_bookings-days :
    (page : PaginationDto) (status : Option BookingStatus) (turf_id : Option ℕ) (from to : ℕ)
    (db : Db)
    → (listed : List Booking) × (get_all_bookings page status turf_id
          (some (some from))
          (some (some to))
          db
        ≡ ok (paginate page listed))
      × ((b : Booking)
          → IsIn b listed ↔ (
              IsIn b db.bookings
              × (status_is status b.status ≡ true)
              × (id_is turf_id b.turf_id ≡ true)
              × (start_of_utc_day from ≤ start_of_utc_day b.created_at)
              × (start_of_utc_day b.created_at ≤ start_of_utc_day to)))
unfolding get_all_bookings date_filter is_listed
get_all_bookings-days page status turf_id from to db =
    (find_many (is_listed status turf_id dates) db.bookings, refl, λ b. (sound b, complete b))
  where
    dates : DateFilter
    dates = record { gte = some (start_of_utc_day from); lte = some (end_of_utc_day to) }

    listed_iff :
        (b : Booking)
        → (is_listed status turf_id dates b ≡ true) ↔ (
            (status_is status b.status ≡ true)
            × (id_is turf_id b.turf_id ≡ true)
            × (start_of_utc_day from ≤ start_of_utc_day b.created_at)
            × (start_of_utc_day b.created_at ≤ start_of_utc_day to))
    listed_iff b =
        let (days, days') = whole_days from to b.created_at in
        let (split, join) =
          and_iff (status_is status b.status) (id_is turf_id b.turf_id)
            (leb (start_of_utc_day from) b.created_at && leb b.created_at (end_of_utc_day to)) in
        (
          λ t. let (x, y, z) = split t in (x, y, (days z).0, (days z).1),
          λ (x, y, z, w). join (x, y, days' (z, w)),
        )

    sound :
        (b : Booking)
        → IsIn b (find_many (is_listed status turf_id dates) db.bookings)
        → IsIn b db.bookings
          × (status_is status b.status ≡ true)
          × (id_is turf_id b.turf_id ≡ true)
          × (start_of_utc_day from ≤ start_of_utc_day b.created_at)
          × (start_of_utc_day b.created_at ≤ start_of_utc_day to)
    sound b m =
        let (n, t) = find_many-IsIn (is_listed status turf_id dates) b db.bookings m in
        let (w, x, y, z) = (listed_iff b).0 t in (n, w, x, y, z)

    complete :
        (b : Booking)
        → (IsIn b db.bookings
            × (status_is status b.status ≡ true)
            × (id_is turf_id b.turf_id ≡ true)
            × (start_of_utc_day from ≤ start_of_utc_day b.created_at)
            × (start_of_utc_day b.created_at ≤ start_of_utc_day to))
        → IsIn b (find_many (is_listed status turf_id dates) db.bookings)
    complete b (n, w, x, y, z) =
        IsIn-find_many (is_listed status turf_id dates) b db.bookings n
          ((listed_iff b).1 (w, x, y, z))
