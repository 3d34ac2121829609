-- ===== src/Turf/Listing.antt =====
-- src/turf/turf.service.ts: the query of `findAll`, with its cache key and its conditions.
use turf_sync.Prelude.{
  ℕ, Bool, true, false, not, ◌&&◌, ◌||◌, Option, none, some, List, [], ◌∷◌, ◌++◌, map, leb, ◌==◌,
  is_some,
}
use turf_sync.Table.{find_first, find_many}
use turf_sync.Schema.{Db, Turf, Slot, SportType, Text}
use turf_sync.Coupon.{to_upper}
use turf_sync.Pagination.{PaginatedResult, paginate}
use turf_sync.Cache.{TurfWithSlots}
use turf_sync.Turf.{or_else}

-- QueryTurfDto; prices are in the unit of the column, and a date is as it is written and as it parses.
pub record QueryTurfDto : Type 0 where
  pub city : Option Text
  pub sport_type : Option SportType
  pub search : Option Text
  pub min_price : Option ℕ
  pub max_price : Option ℕ
  pub available_date : Option (Text × ℕ)
  pub page : Option ℕ
  pub limit : Option ℕ

abbrev pub sport_text : Option SportType → Text
sport_text none = []
sport_text (some SportType.football) = b'F' ∷ b'O' ∷ b'O' ∷ b'T' ∷ b'B' ∷ b'A' ∷ b'L' ∷ b'L' ∷ []
sport_text (some SportType.cricket) = b'C' ∷ b'R' ∷ b'I' ∷ b'C' ∷ b'K' ∷ b'E' ∷ b'T' ∷ []
sport_text (some SportType.both) = b'B' ∷ b'O' ∷ b'T' ∷ b'H' ∷ []

abbrev pub number_text : (ℕ → Text) → Option ℕ → Text
number_text print none = []
number_text print (some n) = print n

abbrev pub date_text : Option (Text × ℕ) → Text
date_text none = []
date_text (some (t, _)) = t

-- `[…].join(':')`
unfoldable pub join_colon : List Text → Text
join_colon [] = []
join_colon (t ∷ []) = t
join_colon (t ∷ u ∷ ts) = t ++ (b':' ∷ join_colon (u ∷ ts))

-- `cacheKey` of `findAll`, behind `turf:list:`; `print` is how JavaScript writes a number.
unfoldable pub query_text : (ℕ → Text) → QueryTurfDto → Text
unfolding join_colon
query_text print q = join_colon (
    or_else q.city []
    ∷ sport_text q.sport_type
    ∷ or_else q.search []
    ∷ number_text print q.min_price
    ∷ number_text print q.max_price
    ∷ date_text q.available_date
    ∷ print (or_else q.page 1)
    ∷ print (or_else q.limit 10)
    ∷ [])

unfoldable pub starts_with : Text → Text → Bool
starts_with [] t = true
starts_with (c ∷ cs) [] = false
starts_with (c ∷ cs) (d ∷ ds) = c == d && starts_with cs ds

unfoldable pub contains_text : Text → Text → Bool
unfolding starts_with
contains_text part [] = starts_with part []
contains_text part (d ∷ ds) = starts_with part (d ∷ ds) || contains_text part ds

-- `{ contains: part, mode: 'insensitive' }`; an empty or absent part is no condition.
abbrev pub contains_part : Option Text → Text → Bool
contains_part none t = true
contains_part (some part) t = contains_text (to_upper part) (to_upper t)

abbrev pub sport_matches : Option SportType → SportType → Bool
sport_matches none s = true
sport_matches (some SportType.football) SportType.football = true
sport_matches (some SportType.cricket) SportType.cricket = true
sport_matches (some SportType.both) SportType.both = true
sport_matches (some t) s = false

abbrev pub at_least : Option ℕ → ℕ → Bool
at_least none n = true
at_least (some m) n = leb m n

abbrev pub at_most : Option ℕ → ℕ → Bool
at_most none n = true
at_most (some m) n = leb n m

abbrev pub is_open_on : ℕ → ℕ → Slot → Bool
is_open_on turf_id date s = s.turf_id == turf_id && (s.date == date && not s.is_booked)

-- `slots: { some: … }`, and the slots that are included
abbrev pub has_open : Option (Text × ℕ) → ℕ → List Slot → Bool
has_open none id slots = true
has_open (some (_, date)) id slots = is_some (find_first (is_open_on id date) slots)

abbrev pub open_slots : Option (Text × ℕ) → ℕ → List Slot → List Slot
open_slots none id slots = []
open_slots (some (_, date)) id slots = find_many (is_open_on id date) slots

-- `where` of `findAll`
unfoldable pub is_selected : QueryTurfDto → List Slot → Turf → Bool
is_selected q slots t =
    t.is_active
    && (contains_part q.city t.city
        && (sport_matches q.sport_type t.sport_type
            && (contains_part q.search t.name
                && (at_least q.min_price t.price_per_hour
                    && (at_most q.max_price t.price_per_hour
                        && has_open q.available_date t.id slots)))))

-- The query of `findAll`: the selected turfs, the newest first, as the table holds them.
unfoldable pub search_turfs : QueryTurfDto → Db → PaginatedResult TurfWithSlots
search_turfs q db =
    paginate (record { page = q.page; limit = q.limit })
      (map (λ (t : Turf). record { turf = t; slots = open_slots q.available_date t.id db.slots })
        (find_many (is_selected q db.slots) db.turfs))
