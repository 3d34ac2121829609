-- ===== src/Turf.antt =====
-- src/turf/turf.service.ts: TurfService over the database and the cache. Each handler is one
-- sequence of commands, run to its end before the next. The handlers themselves are in Turf.Handlers,
-- the search for turfs in Turf.Listing.
pub mod Listing
pub mod Handlers
pub mod Catalogue
pub mod Coherence
pub mod Available
use turf_sync.Prelude.{
  ℕ, ◌+◌, ◌-◌, ◌≡◌, Bool, true, false, not, ◌&&◌, ◌||◌, Option, none, some, List, [], ◌∷◌, ◌++◌,
  ltb, leb, ◌==◌, if◌then◌else◌, is_some, length,
}
use turf_sync.Table.{find_first, find_many, find_unique, update}
use turf_sync.Schema.{Db, Turf, Slot, SportType, Text}
use turf_sync.Outcome.{
  bad_request, not_found, conflict, known_request_error, unique_violation, Reason, Result, ok, err,
}
use turf_sync.TimeText.{hour_of, text_eq}
use turf_sync.Date.{start_of_utc_day}
use turf_sync.Coupon.{to_upper}
use turf_sync.Slot.{generate_turf_slots, generate_for_turf, adjusted_end}
use turf_sync.Pagination.{PaginationDto, paginate}
use turf_sync.Cache.{
  RedisCache, Key, turf_key, slots_key, list_key, Cached, turf_value, slots_value, list_value,
  TurfWithSlots, cache_get, cache_set, cache_del, del_by_pattern,
}

-- The fields of CreateTurfDto that the services read; an update may leave any of them out.
pub record CreateTurfDto : Type 0 where
  pub name : Text
  pub city : Text
  pub sport_type : SportType
  pub price_per_hour : ℕ
  pub open_time : Text
  pub close_time : Text
  pub images : Option (List Text)

pub record UpdateTurfDto : Type 0 where
  pub name : Option Text
  pub city : Option Text
  pub sport_type : Option SportType
  pub price_per_hour : Option ℕ
  pub open_time : Option Text
  pub close_time : Option Text
  pub images : Option (List Text)

abbrev pub or_else {ℓ} : {A : Type ℓ} → Option A → A → A
or_else none d = d
or_else (some a) d = a

-- The row that `create` inserts, with the defaults of the schema.
abbrev pub new_turf : ℕ → CreateTurfDto → Turf
new_turf id dto = record {
  id = id;
  name = dto.name;
  city = dto.city;
  sport_type = dto.sport_type;
  rating = record { sum = 0; count = 0 };
  price_per_hour = dto.price_per_hour;
  open_time = dto.open_time;
  close_time = dto.close_time;
  images = or_else dto.images [];
  is_active = true;
}

abbrev pub patch_turf : UpdateTurfDto → Turf → Turf
patch_turf dto t = record t {
  name = or_else dto.name t.name;
  city = or_else dto.city t.city;
  sport_type = or_else dto.sport_type t.sport_type;
  price_per_hour = or_else dto.price_per_hour t.price_per_hour;
  open_time = or_else dto.open_time t.open_time;
  close_time = or_else dto.close_time t.close_time;
  images = or_else dto.images t.images;
}

abbrev pub deactivate : Turf → Turf
deactivate t = record t { is_active = false }

-- `turf:list:*`
abbrev pub is_list_key : Key → Bool
is_list_key (list_key q) = true
is_list_key (turf_key id) = false
is_list_key (slots_key id day) = false

-- `where: { name, city }`
abbrev pub is_named : Text → Text → Turf → Bool
is_named name city t = text_eq t.name name && text_eq t.city city

-- The unique columns of a turf, against another row.
abbrev pub turf_clashes : Turf → Turf → Bool
turf_clashes new t = t.id == new.id || text_eq t.name new.name

abbrev pub takes_name : ℕ → Option Text → Turf → Bool
takes_name id none t = false
takes_name id (some name) t = text_eq t.name name && not (t.id == id)

-- `orderBy: { startTime: 'asc' }`
unfoldable pub text_le : Text → Text → Bool
text_le [] t = true
text_le (c ∷ cs) [] = false
text_le (c ∷ cs) (d ∷ ds) = ltb c d || (c == d && text_le cs ds)

unfoldable pub insert_slot : Slot → List Slot → List Slot
insert_slot s [] = s ∷ []
insert_slot s (x ∷ xs) =
    if text_le s.start_time x.start_time then s ∷ x ∷ xs else x ∷ insert_slot s xs

unfoldable pub by_start_time : List Slot → List Slot
by_start_time [] = []
by_start_time (s ∷ ss) = insert_slot s (by_start_time ss)

abbrev pub is_slot_on : ℕ → ℕ → Slot → Bool
is_slot_on turf_id date s = s.turf_id == turf_id && s.date == date

unfoldable pub slots_on : ℕ → ℕ → Db → List Slot
slots_on turf_id date db = by_start_time (find_many (is_slot_on turf_id date) db.slots)

-- `expectedSlotsCount`; of an hour that does not parse, NaN, which nothing is less than
unfoldable pub expected_slots_count : Turf → Option ℕ
expected_slots_count t = elim (hour_of t.open_time) [
  | none ↦ none
  | some from ↦ elim (hour_of t.close_time) [
    | none ↦ none
    | some to ↦ some (adjusted_end from to - from)
  ]
]

abbrev pub is_short : ℕ → Option ℕ → Bool
is_short n none = false
is_short n (some expected) = ltb n expected

-- `if (slots.length < expectedSlotsCount) …`
unfoldable pub ensure_slots : (ℕ → ℕ) → Turf → ℕ → Db → Db
ensure_slots fresh t date db =
    if is_short (length (slots_on t.id date db)) (expected_slots_count t)
    then generate_turf_slots fresh t date db
    else db
