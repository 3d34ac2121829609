-- ===== src/Turf/Handlers.antt =====
-- src/turf/turf.service.ts: the handlers of TurfService. Each takes the tables and the cache, and
-- answers with a result or an exception, the tables and the cache. A value that the cache answers
-- with is returned as it is.
use turf_sync.Prelude.{ℕ, List, ◌∷◌, Option, none, some, if◌then◌else◌, is_some}
use turf_sync.Table.{find_first, find_unique, update}
use turf_sync.Schema.{Db, Turf}
use turf_sync.Outcome.{
  bad_request, not_found, conflict, known_request_error, unique_violation, Reason, Result, ok, err,
}
use turf_sync.Date.{start_of_utc_day}
use turf_sync.Slot.{generate_for_turf}
use turf_sync.Cache.{
  RedisCache, Cached, turf_key, slots_key, list_key, turf_value, slots_value, list_value, cache_get,
  cache_set, cache_del, del_by_pattern,
}
use turf_sync.Turf.{
  CreateTurfDto, UpdateTurfDto, new_turf, patch_turf, deactivate, is_list_key, is_named,
  turf_clashes, takes_name, ensure_slots, slots_on,
}
use turf_sync.Turf.Listing.{QueryTurfDto, query_text, search_turfs}

abbrev pub turf_of : ℕ → Db → Option Turf
turf_of id db = find_unique (λ (t : Turf). t.id) id db.turfs

abbrev pub change_turf : ℕ → (Turf → Turf) → Db → Db
change_turf id f db = record db { turfs = update (λ (t : Turf). t.id) id f db.turfs }

-- `searchDate`: of no date the day of the local clock, and of a text what it parses to, if it does
abbrev pub search_date : ℕ → Option (Option ℕ) → Option ℕ
search_date today none = some today
search_date today (some none) = none
search_date today (some (some t)) = some (start_of_utc_day t)

module _ (redis : RedisCache) where
  open redis use {Store}

  -- What a handler does.
  abbrev pub Handler {ℓ} : Type ℓ → Type ℓ
  Handler A = Db → Store → Result A × Db × Store

  -- `await this.redis.delByPattern('turf:list:*')`
  abbrev pub drop_lists : Store → Store
  drop_lists s = del_by_pattern redis is_list_key s

  -- `create`, where the database numbers the turf `id` and day `k` of the slots by `fresh k`
  unfoldable pub create : (ℕ → ℕ → ℕ) → ℕ → ℕ → CreateTurfDto → Handler Turf
  create fresh now id dto db s =
      if is_some (find_first (is_named dto.name dto.city) db.turfs)
      then (err (conflict Reason.turf_exists), db, s)
      else if is_some (find_first (turf_clashes (new_turf id dto)) db.turfs)
      then (err (known_request_error unique_violation), db, s)
      else (
        ok (new_turf id dto),
        generate_for_turf fresh now id 7 (record db { turfs = new_turf id dto ∷ db.turfs }),
        drop_lists s,
      )

  -- `findAll`
  unfoldable pub find_all : (ℕ → List ℕ) → QueryTurfDto → Handler Cached
  find_all print q db s = elim (cache_get redis (list_key (query_text print q)) s) [
    | some v ↦ (ok v, db, s)
    | none ↦ (
      ok (list_value (search_turfs q db)),
      db,
      cache_set redis (list_key (query_text print q)) (list_value (search_turfs q db)) 300 s,
    )
  ]

  -- `findOne`
  unfoldable pub find_one : ℕ → Handler Cached
  find_one id db s = elim (cache_get redis (turf_key id) s) [
    | some v ↦ (ok v, db, s)
    | none ↦ elim (turf_of id db) [
      | none ↦ (err (not_found Reason.turf_not_found), db, s)
      | some t ↦ (ok (turf_value t), db, cache_set redis (turf_key id) (turf_value t) 300 s)
    ]
  ]

  -- `update`
  unfoldable pub update_turf : ℕ → UpdateTurfDto → Handler Turf
  update_turf id dto db s = elim (turf_of id db) [
    | none ↦ (err (not_found Reason.turf_not_found), db, s)
    | some t ↦
        if is_some (find_first (takes_name id dto.name) db.turfs)
        then (err (known_request_error unique_violation), db, s)
        else (
          ok (patch_turf dto t),
          change_turf id (patch_turf dto) db,
          drop_lists (cache_del redis (turf_key id) s),
        )
  ]

  -- `remove`
  unfoldable pub remove : ℕ → Handler (Unit {0})
  remove id db s = elim (turf_of id db) [
    | none ↦ (err (not_found Reason.turf_not_found), db, s)
    | some t ↦ (ok tt, change_turf id deactivate db, drop_lists (cache_del redis (turf_key id) s))
  ]

  -- `getAvailableSlots` behind the date
  unfoldable pub slots_of_day : (ℕ → ℕ) → ℕ → ℕ → Handler Cached
  slots_of_day fresh turf_id date db s = elim (cache_get redis (slots_key turf_id date) s) [
    | some v ↦ (ok v, db, s)
    | none ↦ elim (turf_of turf_id db) [
      | none ↦ (err (not_found Reason.turf_not_found), db, s)
      | some t ↦
          let db' = ensure_slots fresh t date db in
          let result = slots_value t (slots_on turf_id date db') date in
          (ok result, db', cache_set redis (slots_key turf_id date) result 60 s)
    ]
  ]

  -- `getAvailableSlots`; `today` is the day of the local clock.
  unfoldable pub get_available_slots : (ℕ → ℕ) → ℕ → ℕ → Option (Option ℕ) → Handler Cached
  get_available_slots fresh today turf_id date db s = elim (search_date today date) [
    | none ↦ (err (bad_request Reason.invalid_date), db, s)
    | some day ↦ slots_of_day fresh turf_id day db s
  ]
