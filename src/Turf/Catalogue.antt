-- ===== src/Turf/Catalogue.antt =====
-- src/turf/turf.service.ts: the requests of TurfService, and what they do to the rows of turfs when
-- there is no cache.
use turf_sync.Prelude.{
  ℕ, zero, suc, ◌+◌, ◌≡◌, refl, inl, inr, arith, ◌||◌, Option, none, some, List, [], ◌∷◌,
  Option-cases, is_some, if◌then◌else◌,
}
use turf_sync.Table.{find_first, find_unique, update}
use turf_sync.Schema.{Db, Turf}
use turf_sync.Date.{add_utc_days, start_of_utc_day}
use turf_sync.Outcome.{not_found, Reason, Result, ok, err}
use turf_sync.Slot.{generate_for_turf, generate_days, generate_turf_slots}
use turf_sync.Cache.{Cached, turf_value}
use turf_sync.Turf.{
  CreateTurfDto, UpdateTurfDto, new_turf, patch_turf, deactivate, is_named, takes_name,
  turf_clashes, ensure_slots,
}
use turf_sync.Turf.Listing.{QueryTurfDto}

-- The requests that the service answers, with what each is given from outside.
pub data Request : Type 0 where
  creates : (ℕ → ℕ → ℕ) → ℕ → ℕ → CreateTurfDto → Request
  searches : (ℕ → List ℕ) → QueryTurfDto → Request
  finds : ℕ → Request
  updates : ℕ → UpdateTurfDto → Request
  removes : ℕ → Request
  lists_slots : (ℕ → ℕ) → ℕ → ℕ → Option (Option ℕ) → Request

-- What the requests do to the rows of turfs, with no cache in sight.
abbrev pub after_request : Request → List Turf → List Turf
after_request (creates fresh now id dto) ts =
    if is_some (find_first (is_named dto.name dto.city) ts)
      || is_some (find_first (turf_clashes (new_turf id dto)) ts)
    then ts
    else new_turf id dto ∷ ts
after_request (updates id dto) ts = elim (find_unique (λ (t : Turf). t.id) id ts) [
  | none ↦ ts
  | some t ↦
      if is_some (find_first (takes_name id dto.name) ts)
      then ts
      else update (λ (x : Turf). x.id) id (patch_turf dto) ts
]
after_request (removes id) ts = elim (find_unique (λ (t : Turf). t.id) id ts) [
  | none ↦ ts
  | some t ↦ update (λ (x : Turf). x.id) id deactivate ts
]
after_request _ ts = ts

unfoldable pub after : List Request → List Turf → List Turf
after [] ts = ts
after (r ∷ rs) ts = after rs (after_request r ts)

-- What `findOne` promises of the rows.
abbrev pub lookup : ℕ → List Turf → Result Cached
lookup id ts = elim (find_unique (λ (t : Turf). t.id) id ts) [
  | none ↦ err (not_found Reason.turf_not_found)
  | some t ↦ ok (turf_value t)
]

generate_days-turfs :
    (fresh : ℕ → ℕ → ℕ) (t : Turf) (date days : ℕ) (db : Db)
    → (generate_days fresh t date days db).turfs ≡ db.turfs
unfolding generate_days generate_turf_slots
generate_days-turfs fresh t date zero db = refl
generate_days-turfs fresh t date (suc days) db =
    generate_days-turfs (λ k. fresh (k + 1)) t (add_utc_days date 1) days
      (generate_turf_slots (fresh 0) t date db)

pub generate_for_turf-turfs :
    (fresh : ℕ → ℕ → ℕ) (now id days : ℕ) (db : Db)
    → (generate_for_turf fresh now id days db).turfs ≡ db.turfs
unfolding generate_for_turf
generate_for_turf-turfs fresh now id days db =
    elim (Option-cases (find_unique (λ (t : Turf). t.id) id db.turfs)) [
      | inl n ↦ rw (generate_for_turf, n)
      | inr (t, e) ↦
          rw (generate_for_turf, e) (generate_days-turfs fresh t (start_of_utc_day now) days db)
    ]

pub ensure_slots-turfs :
    (fresh : ℕ → ℕ) (t : Turf) (date : ℕ) (db : Db)
    → (ensure_slots fresh t date db).turfs ≡ db.turfs
unfolding ensure_slots generate_turf_slots
ensure_slots-turfs fresh t date db = ground arith
