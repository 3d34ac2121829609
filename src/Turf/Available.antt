-- ===== src/Turf/Available.antt =====
-- src/turf/turf.service.ts: the slots that `getAvailableSlots` answers with.
use turf_sync.Prelude.{
  ℕ, ◌≡◌, ◌↔◌, refl, sym, ap, ◌∙◌, inl, inr, arith, true, false, none, some, List, [], ◌∷◌, IsIn,
  Bool-cases, length,
}
use turf_sync.Table.{find_many}
use turf_sync.Table.Laws.{find_many-IsIn, IsIn-find_many}
use turf_sync.Schema.{Db, Turf, Slot, Text}
use turf_sync.Outcome.{ok}
use turf_sync.Slot.{slots_to_create}
use turf_sync.Slot.Repeat.{IsFresh, IsCovered, generate_repeated}
use turf_sync.Cache.{RedisCache, slots_key, slots_value, cache_get}
use turf_sync.Turf.{
  text_le, insert_slot, by_start_time, is_slot_on, slots_on, ensure_slots, is_short,
  expected_slots_count,
}
use turf_sync.Turf.Handlers.{turf_of, slots_of_day}

text_le_total : (a b : Text) → text_le a b ≡ false → text_le b a ≡ true
unfolding text_le
text_le_total [] b h = cc
text_le_total (c ∷ cs) [] h = refl
text_le_total (c ∷ cs) (d ∷ ds) h = ground (arith, text_le_total cs ds)

text_le_trans : (a b c : Text) → text_le a b ≡ true → text_le b c ≡ true → text_le a c ≡ true
unfolding text_le
text_le_trans [] b c h k = refl
text_le_trans (x ∷ xs) [] c h k = cc
text_le_trans (x ∷ xs) (y ∷ ys) [] h k = cc
text_le_trans (x ∷ xs) (y ∷ ys) (z ∷ zs) h k = ground (arith, text_le_trans xs ys zs)

abbrev pub IsBefore : Slot → Slot → Type 0
IsBefore a b = text_le a.start_time b.start_time ≡ true

-- Each slot starts no later than those behind it.
abbrev pub IsOrdered : List Slot → Type 0
IsOrdered [] = Unit
IsOrdered (s ∷ ss) = ((x : Slot) → IsIn x ss → IsBefore s x) × IsOrdered ss

insert_slot-IsIn : (s x : Slot) (ss : List Slot) → IsIn x (insert_slot s ss) ↔ IsIn x (s ∷ ss)
unfolding insert_slot
insert_slot-IsIn s x [] = (λ m. m, λ m. m)
insert_slot-IsIn s x (y ∷ ys) = elim (Bool-cases (text_le s.start_time y.start_time)) [
  | inl t ↦ rw t (λ m. m, λ m. m)
  | inr f ↦ let (to, from) = insert_slot-IsIn s x ys in rw f (there to, back from)
]
  where
    there :
        (IsIn x (insert_slot s ys) → IsIn x (s ∷ ys))
        → IsIn x (y ∷ insert_slot s ys)
        → IsIn x (s ∷ y ∷ ys)
    there to (inl e) = inr (inl e)
    there to (inr m) = elim (to m) [ inl e ↦ inl e | inr n ↦ inr (inr n) ]

    back :
        (IsIn x (s ∷ ys) → IsIn x (insert_slot s ys))
        → IsIn x (s ∷ y ∷ ys)
        → IsIn x (y ∷ insert_slot s ys)
    back from (inl e) = inr (from (inl e))
    back from (inr (inl e)) = inl e
    back from (inr (inr m)) = inr (from (inr m))

insert_slot-IsOrdered : (s : Slot) (ss : List Slot) → IsOrdered ss → IsOrdered (insert_slot s ss)
unfolding insert_slot
insert_slot-IsOrdered s [] o = (λ x m. absurd m, tt)
insert_slot-IsOrdered s (y ∷ ys) o = elim (Bool-cases (text_le s.start_time y.start_time)) [
  | inl t ↦ rw t (first t, o)
  | inr f ↦ rw f (later f, insert_slot-IsOrdered s ys o.1)
]
  where
    first : IsBefore s y → (x : Slot) → IsIn x (y ∷ ys) → IsBefore s x
    first t x (inl e) = sym (ap (λ (z : Slot). text_le s.start_time z.start_time) e) ∙ t
    first t x (inr m) = text_le_trans s.start_time y.start_time x.start_time t (o.0 x m)

    behind : text_le s.start_time y.start_time ≡ false → (x : Slot) → IsIn x (s ∷ ys) → IsBefore y x
    behind f x (inl e) =
        sym (ap (λ (z : Slot). text_le y.start_time z.start_time) e)
        ∙ text_le_total s.start_time y.start_time f
    behind f x (inr m) = o.0 x m

    later :
        text_le s.start_time y.start_time ≡ false
        → (x : Slot) → IsIn x (insert_slot s ys)
        → IsBefore y x
    later f x m = behind f x ((insert_slot-IsIn s x ys).0 m)

by_start_time-IsIn : (x : Slot) (ss : List Slot) → IsIn x (by_start_time ss) ↔ IsIn x ss
unfolding by_start_time
by_start_time-IsIn x [] = (λ m. m, λ m. m)
by_start_time-IsIn x (s ∷ ss) =
    let (to, from) = by_start_time-IsIn x ss in
    let (in_, out) = insert_slot-IsIn s x (by_start_time ss) in
    (λ m. through (by_start_time ss) ss to (in_ m), λ m. out (through ss (by_start_time ss) from m))
  where
    through : (xs ys : List Slot) → (IsIn x xs → IsIn x ys) → IsIn x (s ∷ xs) → IsIn x (s ∷ ys)
    through xs ys f (inl e) = inl e
    through xs ys f (inr m) = inr (f m)

by_start_time-IsOrdered : (ss : List Slot) → IsOrdered (by_start_time ss)
unfolding by_start_time
by_start_time-IsOrdered [] = tt
by_start_time-IsOrdered (s ∷ ss) =
    insert_slot-IsOrdered s (by_start_time ss) (by_start_time-IsOrdered ss)

is_slot_on_iff :
    (turf_id date : ℕ) (s : Slot)
    → (is_slot_on turf_id date s ≡ true) ↔ ((s.turf_id ≡ turf_id) × (s.date ≡ date))
is_slot_on_iff turf_id date s = ground arith

slots_on-IsIn :
    (turf_id date : ℕ) (db : Db) (x : Slot)
    → IsIn x (slots_on turf_id date db)
      ↔ (IsIn x db.slots × (x.turf_id ≡ turf_id) × (x.date ≡ date))
unfolding slots_on
slots_on-IsIn turf_id date db x =
    let p = is_slot_on turf_id date in
    let (to, from) = by_start_time-IsIn x (find_many p db.slots) in
    let (sound, complete) = is_slot_on_iff turf_id date x in
    (
      λ m. let (n, t) = find_many-IsIn p x db.slots (to m) in (n, (sound t).0, (sound t).1),
      λ (m, a, b). from (IsIn-find_many p x db.slots m (complete (a, b))),
    )

ensure_slots_lem :
    (fresh : ℕ → ℕ) (t : Turf) (date : ℕ) (db : Db)
    → IsFresh fresh db.slots
    → ((s : Slot) → IsIn s db.slots → IsIn s (ensure_slots fresh t date db).slots)
      × (is_short (length (slots_on t.id date db)) (expected_slots_count t) ≡ true
          → IsCovered (slots_to_create t date) (ensure_slots fresh t date db).slots)
unfolding ensure_slots
ensure_slots_lem fresh t date db f =
    let (kept, covered, _) = generate_repeated fresh fresh t date db f in
    elim (Bool-cases (is_short (length (slots_on t.id date db)) (expected_slots_count t))) [
      | inl e ↦ rw e (kept, λ _. covered)
      | inr e ↦ rw e (λ s m. m, λ h. absurd (cc))
    ]

-- On a day that is not cached, of a turf that exists, and where the database numbers new rows
-- freshly, `getAvailableSlots` answers with the turf and the slots of that turf on that day that are
-- in the table afterwards, all of them and no other, in the order of their start; every slot that was
-- in the table is still there; and if the day had fewer slots than the turf has opening hours, each
-- slot that the hours list from that day on is in the table.
pub slots_of_day_answer :
    (redis : RedisCache) (fresh : ℕ → ℕ) (turf_id date : ℕ) (t : Turf) (db : Db) (s : redis.Store)
    → cache_get redis (slots_key turf_id date) s ≡ none
    → turf_of turf_id db ≡ some t
    → IsFresh fresh db.slots
    → (shown : List Slot) × ((slots_of_day redis fresh turf_id date db s).0
        ≡ ok (slots_value t shown date))
      × IsOrdered shown
      × ((x : Slot)
          → IsIn x shown ↔ (
              IsIn x (slots_of_day redis fresh turf_id date db s).1.slots
              × (x.turf_id ≡ turf_id)
              × (x.date ≡ date)))
      × ((x : Slot) → IsIn x db.slots → IsIn x (slots_of_day redis fresh turf_id date db s).1.slots)
      × (is_short (length (slots_on t.id date db)) (expected_slots_count t) ≡ true
          → IsCovered (slots_to_create t date) (slots_of_day redis fresh turf_id date db s).1.slots)
unfolding slots_of_day slots_on
slots_of_day_answer redis fresh turf_id date t db s n e f =
    let db' = ensure_slots fresh t date db in
    let (kept, covered) = ensure_slots_lem fresh t date db f in
    rw (n, slots_of_day, e)
      (
        slots_on turf_id date db',
        refl,
        by_start_time-IsOrdered (find_many (is_slot_on turf_id date) db'.slots),
        slots_on-IsIn turf_id date db',
        kept,
        covered,
      )
