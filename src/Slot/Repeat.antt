-- ===== src/Slot/Repeat.antt =====
-- Slots are generated for the same day again and again: by the daily job, by the bulk generation and
-- by an administrator.
use turf_sync.Prelude.{
  ℕ, ◌+◌, ◌≡◌, ◌≢◌, refl, sym, ap, ◌∙◌, inl, inr, arith, true, false, List, [], ◌∷◌, IsIn,
  Option-cases,
}
use turf_sync.Table.{find_first}
use turf_sync.Table.Laws.{find_first-eq-some, find_first-eq-none}
use turf_sync.Schema.{Db, Slot, Turf}
use turf_sync.TimeText.{text_eq_refl}
use turf_sync.Slot.{
  SlotInput, new_slot, same_slot, is_duplicate, create_many, slots_to_create, generate_turf_slots,
}

same_slot-new_slot : (id : ℕ) (new : SlotInput) → same_slot new (new_slot id new) ≡ true
same_slot-new_slot id new = ground (arith, text_eq_refl new.start_time)

-- The numbers that the database gives to new rows: no two calls of it get one number, and none is
-- that of a row.
pub record IsFresh (fresh : ℕ → ℕ) (slots : List Slot) : Type 0 where
  pub distinct : (m n : ℕ) → fresh m ≡ fresh n → m ≡ n
  pub unused : (s : Slot) → IsIn s slots → (n : ℕ) → s.id ≢ fresh n

-- Each of the slots to create is in the table.
abbrev pub IsCovered : List SlotInput → List Slot → Type 0
IsCovered inputs slots =
    (i : SlotInput) → IsIn i inputs → (s : Slot) × IsIn s slots × (same_slot i s ≡ true)

covered_no_change :
    (fresh : ℕ → ℕ) (inputs : List SlotInput) (slots : List Slot)
    → IsCovered inputs slots
    → create_many fresh inputs slots ≡ slots
unfolding create_many
covered_no_change fresh [] slots c = refl
covered_no_change fresh (i ∷ more) slots c =
    let rest = covered_no_change (λ n. fresh (n + 1)) more slots (λ j m. c j (inr m)) in
    elim (Option-cases (find_first (is_duplicate (fresh 0) i) slots)) [
      | inr (s, e) ↦ rw e rest
      | inl e ↦
          let (s, m, t) = c i (inl refl) in
          let f = find_first-eq-none (is_duplicate (fresh 0) i) s slots e m in absurd (clash s f t)
    ]
  where
    clash : (s : Slot) → is_duplicate (fresh 0) i s ≡ false → same_slot i s ≡ true → ⊥
    clash s f t = ground (arith, f, t)

next-IsFresh :
    (fresh : ℕ → ℕ) (i : SlotInput) (slots : List Slot)
    → IsFresh fresh slots
    → IsFresh (λ n. fresh (n + 1)) (new_slot (fresh 0) i ∷ slots)
next-IsFresh fresh i slots f = record {
  distinct = λ m n e. let k = f.distinct (m + 1) (n + 1) e in omega arith;
  unused = unused;
}
  where
    unused : (s : Slot) → IsIn s (new_slot (fresh 0) i ∷ slots) → (n : ℕ) → s.id ≢ fresh (n + 1)
    unused s (inl e) n =
        λ h. let k = f.distinct 0 (n + 1) (ap (λ (x : Slot). x.id) e ∙ h) in omega arith
    unused s (inr m) n = f.unused s m (n + 1)

create_many-keeps :
    (fresh : ℕ → ℕ) (inputs : List SlotInput) (slots : List Slot) (s : Slot)
    → IsIn s slots
    → IsIn s (create_many fresh inputs slots)
unfolding create_many
create_many-keeps fresh [] slots s m = m
create_many-keeps fresh (i ∷ more) slots s m =
    elim (Option-cases (find_first (is_duplicate (fresh 0) i) slots)) [
      | inr (x, e) ↦ rw e (create_many-keeps (λ n. fresh (n + 1)) more slots s m)
      | inl e ↦
          rw e
            (create_many-keeps (λ n. fresh (n + 1)) more (new_slot (fresh 0) i ∷ slots) s (inr m))
    ]

-- With fresh numbers, each slot that is asked for is there afterwards.
create_many-IsCovered :
    (fresh : ℕ → ℕ) (inputs : List SlotInput) (slots : List Slot)
    → IsFresh fresh slots
    → IsCovered inputs (create_many fresh inputs slots)
unfolding create_many
create_many-IsCovered fresh [] slots f = λ i m. absurd m
create_many-IsCovered fresh (i ∷ more) slots f =
    let later = λ (n : ℕ). fresh (n + 1) in
    elim (Option-cases (find_first (is_duplicate (fresh 0) i) slots)) [
      | inr (s, e) ↦
          let (m, t) = find_first-eq-some (is_duplicate (fresh 0) i) s slots e in
          let same = taken s (f.unused s m 0) t in
          let f' : IsFresh later slots = record {
            distinct = λ m n h. let k = f.distinct (m + 1) (n + 1) h in omega arith;
            unused = λ x n k. f.unused x n (k + 1);
          } in
          rw e (first later slots s same m (create_many-IsCovered later more slots f'))
      | inl e ↦ rw e (
          first later (new_slot (fresh 0) i ∷ slots) (new_slot (fresh 0) i)
            (same_slot-new_slot (fresh 0) i) (inl refl)
            (create_many-IsCovered later more (new_slot (fresh 0) i ∷ slots)
              (next-IsFresh fresh i slots f)))
    ]
  where
    taken : (s : Slot) → s.id ≢ fresh 0 → is_duplicate (fresh 0) i s ≡ true → same_slot i s ≡ true
    taken s ne t = ground (arith, t)

    first :
        (later : ℕ → ℕ) (start : List Slot) (s : Slot)
        → same_slot i s ≡ true
        → IsIn s start
        → IsCovered more (create_many later more start)
        → IsCovered (i ∷ more) (create_many later more start)
    first later start s same m rest j (inl e) =
        (s, create_many-keeps later more start s m, ap (λ x. same_slot x s) (sym e) ∙ same)
    first later start s same m rest j (inr n) = rest j n

-- With fresh numbers, the generation of the slots of a turf for a day leaves every slot that it
-- found, makes sure of every slot that the turf's hours list, and has nothing to do when repeated.
pub generate_repeated :
    (fresh again : ℕ → ℕ) (turf : Turf) (date : ℕ) (db : Db)
    → IsFresh fresh db.slots
    → ((s : Slot) → IsIn s db.slots → IsIn s (generate_turf_slots fresh turf date db).slots)
      × IsCovered (slots_to_create turf date) (generate_turf_slots fresh turf date db).slots
      × (generate_turf_slots again turf date (generate_turf_slots fresh turf date db)
          ≡ generate_turf_slots fresh turf date db)
unfolding generate_turf_slots
generate_repeated fresh again turf date db f =
    let inputs = slots_to_create turf date in
    let covered = create_many-IsCovered fresh inputs db.slots f in
    (
      create_many-keeps fresh inputs db.slots,
      covered,
      ap (λ slots. record db { slots = slots })
          (covered_no_change again inputs (create_many fresh inputs db.slots) covered),
    )
