-- ===== src/Admin/Popular.antt =====
-- src/admin/admin.service.ts: the popular slots of `getTurfAnalytics`.
use turf_sync.Prelude.{
  ℕ, zero, suc, ◌≡◌, ◌≢◌, ◌⊎◌, refl, sym, ap, ◌∙◌, inl, inr, arith, false, List, [], ◌∷◌, leb, ◌==◌,
  map, take, IsIn, Bool-cases, ==_iff,
}
use turf_sync.Table.{find_many}
use turf_sync.Table.Laws.{find_many-IsIn}
use turf_sync.Table.Unique.{IsUnique, find_many-IsUnique}
use turf_sync.Schema.{Booking}
use turf_sync.Admin.Revenue.{group_sums, add_to_group}
use turf_sync.Admin.Reports.{insert_by_count, by_count, popular_slots}

abbrev HasNo : ℕ → List (ℕ × ℕ) → Type 0
HasNo k groups = (g : ℕ × ℕ) → IsIn g groups → g.0 ≢ k

add_to_group-IsIn :
    (k v : ℕ) (g : ℕ × ℕ) (groups : List (ℕ × ℕ))
    → HasNo k groups
    → IsIn g (add_to_group k v groups)
    → ((k, v) ≡ g) ⊎ IsIn g groups
unfolding add_to_group
add_to_group-IsIn k v g [] h (inl e) = inl e
add_to_group-IsIn k v g [] h (inr m) = absurd m
add_to_group-IsIn k v g ((j, w) ∷ groups) h m =
    let ne : (j == k) ≡ false = ground (arith, h (j, w) (inl refl)) in
    later (add_to_group-IsIn k v g groups (λ x n. h x (inr n))) (rw ne at m)
  where
    later :
        (IsIn g (add_to_group k v groups) → ((k, v) ≡ g) ⊎ IsIn g groups)
        → IsIn g ((j, w) ∷ add_to_group k v groups)
        → ((k, v) ≡ g) ⊎ IsIn g ((j, w) ∷ groups)
    later ih (inl e) = inr (inl e)
    later ih (inr n) = elim (ih n) [ inl e ↦ inl e | inr x ↦ inr (inr x) ]

abbrev slot_rows : List Booking → List (ℕ × ℕ)
slot_rows bs = map (λ (b : Booking). (b.slot_id, 1)) bs

group_sums-slots :
    (bs : List Booking)
    → IsUnique (λ (b : Booking). b.slot_id) bs
    → (g : ℕ × ℕ) → IsIn g (group_sums (λ k. k) (slot_rows bs))
    → (g.1 ≡ 1) × (b : Booking) × IsIn b bs × (b.slot_id ≡ g.0)
unfolding group_sums
group_sums-slots [] u g m = absurd m
group_sums-slots (b ∷ bs) u g m =
    let ih = group_sums-slots bs u.1 in
    elim (add_to_group-IsIn b.slot_id 1 g (group_sums (λ k. k) (slot_rows bs))
      (λ x n e. let (_, y, i, h) = ih x n in u.0 y i (h ∙ e)) m) [
        | inl e ↦ (ap (λ x. x.1) (sym e), b, inl refl, ap (λ x. x.0) e)
        | inr n ↦ let (one, y, i, h) = ih g n in (one, y, inr i, h)
      ]

insert_by_count-IsIn :
    (g x : ℕ × ℕ) (groups : List (ℕ × ℕ)) → IsIn x (insert_by_count g groups) → IsIn x (g ∷ groups)
unfolding insert_by_count
insert_by_count-IsIn g x [] m = m
insert_by_count-IsIn (k, n) x ((j, w) ∷ groups) m = elim (Bool-cases (leb w n)) [
  | inl t ↦ rw t at m
  | inr f ↦ later (insert_by_count-IsIn (k, n) x groups) (rw f at m)
]
  where
    later :
        (IsIn x (insert_by_count (k, n) groups) → IsIn x ((k, n) ∷ groups))
        → IsIn x ((j, w) ∷ insert_by_count (k, n) groups)
        → IsIn x ((k, n) ∷ (j, w) ∷ groups)
    later ih (inl e) = inr (inl e)
    later ih (inr i) = elim (ih i) [ inl e ↦ inl e | inr y ↦ inr (inr y) ]

by_count-IsIn : (x : ℕ × ℕ) (groups : List (ℕ × ℕ)) → IsIn x (by_count groups) → IsIn x groups
unfolding by_count
by_count-IsIn x [] m = m
by_count-IsIn x (g ∷ groups) m = elim (insert_by_count-IsIn g x (by_count groups) m) [
  | inl e ↦ inl e
  | inr n ↦ inr (by_count-IsIn x groups n)
]

IsIn-take : (n : ℕ) (x : ℕ × ℕ) (xs : List (ℕ × ℕ)) → IsIn x (take n xs) → IsIn x xs
IsIn-take zero x xs m = absurd m
IsIn-take (suc n) x [] m = absurd m
IsIn-take (suc n) x (y ∷ ys) (inl e) = inl e
IsIn-take (suc n) x (y ∷ ys) (inr m) = inr (IsIn-take n x ys m)

-- While no two bookings have one slot, as the unique index on the slot makes sure, every slot among
-- the popular slots of a turf is shown with one booking, which is a booking of that turf.
popular_slots-single :
    (turf_id : ℕ) (bookings : List Booking) (g : ℕ × ℕ)
    → IsUnique (λ (b : Booking). b.slot_id) bookings
    → IsIn g (popular_slots turf_id bookings)
    → (g.1 ≡ 1) × (b : Booking) × IsIn b bookings × (b.slot_id ≡ g.0) × (b.turf_id ≡ turf_id)
unfolding popular_slots
popular_slots-single turf_id bookings g u m =
    let own = λ (b : Booking). b.turf_id == turf_id in
    let selected = find_many own bookings in
    let groups = group_sums (λ k. k) (slot_rows selected) in
    let n = by_count-IsIn g groups (IsIn-take 5 g (by_count groups) m) in
    let (one, b, i, h) =
      group_sums-slots selected (find_many-IsUnique (λ (x : Booking). x.slot_id) own bookings u) g
        n in
    let (j, t) = find_many-IsIn own b bookings i in (one, b, j, h, (==_iff b.turf_id turf_id).0 t)
