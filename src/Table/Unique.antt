-- ===== src/Table/Unique.antt =====
-- Columns with a unique index: at most one row to a key.
use turf_sync.Prelude.{
  ℕ, Bool, not, some, none, List, [], ◌∷◌, ◌≡◌, ◌≢◌, refl, sym, ap, ◌∙◌, inl, inr, arith, ◌==◌,
  if◌then◌else◌, IsIn, Bool-cases, ==_iff,
}
use turf_sync.Table.{find_first, find_many, find_unique, update_many, update, delete_many}
use turf_sync.Table.Laws.{find_first-eq-some, find_first-eq-none, find_many-IsIn, update_many-IsIn}

module _ {A : Type 0} (key : A → ℕ) where
  pub find_unique-eq-some :
      (k : ℕ) (x : A) (xs : List A) → find_unique key k xs ≡ some x → IsIn x xs × (key x ≡ k)
  unfolding find_unique
  find_unique-eq-some k x xs e =
      let (m, t) = find_first-eq-some (λ y. key y == k) x xs e in (m, (==_iff (key x) k).0 t)

  pub find_unique-eq-none :
      (k : ℕ) (x : A) (xs : List A) → find_unique key k xs ≡ none → IsIn x xs → key x ≢ k
  unfolding find_unique
  find_unique-eq-none k x xs e m h =
      let f = find_first-eq-none (λ y. key y == k) x xs e m in ground arith

  -- No two rows have the same key.
  abbrev pub IsUnique : List A → Type 0
  IsUnique [] = Unit
  IsUnique (x ∷ xs) = ((y : A) → IsIn y xs → key y ≢ key x) × IsUnique xs

  pub IsUnique-eq :
      (x y : A) (xs : List A) → IsUnique xs → IsIn x xs → IsIn y xs → key x ≡ key y → x ≡ y
  IsUnique-eq x y [] u h k e = absurd h
  IsUnique-eq x y (z ∷ zs) u (inl h) (inl k) e = sym h ∙ k
  IsUnique-eq x y (z ∷ zs) u (inl h) (inr k) e = absurd (u.0 y k (sym e ∙ ap key (sym h)))
  IsUnique-eq x y (z ∷ zs) u (inr h) (inl k) e = absurd (u.0 x h (e ∙ ap key (sym k)))
  IsUnique-eq x y (z ∷ zs) u (inr h) (inr k) e = IsUnique-eq x y zs u.1 h k e

  pub find_unique-IsIn :
      (x : A) (xs : List A) → IsUnique xs → IsIn x xs → find_unique key (key x) xs ≡ some x
  unfolding find_unique find_first
  find_unique-IsIn x [] u h = absurd h
  find_unique-IsIn x (z ∷ zs) u (inl e) = ground arith
  find_unique-IsIn x (z ∷ zs) u (inr h) =
      let ne = u.0 x h in ground (arith, find_unique-IsIn x zs u.1 h)

  pub update_many-IsUnique :
      (p : A → Bool) (f : A → A) (xs : List A)
      → ((x : A) → key (f x) ≡ key x)
      → IsUnique xs
      → IsUnique (update_many p f xs)
  unfolding update_many
  update_many-IsUnique p f [] same u = tt
  update_many-IsUnique p f (x ∷ xs) same u =
      (λ y m. fresh y (update_many-IsIn p f y xs m), update_many-IsUnique p f xs same u.1)
    where
      kept : (z : A) → key (if p z then f z else z) ≡ key z
      kept z = elim (Bool-cases (p z)) [ inl t ↦ rw t (same z) | inr n ↦ rw n refl ]

      fresh :
          (y : A)
          → (z : A) × IsIn z xs × (y ≡ (if p z then f z else z))
          → key y ≢ key (if p x then f x else x)
      fresh y (z, m, e) h = u.0 z m (sym (kept z) ∙ sym (ap key e) ∙ h ∙ kept x)

  pub find_unique-update_many :
      (p : A → Bool) (f : A → A) (k : ℕ) (xs : List A)
      → ((x : A) → key (f x) ≡ key x)
      → find_unique key k (update_many p f xs)
        ≡ elim (find_unique key k xs) [ none ↦ none | some x ↦ some (if p x then f x else x) ]
  unfolding find_unique find_first update_many
  find_unique-update_many p f k [] same = refl
  find_unique-update_many p f k (x ∷ xs) same =
      ground (arith, find_unique-update_many p f k xs same, same x)

  pub find_unique-update_self :
      (f : A → A) (k : ℕ) (x : A) (xs : List A)
      → ((y : A) → key (f y) ≡ key y)
      → find_unique key k xs ≡ some x
      → find_unique key k (update key k f xs) ≡ some (f x)
  unfolding update
  find_unique-update_self f k x xs same e =
      ground
        (arith, find_unique-update_many (λ y. key y == k) f k xs same, find_unique-eq-some k x xs e)

  pub find_unique-update_ne :
      (f : A → A) (j k : ℕ) (xs : List A)
      → ((y : A) → key (f y) ≡ key y)
      → j ≢ k
      → find_unique key j (update key k f xs) ≡ find_unique key j xs
  unfolding update find_unique find_first update_many
  find_unique-update_ne f j k [] same ne = refl
  find_unique-update_ne f j k (x ∷ xs) same ne =
      ground (arith, find_unique-update_ne f j k xs same ne, same x)

module _ {A : Type 0} (key : A → ℕ) where
  pub find_many-IsUnique :
      (p : A → Bool) (xs : List A) → IsUnique key xs → IsUnique key (find_many p xs)
  unfolding find_many
  find_many-IsUnique p [] u = tt
  find_many-IsUnique p (x ∷ xs) u = elim (Bool-cases (p x)) [
    | inl t ↦ rw t ((λ y m. u.0 y (find_many-IsIn p y xs m).0), find_many-IsUnique p xs u.1)
    | inr f ↦ rw f (find_many-IsUnique p xs u.1)
  ]

  pub delete_many-IsUnique :
      (p : A → Bool) (xs : List A) → IsUnique key xs → IsUnique key (delete_many p xs)
  unfolding delete_many
  delete_many-IsUnique p xs u = find_many-IsUnique (λ x. not (p x)) xs u
