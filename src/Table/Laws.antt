-- ===== src/Table/Laws.antt =====
-- What the queries return, by membership.
use turf_sync.Prelude.{
  Bool, true, false, some, none, List, [], ◌∷◌, ◌≡◌, refl, sym, ap, ◌∙◌, inl, inr, arith, not,
  if◌then◌else◌, IsIn, Bool-cases, length,
}
use turf_sync.Table.{find_first, find_many, update_many, delete_many, count}

module _ {A : Type 0} (p : A → Bool) where
  pub find_first-eq-some :
      (x : A) (xs : List A) → find_first p xs ≡ some x → IsIn x xs × (p x ≡ true)
  unfolding find_first
  find_first-eq-some x [] e = cc
  find_first-eq-some x (y ∷ ys) e = elim (Bool-cases (p y)) [
    | inl t ↦ ground arith
    | inr f ↦ let ih = find_first-eq-some x ys (ground arith) in (inr ih.0, ih.1)
  ]

  pub find_first-eq-none : (x : A) (xs : List A) → find_first p xs ≡ none → IsIn x xs → p x ≡ false
  unfolding find_first
  find_first-eq-none x [] e h = absurd h
  find_first-eq-none x (y ∷ ys) e (inl h) = ground arith
  find_first-eq-none x (y ∷ ys) e (inr h) = elim (Bool-cases (p y)) [
    | inl t ↦ ground arith
    | inr f ↦ find_first-eq-none x ys (ground arith) h
  ]

  pub IsIn-find_many : (x : A) (xs : List A) → IsIn x xs → p x ≡ true → IsIn x (find_many p xs)
  unfolding find_many
  IsIn-find_many x [] h t = absurd h
  IsIn-find_many x (y ∷ ys) (inl e) t = let s : p y ≡ true = ap p e ∙ t in rw s (inl e)
  IsIn-find_many x (y ∷ ys) (inr h) t = elim (Bool-cases (p y)) [
    | inl s ↦ rw s (inr (IsIn-find_many x ys h t))
    | inr f ↦ rw f (IsIn-find_many x ys h t)
  ]

  pub find_many-IsIn : (x : A) (xs : List A) → IsIn x (find_many p xs) → IsIn x xs × (p x ≡ true)
  unfolding find_many
  find_many-IsIn x [] h = absurd h
  find_many-IsIn x (y ∷ ys) h = elim (Bool-cases (p y)) [
    | inl s ↦ kept s (find_many-IsIn x ys) (rw s at h)
    | inr f ↦ let ih = find_many-IsIn x ys (rw f at h) in (inr ih.0, ih.1)
  ]
    where
      kept :
          p y ≡ true
          → (IsIn x (find_many p ys) → IsIn x ys × (p x ≡ true))
          → IsIn x (y ∷ find_many p ys)
          → IsIn x (y ∷ ys) × (p x ≡ true)
      kept s ih (inl e) = (inl e, sym (ap p e) ∙ s)
      kept s ih (inr m) = let (n, t) = ih m in (inr n, t)

  pub find_many-eq-nil : (x : A) (xs : List A) → find_many p xs ≡ [] → IsIn x xs → p x ≡ false
  find_many-eq-nil x xs e h = elim (Bool-cases (p x)) [
    | inl t ↦ absurd (let m = IsIn-find_many x xs h t in rw e at m)
    | inr f ↦ f
  ]

  module _ (f : A → A) where
    pub IsIn-update_many :
        (x : A) (xs : List A) → IsIn x xs → IsIn (if p x then f x else x) (update_many p f xs)
    unfolding update_many
    IsIn-update_many x [] h = absurd h
    IsIn-update_many x (y ∷ ys) (inl e) = inl (ap (λ z. if p z then f z else z) e)
    IsIn-update_many x (y ∷ ys) (inr h) = inr (IsIn-update_many x ys h)

    pub update_many-IsIn :
        (y : A) (xs : List A)
        → IsIn y (update_many p f xs)
        → (x : A) × IsIn x xs × (y ≡ (if p x then f x else x))
    unfolding update_many
    update_many-IsIn y [] h = absurd h
    update_many-IsIn y (x ∷ xs) (inl e) = (x, inl refl, sym e)
    update_many-IsIn y (x ∷ xs) (inr h) = let (z, m, e) = update_many-IsIn y xs h in (z, inr m, e)

module _ {A : Type 0} (p : A → Bool) where
  pub delete_many-IsIn :
      (x : A) (xs : List A) → IsIn x (delete_many p xs) → IsIn x xs × (p x ≡ false)
  unfolding delete_many
  delete_many-IsIn x xs h = let (m, e) = find_many-IsIn (λ y. not (p y)) x xs h in (m, ground arith)

  pub IsIn-delete_many : (x : A) (xs : List A) → IsIn x xs → p x ≡ false → IsIn x (delete_many p xs)
  unfolding delete_many
  IsIn-delete_many x xs h e = IsIn-find_many (λ y. not (p y)) x xs h (ground arith)

module _ {A : Type 0} (p : A → Bool) where
  pub count-eq-zero : (xs : List A) → ((x : A) → IsIn x xs → p x ≡ false) → count p xs ≡ 0
  unfolding count find_many
  count-eq-zero [] h = refl
  count-eq-zero (x ∷ xs) h = rw (h x (inl refl)) (count-eq-zero xs (λ y m. h y (inr m)))

  pub count-eq-zero_IsIn : (x : A) (xs : List A) → count p xs ≡ 0 → IsIn x xs → p x ≡ false
  unfolding count
  count-eq-zero_IsIn x xs e m = find_many-eq-nil p x xs (nil_of_length (find_many p xs) e) m
    where
      nil_of_length : (ys : List A) → length ys ≡ 0 → ys ≡ []
      nil_of_length [] z = refl
      nil_of_length (y ∷ ys) z = absurd (omega arith)
