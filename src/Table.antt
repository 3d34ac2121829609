-- ===== src/Table.antt =====
-- A table of the database as the list of its rows, and the queries that the services make of it.
-- A query's `where` clause is a Boolean test on a row and its `data` clause a function on a row.
-- A new row is put first, so a table is in the order of `orderBy: { createdAt: 'desc' }`; a query that
-- names no order is answered in that one, and no handler depends on it.
pub mod Laws
pub mod Unique
use turf_sync.Prelude.{ℕ, Bool, Option, none, some, List, [], ◌∷◌, not, ◌==◌, if◌then◌else◌, length}

module _ {ℓ} {A : Type ℓ} where
  -- `findFirst({ where })`
  unfoldable pub find_first : (A → Bool) → List A → Option A
  find_first p [] = none
  find_first p (x ∷ xs) = if p x then some x else find_first p xs

  -- `findMany({ where })`
  unfoldable pub find_many : (A → Bool) → List A → List A
  find_many p [] = []
  find_many p (x ∷ xs) = let rest = find_many p xs in if p x then x ∷ rest else rest

  -- `count({ where })`
  unfoldable pub count : (A → Bool) → List A → ℕ
  unfolding find_many
  count p xs = length (find_many p xs)

  -- `updateMany({ where, data })`
  unfoldable pub update_many : (A → Bool) → (A → A) → List A → List A
  update_many p f [] = []
  update_many p f (x ∷ xs) = (if p x then f x else x) ∷ update_many p f xs

  -- `deleteMany({ where })`
  unfoldable pub delete_many : (A → Bool) → List A → List A
  unfolding find_many
  delete_many p xs = find_many (λ x. not (p x)) xs

  -- `findUnique({ where: { key: k } })`
  unfoldable pub find_unique : (A → ℕ) → ℕ → List A → Option A
  unfolding find_first
  find_unique key k xs = find_first (λ x. key x == k) xs

  -- `update({ where: { key: k }, data })`, on a key that has a row
  unfoldable pub update : (A → ℕ) → ℕ → (A → A) → List A → List A
  unfolding update_many
  update key k f xs = update_many (λ x. key x == k) f xs
