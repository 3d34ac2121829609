-- ===== src/Pagination/Pages.antt =====
-- The pages of a query, taken together.
use turf_sync.Prelude.{
  ℕ, zero, suc, ◌+◌, ◌-◌, ◌*◌, ◌≤◌, ◌<◌, ◌≡◌, refl, sym, ap, ◌∙◌, arith, some, List, [], ◌∷◌, ◌++◌,
  length, take, drop,
}
use turf_sync.Pagination.{paginate, ceil_div}

le-ceil_div : (n limit : ℕ) → n ≤ ceil_div n (suc limit) * suc limit
le-ceil_div n limit = grind arith

module _ {ℓ} {A : Type ℓ} where
  nil-take : (n : ℕ) → ◌≡◌ {A = List A} [] (take n [])
  nil-take zero = refl
  nil-take (suc n) = refl

  take_add : (m n : ℕ) (xs : List A) → take (m + n) xs ≡ take m xs ++ take n (drop m xs)
  take_add zero n xs = let e : 0 + n ≡ n = omega arith in ap (λ k. take k xs) e
  take_add (suc m) n [] =
      let e : suc m + n ≡ suc (m + n) = omega arith in ap (λ k. take k []) e ∙ nil-take n
  take_add (suc m) n (x ∷ xs) =
      let e : suc m + n ≡ suc (m + n) = omega arith in
      ap (λ k. take k (x ∷ xs)) e ∙ ap (λ ys. x ∷ ys) (take_add m n xs)

  take_all : (n : ℕ) (xs : List A) → length xs ≤ n → take n xs ≡ xs
  take_all zero [] h = refl
  take_all zero (x ∷ xs) h = absurd (omega arith)
  take_all (suc n) [] h = refl
  take_all (suc n) (x ∷ xs) h = ap (λ ys. x ∷ ys) (take_all n xs (omega arith))

  -- Page `page` of `rows`, at `limit` rows a page.
  abbrev pub page_of : ℕ → ℕ → List A → List A
  page_of limit page rows = (paginate (record { page = some page; limit = some limit }) rows).items

  -- The first `n` pages, one behind the other.
  pub first_pages : ℕ → ℕ → List A → List A
  first_pages limit zero rows = []
  first_pages limit (suc n) rows = first_pages limit n rows ++ page_of limit (suc n) rows

  first_pages-eq-take :
      (limit n : ℕ) (rows : List A) → first_pages (suc limit) n rows ≡ take (n * suc limit) rows
  unfolding first_pages paginate
  first_pages-eq-take limit zero rows =
      let e : 0 * suc limit ≡ 0 = omega arith in ap (λ k. take k rows) (sym e)
  first_pages-eq-take limit (suc n) rows =
      let e : suc n * suc limit ≡ n * suc limit + suc limit = grind arith in
      let s : suc n - 1 ≡ n = omega arith in
      rw (first_pages-eq-take limit n rows)
        (rw s (sym (ap (λ k. take k rows) e ∙ take_add (n * suc limit) (suc limit) rows)))

  -- For any positive number of rows a page, the pages up to the reported number of pages, one
  -- behind the other, are all the rows that the query selects, each once and in their order.
  pub first_pages-total_pages :
      (limit : ℕ) (rows : List A)
      → 0 < limit
      → first_pages limit
          (paginate (record { page = some 1; limit = some limit }) rows).total_pages
          rows
        ≡ rows
  unfolding paginate
  first_pages-total_pages zero rows h = absurd (omega arith)
  first_pages-total_pages (suc limit) rows h =
      first_pages-eq-take limit (ceil_div (length rows) (suc limit)) rows
      ∙ take_all _ rows (le-ceil_div (length rows) limit)
