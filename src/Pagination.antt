-- ===== src/Pagination.antt =====
-- src/common/utils/pagination.util.ts. The rows that the query selects, in its order, are a list.
pub mod Pages
use turf_sync.Prelude.{
  ℕ, zero, suc, ◌+◌, ◌-◌, ◌*◌, ◌/◌, Option, none, some, List, length, take, drop,
}

-- PaginationDto: numbers from 0, or left out
pub record PaginationDto : Type 0 where
  pub page : Option ℕ
  pub limit : Option ℕ

-- `value && value > 0 ? Number(value) : fallback`
abbrev pub positive_or : ℕ → Option ℕ → ℕ
positive_or fallback none = fallback
positive_or fallback (some zero) = fallback
positive_or fallback (some (suc n)) = suc n

pub record PaginationParams : Type 0 where
  pub skip : ℕ
  pub page : ℕ
  pub limit : ℕ

-- `getPaginationParams`; its `take` is its `limit`.
unfoldable pub get_pagination_params : PaginationDto → PaginationParams
get_pagination_params dto = record {
  skip = (positive_or 1 dto.page - 1) * positive_or 10 dto.limit;
  page = positive_or 1 dto.page;
  limit = positive_or 10 dto.limit;
}

pub record PaginatedResult {ℓ} (A : Type ℓ) : Type ℓ where
  pub items : List A
  pub total : ℕ
  pub page : ℕ
  pub limit : ℕ
  pub total_pages : ℕ

-- `Math.ceil(total / limit)`
abbrev pub ceil_div : ℕ → ℕ → ℕ
ceil_div total limit = (total + (limit - 1)) / limit

-- `createPaginatedResponse`
unfoldable pub create_paginated_response {ℓ} : {A : Type ℓ} → List A → ℕ → ℕ → ℕ → PaginatedResult A
create_paginated_response items total page limit = record {
  items = items;
  total = total;
  page = page;
  limit = limit;
  total_pages = ceil_div total limit;
}

-- `paginate`, where `findMany` skips and takes rows of `rows`, and `count` counts them all
unfoldable pub paginate {ℓ} : {A : Type ℓ} → PaginationDto → List A → PaginatedResult A
unfolding get_pagination_params create_paginated_response
paginate dto rows =
    let p = get_pagination_params dto in
    create_paginated_response (take p.limit (drop p.skip rows)) (length rows) p.page p.limit
