-- ===== src/Admin/Privacy.antt =====
-- src/auth/auth.service.ts and src/admin/admin.service.ts: what the answers about users depend on.
use turf_sync.Prelude.{
  ℕ, ◌≡◌, refl, ap, sym, ◌∙◌, inl, inr, Bool, true, ◌||◌, ◌==◌, Option, none, some, List, [], ◌∷◌,
  map, Bool-cases,
}
use turf_sync.Table.{find_first, find_many, find_unique, count}
use turf_sync.Schema.{Db, Booking, Text}
use turf_sync.Pagination.{PaginationDto, paginate}
use turf_sync.Turf.Listing.{contains_part}
use turf_sync.Auth.{User}
use turf_sync.Auth.Account.{Profile, profile_of, get_profile}
use turf_sync.Admin.{Office}
use turf_sync.Admin.Records.{Spelling, UserRow, is_found, user_row, get_all_users}

-- The row of a user, and the test of the search, of the profile alone.
abbrev row_of : Db → Profile → UserRow
row_of db p = record {
  id = p.id;
  name = p.name;
  email = p.email;
  phone = p.phone;
  role = p.role;
  is_verified = p.is_verified;
  created_at = p.created_at;
  bookings = count (λ (b : Booking). b.user_id == p.id) db.bookings;
}

abbrev finds_profile : Spelling → Option Text → Profile → Bool
finds_profile spell none p = true
finds_profile spell (some []) p = true
finds_profile spell (some (c ∷ cs)) p =
    contains_part (some (c ∷ cs)) (spell.name p.name)
    || (contains_part (some (c ∷ cs)) (spell.email p.email)
        || contains_part (some (c ∷ cs)) (spell.phone p.phone))

get_profile-map :
    (id : ℕ) (users : List User)
    → (elim (find_unique (λ (u : User). u.id) id users) [
      | none ↦ none
      | some u ↦ some (profile_of u)
    ])
      ≡ find_unique (λ (p : Profile). p.id) id (map profile_of users)
unfolding find_unique find_first
get_profile-map id [] = refl
get_profile-map id (u ∷ us) = elim (Bool-cases (u.id == id)) [
  | inl t ↦ rw t refl
  | inr f ↦ rw f (get_profile-map id us)
]

found-profile :
    (spell : Spelling) (search : Option Text) (u : User)
    → is_found spell search u ≡ finds_profile spell search (profile_of u)
unfolding is_found
found-profile spell none u = refl
found-profile spell (some []) u = refl
found-profile spell (some (c ∷ cs)) u = refl

rows-map :
    (spell : Spelling) (search : Option Text) (db : Db) (users : List User)
    → map (user_row db) (find_many (is_found spell search) users)
      ≡ map (row_of db) (find_many (finds_profile spell search) (map profile_of users))
unfolding find_many
rows-map spell search db [] = refl
rows-map spell search db (u ∷ us) =
    let rest = rows-map spell search db us in
    elim (Bool-cases (finds_profile spell search (profile_of u))) [
      | inl t ↦ rw (found-profile, t) (ap (λ rows. row_of db (profile_of u) ∷ rows) rest)
      | inr f ↦ rw (found-profile, f) rest
    ]

-- Where two servers have the same bookings and other tables, and differ at most in the passwords, the
-- tokens, the failures and the lockouts of their users, `getProfile` of any user and `getAllUsers`, with
-- any search, answer alike.
pub answers_public :
    (spell : Spelling) (page : PaginationDto) (search : Option Text) (id : ℕ) (o o' : Office)
    → o.tables ≡ o'.tables
    → map profile_of o.accounts.users ≡ map profile_of o'.accounts.users
    → (get_profile id o.accounts ≡ get_profile id o'.accounts)
      × (get_all_users spell page search o ≡ get_all_users spell page search o')
unfolding get_profile get_all_users
answers_public spell page search id o o' t e = (
  get_profile-map id o.accounts.users
      ∙ ap (find_unique (λ (p : Profile). p.id) id) e
      ∙ sym (get_profile-map id o'.accounts.users),
  ap (paginate page) (
      rows-map spell search o.tables o.accounts.users
      ∙ ap (λ ps. map (row_of o.tables) (find_many (finds_profile spell search) ps)) e
      ∙ ap
          (λ db.
            map (row_of db)
              (find_many (finds_profile spell search) (map profile_of o'.accounts.users)))
          t
      ∙ sym (rows-map spell search o'.tables o'.accounts.users)),
)
