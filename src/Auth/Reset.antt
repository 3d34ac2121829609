-- ===== src/Auth/Reset.antt =====
-- A password reset.
use turf_sync.Prelude.{
  ℕ, ◌≡◌, ◌≢◌, refl, subst, inl, inr, arith, true, some, none, Option, Option-cases, IsIn, ◌<◌,
}
use turf_sync.Table.{find_first}
use turf_sync.Table.Laws.{find_first-eq-some}
use turf_sync.Table.Unique.{
  IsUnique, find_unique-IsIn, find_unique-update_self, find_unique-update_ne,
}
use turf_sync.Outcome.{ok}
use turf_sync.Auth.{AuthDb, Crypto, User, update_user}
use turf_sync.Auth.Account.{can_reset, is_current, reset_password, set_password}
use turf_sync.Auth.Session.{logout_all, delete_tokens}
use turf_sync.Auth.Lockout.{user_at}
use turf_sync.Auth.Rotation.{IsLoggedOut, logout_all-IsLoggedOut}

is_current-eq :
    (now token : ℕ) (t expires : Option ℕ)
    → is_current now token t expires ≡ true
    → (t ≡ some token) × ((e : ℕ) × (expires ≡ some e) × (now < e))
is_current-eq now token none expires h = cc
is_current-eq now token (some t) none h = cc
is_current-eq now token (some t) (some e) h = (ground arith, (e, refl, ground arith))

-- Where the numbers of users are distinct: a reset that succeeds is by a token that an account
-- holds and that has not expired. The account then has the new password's hash, no reset token,
-- no failures and no lock, and none of its sessions is left; the other accounts and their
-- sessions are as they were.
pub reset_password_effect :
    (crypto : Crypto) (now salt token password : ℕ) (db db' : AuthDb)
    → IsUnique (λ (u : User). u.id) db.users
    → reset_password crypto now salt token password db ≡ (ok tt, db')
    → (u : User) × IsIn u db.users
      × (u.password_reset_token ≡ some token)
      × ((e : ℕ) × (u.password_reset_expires ≡ some e) × (now < e))
      × (user_at u.id db' ≡ some (set_password (crypto.hash_password salt password) u))
      × ((id : ℕ) → id ≢ u.id → user_at id db' ≡ user_at id db)
      × IsLoggedOut u.id db db'
unfolding reset_password logout_all delete_tokens
reset_password_effect crypto now salt token password db db' unique e =
    elim (Option-cases (find_first (can_reset now token) db.users)) [
      | inl n ↦ absurd (ground arith)
      | inr (u, f) ↦
          let (m, p) = find_first-eq-some (can_reset now token) u db.users f in
          let (held, current) =
            is_current-eq now token u.password_reset_token u.password_reset_expires p in
          let change = set_password (crypto.hash_password salt password) in
          let h : logout_all u.id (update_user u.id change db) ≡ db' = ground arith in
          let found = find_unique-IsIn (λ (x : User). x.id) u db.users unique m in
          (
            u,
            m,
            held,
            current,
            subst (λ (w : AuthDb). user_at u.id w ≡ some (change u)) h
                (find_unique-update_self (λ (x : User). x.id) change u.id u db.users (λ x. refl)
                  found),
            λ id ne.
                subst (λ (w : AuthDb). user_at id w ≡ user_at id db) h
                  (find_unique-update_ne (λ (x : User). x.id) change id u.id db.users (λ x. refl)
                    ne),
            subst (λ (w : AuthDb). IsLoggedOut u.id db w) h
                (logout_all-IsLoggedOut u.id (update_user u.id change db)),
          )
    ]
