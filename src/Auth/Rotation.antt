-- ===== src/Auth/Rotation.antt =====
-- Refresh tokens are used once, and a second use ends every session of the user.
use turf_sync.Prelude.{
  ℕ, ◌≡◌, ◌≢◌, sym, ap, ◌∙◌, subst, inl, inr, arith, Bool, refl, Option, none, some, Option-cases,
  ◌∷◌, ◌==◌, IsIn,
}
use turf_sync.Table.{find_unique, find_first}
use turf_sync.Table.Laws.{find_first-eq-some, delete_many-IsIn, IsIn-delete_many}
use turf_sync.Table.Unique.{IsUnique, IsUnique-eq, find_unique-eq-some}
use turf_sync.Outcome.{Result, err, ok, unauthorized, Reason}
use turf_sync.Auth.{AuthDb, Crypto, Issue, RefreshToken, User, issued_row}
use turf_sync.Auth.Session.{
  delete_tokens, is_token_of, refresh_tokens, logout_all, validate, authenticate,
}
use turf_sync.Auth.Lockout.{generate_tokens-eq-ok, user_at}

-- No session of the user is left, and each session of another is.
abbrev pub IsLoggedOut : ℕ → AuthDb → AuthDb → Type 0
IsLoggedOut user_id db db' =
    ((t : RefreshToken) → IsIn t db'.refresh_tokens → t.user_id ≢ user_id)
    × ((t : RefreshToken)
        → IsIn t db.refresh_tokens
        → t.user_id ≢ user_id
        → IsIn t db'.refresh_tokens)

pub logout_all-IsLoggedOut :
    (user_id : ℕ) (db : AuthDb) → IsLoggedOut user_id db (logout_all user_id db)
unfolding logout_all delete_tokens
logout_all-IsLoggedOut user_id db =
    let p : RefreshToken → Bool = λ t. t.user_id == user_id in
    (
      λ t m. let h = delete_many-IsIn p t db.refresh_tokens m in ground arith,
      λ t m ne. IsIn-delete_many p t db.refresh_tokens m (ground arith),
    )

-- The row of the old token, once used, is gone.
used_up :
    (token : ℕ) (t : RefreshToken) (db : AuthDb)
    → IsUnique (λ (x : RefreshToken). x.token) db.refresh_tokens
    → IsIn t db.refresh_tokens
    → t.token ≡ token
    → (x : RefreshToken)
    → IsIn x (delete_tokens (λ (x : RefreshToken). x.id == t.id) db).refresh_tokens
    → x.token ≢ token
unfolding delete_tokens
used_up token t db u m e x n =
    let (k, f) = delete_many-IsIn (λ (x : RefreshToken). x.id == t.id) x db.refresh_tokens n in
    λ same.
      let y =
        IsUnique-eq (λ (x : RefreshToken). x.token) x t db.refresh_tokens u k m (same ∙ sym e) in
      ground arith

-- A token that is no session ends those of the user that it was signed for.
validate-absent :
    (crypto : Crypto) (now sub token : ℕ) (db : AuthDb)
    → ((t : RefreshToken) → IsIn t db.refresh_tokens → t.token ≢ crypto.hash_token token)
    → validate crypto now sub (some token) db
      ≡ (err (unauthorized Reason.token_reused), logout_all sub db)
unfolding validate
validate-absent crypto now sub token db absent =
    elim (Option-cases
      (find_unique (λ (t : RefreshToken). t.token) (crypto.hash_token token) db.refresh_tokens)) [
        | inl n ↦ rw (n, validate)
        | inr (t, f) ↦
            let (m, e) =
              find_unique-eq-some (λ (t : RefreshToken). t.token) (crypto.hash_token token) t
                db.refresh_tokens f in
            absurd (absent t m e)
      ]

rotated :
    (crypto : Crypto) (issue : Issue) (id old : ℕ) (t : RefreshToken) (spent db' : AuthDb)
    → crypto.hash_token issue.refresh_token ≢ crypto.hash_token old
    → ((x : RefreshToken) → IsIn x spent.refresh_tokens → x.token ≢ crypto.hash_token old)
    → db' ≡ record spent { refresh_tokens = issued_row crypto issue id ∷ spent.refresh_tokens }
    → (x : RefreshToken) → IsIn x db'.refresh_tokens
    → x.token ≢ crypto.hash_token old
rotated crypto issue id old t spent db' fresh gone h x m =
    elim (subst (λ (w : AuthDb). IsIn x w.refresh_tokens) h m) [
      | inl e ↦ λ same. fresh (ap (λ (y : RefreshToken). y.token) e ∙ same)
      | inr n ↦ gone x n
    ]

-- What presenting a token that is no session does: where passport-jwt accepts it, every session of the
-- user that it was signed for ends, and where it refuses it, since it has expired, nothing changes.
abbrev pub replayed : Option ℕ → AuthDb → Result User × AuthDb
replayed none db = (err (unauthorized Reason.jwt_refused), db)
replayed (some sub) db = (err (unauthorized Reason.token_reused), logout_all sub db)

authenticate-absent :
    (crypto : Crypto) (verified : ℕ → ℕ → Option ℕ) (now token : ℕ) (db : AuthDb)
    → ((t : RefreshToken) → IsIn t db.refresh_tokens → t.token ≢ crypto.hash_token token)
    → authenticate crypto verified now (some token) db ≡ replayed (verified now token) db
unfolding authenticate
authenticate-absent crypto verified now token db absent = elim (Option-cases (verified now token)) [
  | inl n ↦ rw (n, authenticate) refl
  | inr (sub, v) ↦ rw (v, authenticate) (validate-absent crypto now sub token db absent)
]

-- Where the stored tokens are distinct and the new token has another hash than the old one: a
-- refresh that is answered found the old token among the sessions of the user, answered with the token
-- that was signed and stored its hash for the user. The old one is no session of anyone any more. When
-- it is presented again, at any time, it is refused: where passport-jwt accepts it every session of the
-- user that it was signed for ends, and none of another user; where passport-jwt refuses it, as it does
-- once it has expired, nothing changes.
pub refresh_rotates :
    (crypto : Crypto) (issue : Issue) (user_id old new : ℕ) (db db' : AuthDb)
    → IsUnique (λ (t : RefreshToken). t.token) db.refresh_tokens
    → crypto.hash_token issue.refresh_token ≢ crypto.hash_token old
    → refresh_tokens crypto issue user_id old db ≡ (ok new, db')
    → (new ≡ issue.refresh_token)
      × ((t : RefreshToken) × IsIn t db.refresh_tokens
          × (t.user_id ≡ user_id)
          × (t.token ≡ crypto.hash_token old))
      × IsIn (issued_row crypto issue user_id) db'.refresh_tokens
      × ((t : RefreshToken) → IsIn t db'.refresh_tokens → t.token ≢ crypto.hash_token old)
      × ((verified : ℕ → ℕ → Option ℕ) (now : ℕ)
          → authenticate crypto verified now (some old) db' ≡ replayed (verified now old) db')
      × ((sub : ℕ) → IsLoggedOut sub db' (logout_all sub db'))
unfolding refresh_tokens delete_tokens
refresh_rotates crypto issue user_id old new db db' u fresh e =
    elim (Option-cases
      (find_first (is_token_of user_id (crypto.hash_token old)) db.refresh_tokens)) [
        | inl n ↦ absurd (ground arith)
        | inr (t, f) ↦
            let (m, p) =
              find_first-eq-some (is_token_of user_id (crypto.hash_token old)) t db.refresh_tokens
                f in
            elim (Option-cases (user_at user_id db)) [
              | inl n ↦ absurd (ground arith)
              | inr (w, g) ↦
                  let (k, i) = find_unique-eq-some (λ (x : User). x.id) user_id w db.users g in
                  let spent = delete_tokens (λ (x : RefreshToken). x.id == t.id) db in
                  let (signed, h) =
                    generate_tokens-eq-ok crypto issue w.id new spent db' (ground arith) in
                  let gone =
                    rotated crypto issue w.id old t spent db' fresh
                      (used_up (crypto.hash_token old) t db u m (ground arith)) h in
                  (
                    signed,
                    (t, m, ground arith, ground arith),
                    subst (λ (w : AuthDb). IsIn (issued_row crypto issue user_id) w.refresh_tokens)
                        (sym h) (inl (ap (λ n. issued_row crypto issue n) i)),
                    gone,
                    λ verified now. authenticate-absent crypto verified now old db' gone,
                    λ sub. logout_all-IsLoggedOut sub db',
                  )
            ]
      ]
