-- ===== src/Auth/Lockout.antt =====
-- What logins with wrong passwords do to an account.
use turf_sync.Prelude.{
  ℕ, ◌+◌, ◌*◌, ◌≤◌, ◌<◌, ◌≡◌, refl, sym, ap, ◌∙◌, inl, inr, arith, true, false, Option, none, some,
  Option-cases, Bool-cases, if◌then◌else◌, ◌∷◌, ◌==◌,
}
use turf_sync.Table.{find_unique, update}
use turf_sync.Table.Unique.{find_unique-update_many}
use turf_sync.Outcome.{Result, err, ok, unauthorized, Reason}
use turf_sync.Auth.{
  AuthDb, Crypto, Issue, User, SignedIn, UserWithoutPassword, without_password, answer_with, login,
  refuse_login, check_in, is_locked, record_failure, clear_failures, has_failures, generate_tokens,
  issued_row, update_user,
}

abbrev pub user_at : ℕ → AuthDb → Option User
user_at id db = find_unique (λ (u : User). u.id) id db.users

abbrev pub user_of : ℕ → AuthDb → Option User
user_of email db = find_unique (λ (u : User). u.email) email db.users

-- An update of the account that an address belongs to, seen by that address.
user_of-update_user :
    (email : ℕ) (f : User → User) (u : User) (db : AuthDb)
    → ((x : User) → (f x).email ≡ x.email)
    → user_of email db ≡ some u
    → user_of email (update_user u.id f db) ≡ some (f u)
unfolding update
user_of-update_user email f u db same e = ground (
  arith,
  e,
  find_unique-update_many (λ (x : User). x.email) (λ x. x.id == u.id) f email db.users same,
)

-- A wrong password for an account that is not locked and has failed at least four times is
-- refused and locks the account for fifteen minutes: until then every login to it is refused,
-- whatever the password, and changes nothing.
pub login_locks :
    (crypto : Crypto) (issue later : Issue) (email password any_password : ℕ) (u : User)
    (db : AuthDb)
    → user_of email db ≡ some u
    → is_locked issue.now u ≡ false
    → crypto.verify_password u.password_hash password ≡ false
    → 4 ≤ u.failed_login_attempts
    → later.now < issue.now + 15 * 60 * 1000
    → (db' : AuthDb) × (login crypto issue email password db
        ≡ (err (unauthorized Reason.too_many_attempts), db'))
      × (login crypto later email any_password db'
          ≡ (err (unauthorized Reason.account_locked), db'))
unfolding login refuse_login
login_locks crypto issue later email password any_password u db f unlocked wrong four soon =
    let fail = record_failure issue.now (u.failed_login_attempts + 1) in
    let g = user_of-update_user email fail u db (λ x. refl) f in
    (update_user u.id fail db, ground arith, ground arith)

-- What tokens that are issued write.
pub generate_tokens-eq-ok :
    (crypto : Crypto) (issue : Issue) (id token : ℕ) (db db' : AuthDb)
    → generate_tokens crypto issue id db ≡ (ok token, db')
    → (token ≡ issue.refresh_token)
      × (db' ≡ record db { refresh_tokens = issued_row crypto issue id ∷ db.refresh_tokens })
unfolding generate_tokens
generate_tokens-eq-ok crypto issue id token db db' e = (ground arith, ground arith)

answer_with-eq-ok :
    {U : Type 0} (shown : U) (r : Result ℕ) (answer : SignedIn U)
    → answer_with shown r ≡ ok answer
    → (answer.user ≡ shown) × (r ≡ ok answer.refresh_token)
answer_with-eq-ok shown (err e) answer h = cc
answer_with-eq-ok {U} shown (ok token) answer h =
    let same : ◌≡◌ {A = SignedIn U} (record { user = shown; refresh_token = token }) answer =
      ground arith in
    (sym (ap (λ (a : SignedIn U). a.user) same), ap (λ (a : SignedIn U). ok a.refresh_token) same)

no_failures : (u : User) → has_failures u ≡ false → u ≡ clear_failures u
no_failures u h =
    let p : u.failed_login_attempts ≡ 0 = ground arith in
    let q : u.lockout_until ≡ none = ground arith in cc

-- What `login` stores of the account before it issues the tokens.
abbrev cleared : User → AuthDb → AuthDb
cleared u db = if has_failures u then update_user u.id clear_failures db else db

cleared-user_of :
    (email : ℕ) (u : User) (db : AuthDb)
    → user_of email db ≡ some u
    → user_of email (cleared u db) ≡ some (clear_failures u)
cleared-user_of email u db f = elim (Bool-cases (has_failures u)) [
  | inl t ↦ rw t (user_of-update_user email clear_failures u db (λ x. refl) f)
  | inr n ↦ rw n (f ∙ ap some (no_failures u n))
]

cleared_tokens : (u : User) (db : AuthDb) → (cleared u db).refresh_tokens ≡ db.refresh_tokens
cleared_tokens u db = elim (Bool-cases (has_failures u)) [ inl t ↦ rw t refl | inr n ↦ rw n refl ]

-- A login that is answered is to an account with that address that is not locked, by its password. It
-- answers with the row of the account as it was, less the hash of the password, and with the token that
-- was signed. It leaves the account without failures or lock, and one more session, of that account,
-- under the hash of that token, until the configured time has passed.
pub login_effect :
    (crypto : Crypto) (issue : Issue) (email password : ℕ) (answer : SignedIn UserWithoutPassword)
    (db db' : AuthDb)
    → login crypto issue email password db ≡ (ok answer, db')
    → (u : User) × (user_of email db ≡ some u)
      × (is_locked issue.now u ≡ false)
      × (crypto.verify_password u.password_hash password ≡ true)
      × (answer.user ≡ without_password u)
      × (answer.refresh_token ≡ issue.refresh_token)
      × (user_of email db' ≡ some (clear_failures u))
      × (db'.refresh_tokens ≡ issued_row crypto issue u.id ∷ db.refresh_tokens)
unfolding login refuse_login check_in
login_effect crypto issue email password answer db db' e = elim (Option-cases (user_of email db)) [
  | inl n ↦ absurd (ground arith)
  | inr (u, f) ↦ elim (Bool-cases (is_locked issue.now u)) [
    | inl l ↦ absurd (ground arith)
    | inr l ↦ elim (Bool-cases (crypto.verify_password u.password_hash password)) [
      | inr w ↦ absurd (ground arith)
      | inl v ↦
          let made = generate_tokens crypto issue u.id (cleared u db) in
          let (shown, signed) =
            answer_with-eq-ok (without_password u) made.0 answer (ground arith) in
          let (same, h) =
            generate_tokens-eq-ok crypto issue u.id answer.refresh_token (cleared u db) db'
              (ground arith) in
          (
            u,
            f,
            l,
            v,
            shown,
            same,
            ap (user_of email) h ∙ cleared-user_of email u db f,
            ap (λ (w : AuthDb). w.refresh_tokens) h
                ∙ ap (λ ts. issued_row crypto issue u.id ∷ ts) (cleared_tokens u db),
          )
    ]
  ]
]
