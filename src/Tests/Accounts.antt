-- ===== src/Tests/Accounts.antt =====
-- An account, its sessions, and the tokens and passwords that come back. The hash of a password is
-- the password plus the salt here, and that of a token its successor.
use turf_sync.Prelude.{
  ℕ, ◌≡◌, ◌≢◌, ◌+◌, ◌<◌, ◌==◌, refl, ap, arith, inl, inr, true, false, Option, none, some, ltb,
  if◌then◌else◌, [], ◌∷◌, IsIn,
}
use turf_sync.Table.{find_first, find_many, find_unique, update, update_many, delete_many}
use turf_sync.Outcome.{ok, err, unauthorized, Reason}
use turf_sync.Auth.{
  AuthDb, Crypto, Issue, RefreshToken, Role, User, check_in, clear_failures, generate_tokens,
  is_locked, issued_row, SignedIn, UserWithoutPassword, without_password, login, parse_duration_ms,
  read_duration,
}
use turf_sync.Auth.Session.{delete_tokens, logout_all, refresh_tokens, authenticate}
use turf_sync.Auth.Account.{reset_password, set_password}
use turf_sync.Auth.Lockout.{user_at, user_of, login_locks, login_effect}
use turf_sync.Auth.Rotation.{IsLoggedOut, replayed, refresh_rotates}
use turf_sync.Auth.Controller.{login_route, refresh_route, refresh_cookie}
use turf_sync.Auth.Continuity.{renewed, login_route-refresh_route}
use turf_sync.Auth.Reset.{reset_password_effect}

abbrev crypto : Crypto
crypto = record {
  hash_password = λ salt password. salt + password;
  verify_password = λ hash password. hash == password;
  hash_token = λ token. token + 1;
}

abbrev issue : Issue
issue = record { now = 1000; refresh_token = 60; id = 3; expires_in = b'7' ∷ b'd' ∷ [] }

abbrev account : User
account = record {
  id = 1;
  name = 11;
  email = 12;
  phone = 13;
  password_hash = 14;
  role = Role.user;
  is_verified = true;
  email_verify_token = none;
  email_verify_expires = none;
  password_reset_token = some 90;
  password_reset_expires = some 5000;
  failed_login_attempts = 4;
  lockout_until = none;
  created_at = 0;
}

abbrev session : RefreshToken
session = record { id = 2; token = 51; user_id = 1; expires_at = 9000 }

abbrev accounts : AuthDb
accounts = record { users = account ∷ []; refresh_tokens = session ∷ [] }

abbrev checked_in : AuthDb
checked_in = record {
  users = clear_failures account ∷ [];
  refresh_tokens =
      record { id = 3; token = 61; user_id = 1; expires_at = 604801000 } ∷ session ∷ [];
}

abbrev rotated : AuthDb
rotated = record accounts {
  refresh_tokens = record { id = 3; token = 61; user_id = 1; expires_at = 604801000 } ∷ [];
}

abbrev reset : AuthDb
reset = record { users = set_password 30 account ∷ []; refresh_tokens = [] }

seven_days : parse_duration_ms (b'7' ∷ b'd' ∷ []) ≡ 604800000
unfolding parse_duration_ms read_duration
seven_days = refl

bad_duration : parse_duration_ms (b'7' ∷ b'd' ∷ b's' ∷ []) ≡ 604800000
unfolding parse_duration_ms read_duration
bad_duration = refl

login_locks_example :
    (db' : AuthDb) × (login crypto issue 12 15 accounts
      ≡ (err (unauthorized Reason.too_many_attempts), db'))
    × (login crypto (record issue { now = 2000 }) 12 14 db'
        ≡ (err (unauthorized Reason.account_locked), db'))
unfolding find_unique find_first
login_locks_example =
    login_locks crypto issue (record issue { now = 2000 }) 12 15 14 account accounts refl refl refl
      (omega arith) (omega arith)

abbrev answer : SignedIn UserWithoutPassword
answer = record { user = without_password account; refresh_token = 60 }

logged_in : login crypto issue 12 14 accounts ≡ (ok answer, checked_in)
unfolding login check_in generate_tokens find_unique find_first update update_many parse_duration_ms
    read_duration
logged_in = refl

login_effect_example :
    (u : User) × (user_of 12 accounts ≡ some u)
    × (is_locked 1000 u ≡ false)
    × (crypto.verify_password u.password_hash 14 ≡ true)
    × (answer.user ≡ without_password u)
    × (answer.refresh_token ≡ 60)
    × (user_of 12 checked_in ≡ some (clear_failures u))
    × (checked_in.refresh_tokens ≡ issued_row crypto issue u.id ∷ accounts.refresh_tokens)
login_effect_example = login_effect crypto issue 12 14 answer accounts checked_in logged_in

-- The next token of the session.
abbrev later : Issue
later = record { now = 5000; refresh_token = 70; id = 4; expires_in = b'7' ∷ b'd' ∷ [] }

route_logged_in :
    login_route crypto issue 12 14 none accounts ≡ (ok answer, some (refresh_cookie 60), checked_in)
unfolding login_route login check_in generate_tokens find_unique find_first update update_many
    parse_duration_ms read_duration
route_logged_in = refl

later_fresh :
    (t : RefreshToken)
    → IsIn t checked_in.refresh_tokens
    → (t.id ≢ later.id) × (t.token ≢ crypto.hash_token later.refresh_token)
later_fresh t (inl e) = (
  λ h. let i = ap (λ (x : RefreshToken). x.id) e in omega arith,
  λ h. let i = ap (λ (x : RefreshToken). x.token) e in omega arith,
)
later_fresh t (inr (inl e)) = (
  λ h. let i = ap (λ (x : RefreshToken). x.id) e in omega arith,
  λ h. let i = ap (λ (x : RefreshToken). x.token) e in omega arith,
)
later_fresh t (inr (inr m)) = absurd m

-- A JWT of the account until the time 6000, with every signature right.
abbrev until_6000 : ℕ → ℕ → Option ℕ
until_6000 now token = if ltb now 6000 then some 1 else none

login_route-refresh_route_example :
    (some (refresh_cookie 60) ≡ some (refresh_cookie 60))
    × ((refresh_route crypto later until_6000 none none (some (refresh_cookie 60)) checked_in).0
        ≡ renewed true 70)
unfolding find_unique find_first
login_route-refresh_route_example =
    login_route-refresh_route crypto issue later until_6000 12 14 6000 account answer none
      (some (refresh_cookie 60)) none none accounts checked_in refl route_logged_in refl
      (omega (arith, seven_days)) later_fresh

refreshed : refresh_tokens crypto issue 1 50 accounts ≡ (ok 60, rotated)
unfolding refresh_tokens delete_tokens generate_tokens find_unique find_first delete_many find_many
    parse_duration_ms read_duration
refreshed = refl

refresh_rotates_example :
    (60 ≡ issue.refresh_token)
    × ((t : RefreshToken) × IsIn t accounts.refresh_tokens × (t.user_id ≡ 1) × (t.token ≡ 51))
    × IsIn (issued_row crypto issue 1) rotated.refresh_tokens
    × ((t : RefreshToken) → IsIn t rotated.refresh_tokens → t.token ≢ 51)
    × ((verified : ℕ → ℕ → Option ℕ) (now : ℕ)
        → authenticate crypto verified now (some 50) rotated ≡ replayed (verified now 50) rotated)
    × ((sub : ℕ) → IsLoggedOut sub rotated (logout_all sub rotated))
refresh_rotates_example =
    refresh_rotates crypto issue 1 50 60 accounts rotated (ground arith) (omega arith) refreshed

password_reset : reset_password crypto 4000 10 90 20 accounts ≡ (ok tt, reset)
unfolding reset_password logout_all delete_tokens find_first delete_many find_many update
    update_many
password_reset = refl

reset_password_effect_example :
    (u : User) × IsIn u accounts.users
    × (u.password_reset_token ≡ some 90)
    × ((e : ℕ) × (u.password_reset_expires ≡ some e) × (4000 < e))
    × (user_at u.id reset ≡ some (set_password 30 u))
    × ((id : ℕ) → id ≢ u.id → user_at id reset ≡ user_at id accounts)
    × IsLoggedOut u.id accounts reset
reset_password_effect_example =
    reset_password_effect crypto 4000 10 90 20 accounts reset (ground arith) password_reset
