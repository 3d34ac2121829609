-- ===== src/Auth.antt =====
-- src/auth/auth.service.ts: the accounts and the refresh tokens of AuthService. The handlers run
-- outside transactions: what one has written when it throws stays written. Argon2 and SHA-256 are a
-- parameter; passwords, tokens, e-mail addresses and phone numbers are numbers, since the code
-- hashes and compares them only.
pub mod Account
pub mod Session
pub mod Lockout
pub mod Rotation
pub mod Reset
pub mod Guard
pub mod Controller
pub mod Continuity
use turf_sync.Prelude.{
  ℕ, ◌+◌, ◌*◌, ◌-◌, Bool, true, false, not, ◌&&◌, ◌||◌, Option, none, some, List, [], ◌∷◌, ltb, leb,
  ◌==◌, if◌then◌else◌, is_some,
}
use turf_sync.Table.{find_first, find_unique, update, delete_many}
use turf_sync.Schema.{Text}
use turf_sync.Outcome.{
  unauthorized, known_request_error, unique_violation, Exception, Reason, Result, ok, err,
}
use turf_sync.TimeText.{is_digit}

pub data Role : Type 0 where
  user admin : Role

pub record User : Type 0 where
  pub id : ℕ
  pub name : ℕ
  pub email : ℕ
  pub phone : ℕ
  pub password_hash : ℕ
  pub role : Role
  pub is_verified : Bool
  pub email_verify_token : Option ℕ
  pub email_verify_expires : Option ℕ
  pub password_reset_token : Option ℕ
  pub password_reset_expires : Option ℕ
  pub failed_login_attempts : ℕ
  pub lockout_until : Option ℕ
  pub created_at : ℕ

pub record RefreshToken : Type 0 where
  pub id : ℕ
  pub token : ℕ
  pub user_id : ℕ
  pub expires_at : ℕ

-- The tables of accounts.
pub record AuthDb : Type 0 where
  pub users : List User
  pub refresh_tokens : List RefreshToken

-- `argon2.hash`, at the salt that it draws, `argon2.verify` and `hashToken`.
pub record Crypto : Type 0 where
  pub hash_password : ℕ → ℕ → ℕ
  pub verify_password : ℕ → ℕ → Bool
  pub hash_token : ℕ → ℕ

-- What a call is given by the clock, the database and `jwtService.sign`: the refresh token it makes,
-- the number of its row, and the time to live of JWT_REFRESH_EXPIRES_IN.
pub record Issue : Type 0 where
  pub now : ℕ
  pub refresh_token : ℕ
  pub id : ℕ
  pub expires_in : Text

-- The unit at the end of a duration.
abbrev pub multiplier : ℕ → Option ℕ
multiplier c =
    if c == b's'
    then some 1000
    else if c == b'm'
    then some 60000
    else if c == b'h'
    then some 3600000
    else if c == b'd'
    then some 86400000
    else none

abbrev pub in_unit : ℕ → Bool → ℕ → Text → Option ℕ
in_unit value true c [] = elim (multiplier c) [ none ↦ none | some ms ↦ some (value * ms) ]
in_unit value _ c cs = none

-- `/^(\d+)(s|m|h|d)$/` on what is left of a text, with `value` read so far and whether a digit was.
unfoldable pub read_duration : ℕ → Bool → Text → Option ℕ
read_duration value seen [] = none
read_duration value seen (c ∷ cs) =
    let rest = read_duration (value * 10 + (c - b'0')) true cs in
    if is_digit c then rest else in_unit value seen c cs

-- `parseDurationMs`
unfoldable pub parse_duration_ms : Text → ℕ
unfolding read_duration
parse_duration_ms duration = elim (read_duration 0 false duration) [
  | none ↦ 7 * 24 * 60 * 60 * 1000
  | some ms ↦ ms
]

-- The unique columns of a refresh token, against another row.
abbrev pub token_clashes : RefreshToken → RefreshToken → Bool
token_clashes new t = t.id == new.id || t.token == new.token

module _ (crypto : Crypto) where
  -- The row that `generateTokens` writes: the hash of the token.
  abbrev pub issued_row : Issue → ℕ → RefreshToken
  issued_row issue user_id = record {
    id = issue.id;
    token = crypto.hash_token issue.refresh_token;
    user_id = user_id;
    expires_at = issue.now + parse_duration_ms issue.expires_in;
  }

  -- `generateTokens`, which returns the refresh token
  unfoldable pub generate_tokens : Issue → ℕ → AuthDb → Result ℕ × AuthDb
  generate_tokens issue user_id db =
      if is_some (find_first (token_clashes (issued_row issue user_id)) db.refresh_tokens)
      then (err (known_request_error unique_violation), db)
      else (
        ok issue.refresh_token,
        record db { refresh_tokens = issued_row issue user_id ∷ db.refresh_tokens },
      )

-- `user.lockoutUntil && user.lockoutUntil > new Date()`
abbrev pub is_locked : ℕ → User → Bool
is_locked now u = elim u.lockout_until [ none ↦ false | some t ↦ ltb now t ]

-- `dataToUpdate`, of the attempts that were read
abbrev pub record_failure : ℕ → ℕ → User → User
record_failure now attempts u = record u {
  failed_login_attempts = attempts;
  lockout_until = if leb 5 attempts then some (now + 15 * 60 * 1000) else u.lockout_until;
}

abbrev pub clear_failures : User → User
clear_failures u = record u { failed_login_attempts = 0; lockout_until = none }

-- `if (user.failedLoginAttempts > 0 || user.lockoutUntil)`
abbrev pub has_failures : User → Bool
has_failures u = ltb 0 u.failed_login_attempts || is_some u.lockout_until

abbrev pub update_user : ℕ → (User → User) → AuthDb → AuthDb
update_user id f db = record db { users = update (λ (u : User). u.id) id f db.users }

-- What a call answers that opens a session: the user as it shows it, and the refresh token.
pub record SignedIn (U : Type 0) : Type 0 where
  pub user : U
  pub refresh_token : ℕ

-- `{ user, ...tokens }`
abbrev pub answer_with : {U : Type 0} → U → Result ℕ → Result (SignedIn U)
answer_with shown (err e) = err e
answer_with shown (ok token) = ok (record { user = shown; refresh_token = token })

-- `userWithoutPassword`: every other column of the row
pub record UserWithoutPassword : Type 0 where
  pub id : ℕ
  pub name : ℕ
  pub email : ℕ
  pub phone : ℕ
  pub role : Role
  pub is_verified : Bool
  pub email_verify_token : Option ℕ
  pub email_verify_expires : Option ℕ
  pub password_reset_token : Option ℕ
  pub password_reset_expires : Option ℕ
  pub failed_login_attempts : ℕ
  pub lockout_until : Option ℕ
  pub created_at : ℕ

abbrev pub without_password : User → UserWithoutPassword
without_password u = record {
  id = u.id;
  name = u.name;
  email = u.email;
  phone = u.phone;
  role = u.role;
  is_verified = u.is_verified;
  email_verify_token = u.email_verify_token;
  email_verify_expires = u.email_verify_expires;
  password_reset_token = u.password_reset_token;
  password_reset_expires = u.password_reset_expires;
  failed_login_attempts = u.failed_login_attempts;
  lockout_until = u.lockout_until;
  created_at = u.created_at;
}

-- `login` behind the test of the password; it answers with the row that it read before.
unfoldable pub check_in :
    Crypto → Issue → User → AuthDb → Result (SignedIn UserWithoutPassword) × AuthDb
check_in crypto issue u db =
    let (r, db') =
      generate_tokens crypto issue u.id
        (if has_failures u then update_user u.id clear_failures db else db) in
    (answer_with (without_password u) r, db')

-- `login` where the password is wrong
unfoldable pub refuse_login : ℕ → User → AuthDb → Result (SignedIn UserWithoutPassword) × AuthDb
refuse_login now u db = (
  err (
      unauthorized (
        if leb 5 (u.failed_login_attempts + 1)
        then Reason.too_many_attempts
        else Reason.bad_credentials)),
  update_user u.id (record_failure now (u.failed_login_attempts + 1)) db,
)

-- `login`
unfoldable pub login :
    Crypto → Issue → ℕ → ℕ → AuthDb → Result (SignedIn UserWithoutPassword) × AuthDb
login crypto issue email password db = elim (find_unique (λ (u : User). u.email) email db.users) [
  | none ↦ (err (unauthorized Reason.bad_credentials), db)
  | some u ↦
      if is_locked issue.now u
      then (err (unauthorized Reason.account_locked), db)
      else if crypto.verify_password u.password_hash password
      then check_in crypto issue u db
      else refuse_login issue.now u db
]
