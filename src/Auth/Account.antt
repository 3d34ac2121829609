-- ===== src/Auth/Account.antt =====
-- src/auth/auth.service.ts: registration, the profile, e-mail verification and password reset.
use turf_sync.Prelude.{
  ℕ, ◌+◌, ◌*◌, Bool, true, false, not, Option, none, some, ◌∷◌, ltb, ◌==◌, ◌&&◌, ◌||◌,
  if◌then◌else◌, is_some,
}
use turf_sync.Table.{find_first, find_unique}
use turf_sync.Outcome.{
  bad_request, conflict, known_request_error, record_not_found, unique_violation, Reason, Result,
  ok, err,
}
use turf_sync.Auth.{
  SignedIn, answer_with, AuthDb, Crypto, Issue, Role, User, generate_tokens, update_user,
}
use turf_sync.Auth.Session.{logout_all}

pub record RegisterDto : Type 0 where
  pub name : ℕ
  pub email : ℕ
  pub phone : ℕ
  pub password : ℕ

-- The row that `register` inserts, with the defaults of the schema.
abbrev pub new_user : ℕ → ℕ → RegisterDto → ℕ → User
new_user id now dto password_hash = record {
  id = id;
  name = dto.name;
  email = dto.email;
  phone = dto.phone;
  password_hash = password_hash;
  role = Role.user;
  is_verified = false;
  email_verify_token = none;
  email_verify_expires = none;
  password_reset_token = none;
  password_reset_expires = none;
  failed_login_attempts = 0;
  lockout_until = none;
  created_at = now;
}

abbrev pub has_contact : ℕ → ℕ → User → Bool
has_contact email phone u = u.email == email || u.phone == phone

-- What `register` selects of the row that it inserted.
pub record RegisteredUser : Type 0 where
  pub id : ℕ
  pub name : ℕ
  pub email : ℕ
  pub phone : ℕ
  pub role : Role
  pub created_at : ℕ

abbrev pub registered_user : User → RegisteredUser
registered_user u = record {
  id = u.id;
  name = u.name;
  email = u.email;
  phone = u.phone;
  role = u.role;
  created_at = u.created_at;
}

-- The `catch` of `register`.
abbrev pub catch_conflict : Result ℕ → Result ℕ
catch_conflict (err (known_request_error unique_violation)) = err (conflict Reason.contact_taken)
catch_conflict r = r

-- `register`, at the number `id` of the new row and the salt of its hash. After the test of the
-- address and the phone number, the columns of a number or a token are the only unique ones that can
-- be violated; `generateTokens` is in the same `try`, behind the insertion.
unfoldable pub register :
    Crypto → Issue → ℕ → ℕ → RegisterDto → AuthDb → Result (SignedIn RegisteredUser) × AuthDb
register crypto issue id salt dto db =
    elim (find_first (has_contact dto.email dto.phone) db.users) [
      | some u ↦ (
        err (conflict (if u.email == dto.email then Reason.email_taken else Reason.phone_taken)),
        db,
      )
      | none ↦
          if is_some (find_unique (λ (u : User). u.id) id db.users)
          then (err (conflict Reason.contact_taken), db)
          else let new = new_user id issue.now dto (crypto.hash_password salt dto.password) in
            let (r, db') = generate_tokens crypto issue id (record db { users = new ∷ db.users }) in
            (answer_with (registered_user new) (catch_conflict r), db')
    ]

abbrev pub is_other_phone : ℕ → ℕ → User → Bool
is_other_phone id phone u = u.phone == phone && not (u.id == id)

-- What `getProfile` selects of a user.
pub record Profile : Type 0 where
  pub id : ℕ
  pub name : ℕ
  pub email : ℕ
  pub phone : ℕ
  pub role : Role
  pub is_verified : Bool
  pub created_at : ℕ

abbrev pub profile_of : User → Profile
profile_of u = record {
  id = u.id;
  name = u.name;
  email = u.email;
  phone = u.phone;
  role = u.role;
  is_verified = u.is_verified;
  created_at = u.created_at;
}

-- `getProfile`
unfoldable pub get_profile : ℕ → AuthDb → Option Profile
get_profile user_id db = elim (find_unique (λ (u : User). u.id) user_id db.users) [
  | none ↦ none
  | some u ↦ some (profile_of u)
]

-- `updateProfile`
unfoldable pub update_profile : ℕ → ℕ → ℕ → AuthDb → Result (Unit {0}) × AuthDb
update_profile id name phone db =
    if is_some (find_first (is_other_phone id phone) db.users)
    then (err (conflict Reason.phone_taken), db)
    else if is_some (find_unique (λ (u : User). u.id) id db.users)
    then (ok tt, update_user id (λ u. record u { name = name; phone = phone }) db)
    else (err (known_request_error record_not_found), db)

-- `token: …, expires: { gt: now }`
abbrev pub is_current : ℕ → ℕ → Option ℕ → Option ℕ → Bool
is_current now token (some t) (some expires) = t == token && ltb now expires
is_current now token _ _ = false

abbrev pub can_verify : ℕ → ℕ → User → Bool
can_verify now token u = is_current now token u.email_verify_token u.email_verify_expires

abbrev pub mark_verified : User → User
mark_verified u = record u {
  is_verified = true;
  email_verify_token = none;
  email_verify_expires = none;
}

-- `verifyEmail`
unfoldable pub verify_email : ℕ → ℕ → AuthDb → Result (Unit {0}) × AuthDb
verify_email now token db = elim (find_first (can_verify now token) db.users) [
  | none ↦ (err (bad_request Reason.invalid_verify_token), db)
  | some u ↦ (ok tt, update_user u.id mark_verified db)
]

abbrev pub offer_reset : ℕ → ℕ → User → User
offer_reset now token u = record u {
  password_reset_token = some token;
  password_reset_expires = some (now + 60 * 60 * 1000);
}

-- `forgotPassword`, with the random token, and the mail that it sends; it answers the same whether
-- there is an account or not.
unfoldable pub forgot_password : ℕ → ℕ → ℕ → AuthDb → Option (ℕ × ℕ) × AuthDb
forgot_password now token email db = elim (find_unique (λ (u : User). u.email) email db.users) [
  | none ↦ (none, db)
  | some u ↦ (some (u.email, token), update_user u.id (offer_reset now token) db)
]

abbrev pub can_reset : ℕ → ℕ → User → Bool
can_reset now token u = is_current now token u.password_reset_token u.password_reset_expires

abbrev pub set_password : ℕ → User → User
set_password password_hash u = record u {
  password_hash = password_hash;
  password_reset_token = none;
  password_reset_expires = none;
  failed_login_attempts = 0;
  lockout_until = none;
}

-- `resetPassword`
unfoldable pub reset_password : Crypto → ℕ → ℕ → ℕ → ℕ → AuthDb → Result (Unit {0}) × AuthDb
reset_password crypto now salt token password db =
    elim (find_first (can_reset now token) db.users) [
      | none ↦ (err (bad_request Reason.invalid_reset_token), db)
      | some u ↦ (
        ok tt,
        logout_all u.id (update_user u.id (set_password (crypto.hash_password salt password)) db),
      )
    ]
