-- ===== src/Outcome.antt =====
-- What a call of a service ends in: a value or an exception of NestJS or Prisma. Each exception
-- class is a constructor, and the message it carries an enumerated reason.
use turf_sync.Prelude.{◌≡◌, refl, Bool, true, false, Option, none, some, arith, ◌⊎◌, inl, inr}
use turf_sync.Schema.{Db}

pub data Reason : Type 0 where
  past_date too_far_ahead slot_locked slot_not_found turf_inactive slot_already_booked
        user_already_booked booking_not_found not_your_booking already_cancelled :
      Reason
  payment_not_found not_confirmed payment_completed not_paid slot_started invalid_signature : Reason
  coupon_invalid coupon_expired coupon_exhausted coupon_already_used below_minimum coupon_not_found
        coupon_inactive coupon_code_taken coupon_in_use :
      Reason
  bad_credentials account_locked too_many_attempts invalid_refresh_token refresh_token_expired
        refresh_token_missing jwt_refused token_reused user_not_found email_taken phone_taken
        contact_taken invalid_verify_token invalid_reset_token :
      Reason
  turf_exists turf_not_found invalid_date not_completed already_reviewed own_account already_admin
        not_admin forbidden_resource image_too_large invalid_file_type upload_failed image_not_found
        delete_failed invalid_uuid :
      Reason

-- `P2002`, `P2025`, `P2003`, `P2020` and `P2028`
pub data PrismaCode : Type 0 where
  unique_violation record_not_found foreign_key_violation value_out_of_range transaction_error :
      PrismaCode

pub data Exception : Type 0 where
  bad_request not_found forbidden conflict unauthorized internal_server_error : Reason → Exception
  known_request_error : PrismaCode → Exception
  -- thrown by the client of a service outside the repository
  client_error : Exception
  -- thrown by JavaScript, such as by a field of `undefined`
  type_error : Exception

-- `err` is an exception that nothing caught yet.
pub data Result {ℓ} (V : Type ℓ) : Type ℓ where
  err : Exception → Result V
  ok : V → Result V

infixl 5 ◌>>=◌ ◌>>◌
-- `await` of a call: an exception passes the rest of the body by.
abbrev pub ◌>>=◌ {ℓ κ} : {V : Type ℓ} {W : Type κ} → Result V → (V → Result W) → Result W
err thrown >>= rest = err thrown
ok v >>= rest = rest v

-- The same of a call for its effect.
abbrev pub ◌>>◌ {κ} : {W : Type κ} → Result (Unit {0}) → Result W → Result W
call >> rest = call >>= (λ done. rest)

-- `if (test) throw e;`
abbrev pub throw_if : Bool → Exception → Result (Unit {0})
throw_if true e = err e
throw_if false e = ok tt

-- `if (!value) throw e;`
abbrev pub or_throw {ℓ} : {A : Type ℓ} → Option A → Exception → Result A
or_throw none e = err e
or_throw (some a) e = ok a

-- The body of `$transaction`: its writes are kept only where it returns.
abbrev pub Tx : Type 0 → Type 0
Tx A = Db → Result (A × Db)

-- The database after the transaction: rolled back by an exception.
abbrev pub commit : {A : Type 0} → Db → Result (A × Db) → Db
commit db (ok (a, db')) = db'
commit db (err e) = db

abbrev pub is_ok {ℓ} : {A : Type ℓ} → Result A → Bool
is_ok (ok a) = true
is_ok (err e) = false

-- A body that returns has passed each of its calls.
pub >>=-eq-ok {ℓ κ} :
    {V : Type ℓ} {W : Type κ} (call : Result V) (rest : V → Result W) {w : W}
    → (call >>= rest) ≡ ok w
    → (v : V) × (call ≡ ok v) × (rest v ≡ ok w)
>>=-eq-ok (err thrown) rest e = cc
>>=-eq-ok (ok v) rest e = (v, refl, e)

pub throw_if-eq-ok : (b : Bool) (e : Exception) → throw_if b e ≡ ok tt → b ≡ false
throw_if-eq-ok true e h = cc
throw_if-eq-ok false e h = refl

pub or_throw-eq-ok {ℓ} :
    {A : Type ℓ} (o : Option A) (e : Exception) {a : A} → or_throw o e ≡ ok a → o ≡ some a
or_throw-eq-ok none e h = cc
or_throw-eq-ok (some a) e h = ground arith

pub Result-cases {ℓ} :
    {A : Type ℓ} (r : Result A) → ((a : A) × (r ≡ ok a)) ⊎ ((e : Exception) × (r ≡ err e))
Result-cases (ok a) = inl (a, refl)
Result-cases (err e) = inr (e, refl)
