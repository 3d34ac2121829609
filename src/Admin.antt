-- ===== src/Admin.antt =====
-- src/admin/admin.service.ts: the operations of AdminService that change rows, with their audit
-- logs, and the guards of src/admin/admin.controller.ts in front of them. The queries of a handler run
-- outside transactions: what one has written when a later one throws stays written.
pub mod Audit
pub mod Roles
pub mod Revenue
pub mod Periods
pub mod Totals
pub mod Reports
pub mod Ranges
pub mod Records
pub mod Privacy
pub mod Takings
pub mod Popular
use turf_sync.Prelude.{
  ℕ, Bool, true, false, not, ◌||◌, Option, none, some, List, [], ◌∷◌, ◌==◌, if◌then◌else◌, is_some,
}
use turf_sync.Table.{find_first, find_unique, update}
use turf_sync.Schema.{Db, Booking, BookingStatus}
use turf_sync.Outcome.{
  bad_request, not_found, known_request_error, unique_violation, foreign_key_violation, Reason,
  Result, ok, err,
}
use turf_sync.Auth.{AuthDb, User, Role, update_user}
use turf_sync.Auth.Guard.{same_role, guarded}
use turf_sync.Booking.Complete.{complete_booking}

-- The `action` of an audit log, with its `details`.
pub data Action : Type 0 where
  user_status_toggled : Bool → Bool → Action
  user_promoted_to_admin : Role → Action
  admin_demoted_to_user : Action
  booking_completed : Action

pub record AuditLog : Type 0 where
  pub id : ℕ
  pub admin_id : ℕ
  pub action : Action
  pub target_id : ℕ

-- All tables that the service writes.
pub record Office : Type 0 where
  pub accounts : AuthDb
  pub tables : Db
  pub audit_logs : List AuditLog

-- `createAuditLog`: the index on the number, and the foreign key to the administrator
unfoldable pub create_audit_log : AuditLog → Office → Result (Unit {0}) × Office
create_audit_log log o =
    if is_some (find_first (λ (l : AuditLog). l.id == log.id) o.audit_logs)
    then (err (known_request_error unique_violation), o)
    else if is_some (find_unique (λ (u : User). u.id) log.admin_id o.accounts.users)
    then (ok tt, record o { audit_logs = log ∷ o.audit_logs })
    else (err (known_request_error foreign_key_violation), o)

abbrev pub set_verified : Bool → User → User
set_verified v u = record u { is_verified = v }

abbrev pub set_role : Role → User → User
set_role r u = record u { role = r }

abbrev pub change_user : ℕ → (User → User) → Office → Office
change_user id f o = record o { accounts = update_user id f o.accounts }

abbrev pub user_of : ℕ → Office → Option User
user_of id o = find_unique (λ (u : User). u.id) id o.accounts.users

-- `toggleUserStatus`
unfoldable pub toggle_user_status : ℕ → ℕ → ℕ → Office → Result (Unit {0}) × Office
toggle_user_status log_id user_id admin_id o =
    if user_id == admin_id
    then (err (bad_request Reason.own_account), o)
    else elim (user_of user_id o) [
      | none ↦ (err (not_found Reason.user_not_found), o)
      | some u ↦
          create_audit_log
            (record {
              id = log_id;
              admin_id = admin_id;
              action = user_status_toggled u.is_verified (not u.is_verified);
              target_id = user_id;
            })
            (change_user user_id (set_verified (not u.is_verified)) o)
    ]

-- `makeAdmin`
unfoldable pub make_admin : ℕ → ℕ → ℕ → Office → Result (Unit {0}) × Office
make_admin log_id user_id admin_id o =
    if user_id == admin_id
    then (err (bad_request Reason.own_account), o)
    else elim (user_of user_id o) [
      | none ↦ (err (not_found Reason.user_not_found), o)
      | some u ↦
          if same_role u.role Role.admin
          then (err (bad_request Reason.already_admin), o)
          else create_audit_log
              (record {
                id = log_id;
                admin_id = admin_id;
                action = user_promoted_to_admin u.role;
                target_id = user_id;
              })
              (change_user user_id (set_role Role.admin) o)
    ]

-- `demoteAdmin`
unfoldable pub demote_admin : ℕ → ℕ → ℕ → Office → Result (Unit {0}) × Office
demote_admin log_id user_id admin_id o =
    if user_id == admin_id
    then (err (bad_request Reason.own_account), o)
    else elim (user_of user_id o) [
      | none ↦ (err (not_found Reason.user_not_found), o)
      | some u ↦
          if same_role u.role Role.admin
          then create_audit_log
              (record {
                id = log_id;
                admin_id = admin_id;
                action = admin_demoted_to_user;
                target_id = user_id;
              })
              (change_user user_id (set_role Role.user) o)
          else (err (bad_request Reason.not_admin), o)
    ]

-- `completeBooking`
unfoldable pub complete_with_log : ℕ → ℕ → ℕ → Office → Result (Unit {0}) × Office
complete_with_log log_id booking_id admin_id o = elim (complete_booking booking_id o.tables) [
  | err e ↦ (err e, o)
  | ok (done, db) ↦
      create_audit_log
        (record {
          id = log_id;
          admin_id = admin_id;
          action = booking_completed;
          target_id = booking_id;
        })
        (record o { tables = db })
]

-- The requests of AdminController that change rows; the first number is that of the audit log.
pub data AdminRequest : Type 0 where
  toggles promotes demotes completes : ℕ → ℕ → AdminRequest

abbrev pub handle : AdminRequest → ℕ → Office → Result (Unit {0}) × Office
handle (toggles log_id id) admin_id o = toggle_user_status log_id id admin_id o
handle (promotes log_id id) admin_id o = make_admin log_id id admin_id o
handle (demotes log_id id) admin_id o = demote_admin log_id id admin_id o
handle (completes log_id id) admin_id o = complete_with_log log_id id admin_id o

-- A route of AdminController, for the caller `sub`.
unfoldable pub serve : AdminRequest → ℕ → Office → Result (Unit {0}) × Office
serve r sub o = elim (guarded (Role.admin ∷ []) sub o.accounts) [
  | err e ↦ (err e, o)
  | ok u ↦ handle r u.id o
]
