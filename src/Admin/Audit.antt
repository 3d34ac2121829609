-- ===== src/Admin/Audit.antt =====
-- src/admin/admin.service.ts: what an administrator changes, and what is written down of it.
use turf_sync.Prelude.{
  ℕ, ◌≡◌, ◌≢◌, ◌⊎◌, refl, sym, ap, ◌∙◌, inl, inr, arith, true, false, not, some, [], ◌∷◌, ◌==◌,
  IsIn, Bool-cases, Option-cases, ==_iff, subst,
}
use turf_sync.Table.{find_first, find_unique}
use turf_sync.Table.Laws.{find_first-eq-some}
use turf_sync.Table.Unique.{find_unique-eq-some, find_unique-update_ne}
use turf_sync.Outcome.{
  bad_request, forbidden, not_found, Reason, Exception, Result, ok, err, Result-cases,
}
use turf_sync.Auth.{AuthDb, User, Role}
use turf_sync.Auth.Guard.{same_role, has_role, validate, can_activate, guarded}
use turf_sync.Booking.Complete.{complete_booking}
use turf_sync.Admin.{
  user_status_toggled, user_promoted_to_admin, admin_demoted_to_user, booking_completed, AuditLog,
  Office, create_audit_log, set_verified, set_role, change_user, user_of, toggle_user_status,
  make_admin, demote_admin, complete_with_log, AdminRequest, toggles, promotes, demotes, completes,
  handle, serve,
}

abbrev pub log_number : AdminRequest → ℕ
log_number (toggles log_id id) = log_id
log_number (promotes log_id id) = log_id
log_number (demotes log_id id) = log_id
log_number (completes log_id id) = log_id

abbrev pub target : AdminRequest → ℕ
target (toggles log_id id) = id
target (promotes log_id id) = id
target (demotes log_id id) = id
target (completes log_id id) = id

-- How a request of the administrator `a` is handled: it is refused and changes nothing, or it makes
-- a change that leaves the administrator's account and the logs alone, and logs it.
pub data Handling (r : AdminRequest) (a : ℕ) (o : Office) (result : Result (Unit {0}) × Office)
    : Type 0 where
  refused : (e : Exception) → result ≡ (err e, o) → Handling r a o result
  changed :
      (log : AuditLog) (o' : Office)
      → result ≡ create_audit_log log o'
      → log.id ≡ log_number r
      → log.admin_id ≡ a
      → log.target_id ≡ target r
      → user_of a o' ≡ user_of a o
      → o'.audit_logs ≡ o.audit_logs
      → Handling r a o result

pub change_user-user_of :
    (k a : ℕ) (f : User → User) (o : Office)
    → ((u : User) → (f u).id ≡ u.id)
    → (k == a) ≡ false
    → user_of a (change_user k f o) ≡ user_of a o
change_user-user_of k a f o same ne =
    find_unique-update_ne (λ (u : User). u.id) f a k o.accounts.users same
      (λ e. ground (arith, e, ne))

pub handle-Handling : (r : AdminRequest) (a : ℕ) (o : Office) → Handling r a o (handle r a o)
unfolding toggle_user_status make_admin demote_admin complete_with_log
handle-Handling (toggles log_id id) a o = elim (Bool-cases (id == a)) [
  | inl t ↦ refused (bad_request Reason.own_account) (rw t refl)
  | inr f ↦ elim (Option-cases (user_of id o)) [
    | inl n ↦ refused (not_found Reason.user_not_found) (rw (f, n) refl)
    | inr (u, e) ↦
        changed
          (record {
            id = log_id;
            admin_id = a;
            action = user_status_toggled u.is_verified (not u.is_verified);
            target_id = id;
          })
          (change_user id (set_verified (not u.is_verified)) o) (rw (f, e) refl) refl refl refl
          (change_user-user_of id a (set_verified (not u.is_verified)) o (λ x. refl) f) refl
  ]
]
handle-Handling (promotes log_id id) a o = elim (Bool-cases (id == a)) [
  | inl t ↦ refused (bad_request Reason.own_account) (rw t refl)
  | inr f ↦ elim (Option-cases (user_of id o)) [
    | inl n ↦ refused (not_found Reason.user_not_found) (rw (f, n) refl)
    | inr (u, e) ↦ elim (Bool-cases (same_role u.role Role.admin)) [
      | inl t ↦ refused (bad_request Reason.already_admin) (rw (f, e, t) refl)
      | inr g ↦
          changed
            (record {
              id = log_id;
              admin_id = a;
              action = user_promoted_to_admin u.role;
              target_id = id;
            })
            (change_user id (set_role Role.admin) o) (rw (f, e, g) refl) refl refl refl
            (change_user-user_of id a (set_role Role.admin) o (λ x. refl) f) refl
    ]
  ]
]
handle-Handling (demotes log_id id) a o = elim (Bool-cases (id == a)) [
  | inl t ↦ refused (bad_request Reason.own_account) (rw t refl)
  | inr f ↦ elim (Option-cases (user_of id o)) [
    | inl n ↦ refused (not_found Reason.user_not_found) (rw (f, n) refl)
    | inr (u, e) ↦ elim (Bool-cases (same_role u.role Role.admin)) [
      | inr g ↦ refused (bad_request Reason.not_admin) (rw (f, e, g) refl)
      | inl t ↦
          changed
            (record { id = log_id; admin_id = a; action = admin_demoted_to_user; target_id = id })
            (change_user id (set_role Role.user) o) (rw (f, e, t) refl) refl refl refl
            (change_user-user_of id a (set_role Role.user) o (λ x. refl) f) refl
    ]
  ]
]
handle-Handling (completes log_id id) a o = elim (Result-cases (complete_booking id o.tables)) [
  | inr (e, h) ↦ refused e (rw (h, complete_with_log) refl)
  | inl ((done, db), h) ↦
      changed (record { id = log_id; admin_id = a; action = booking_completed; target_id = id })
        (record o { tables = db }) (rw (h, complete_with_log) refl) refl refl refl refl refl
]

has_role-admin : (r : Role) → has_role (Role.admin ∷ []) r ≡ true → r ≡ Role.admin
has_role-admin Role.admin h = refl
has_role-admin Role.user h = cc

-- The guards let a caller pass only if the account is an administrator's.
pub guarded-eq-ok :
    (sub : ℕ) (db : AuthDb) (u : User)
    → guarded (Role.admin ∷ []) sub db ≡ ok u
    → (find_unique (λ (x : User). x.id) sub db.users ≡ some u) × (u.role ≡ Role.admin)
unfolding guarded validate can_activate
guarded-eq-ok sub db u e = elim (Option-cases (find_unique (λ (x : User). x.id) sub db.users)) [
  | inl n ↦ absurd (ground arith)
  | inr (x, f) ↦ elim (Bool-cases (has_role (Role.admin ∷ []) x.role)) [
    | inr g ↦
        let h : err (forbidden Reason.forbidden_resource) ≡ ok u = rw (f, guarded, g) at e in
        absurd (cc)
    | inl t ↦
        let h : ok x ≡ ok u = rw (f, guarded, t) at e in
        let same : x ≡ u = cc in
        (f ∙ ap some same, ap (λ (y : User). y.role) (sym same) ∙ has_role-admin x.role t)
  ]
]

create_audit_log-fresh :
    (log : AuditLog) (o : Office) (u : User)
    → ((l : AuditLog) → IsIn l o.audit_logs → l.id ≢ log.id)
    → user_of log.admin_id o ≡ some u
    → create_audit_log log o ≡ (ok tt, record o { audit_logs = log ∷ o.audit_logs })
unfolding create_audit_log
create_audit_log-fresh log o u fresh e =
    elim (Option-cases (find_first (λ (l : AuditLog). l.id == log.id) o.audit_logs)) [
      | inr (l, f) ↦
          let (m, t) = find_first-eq-some (λ (x : AuditLog). x.id == log.id) l o.audit_logs f in
          absurd (fresh l m ((==_iff l.id log.id).0 t))
      | inl n ↦ rw (n, e) refl
    ]

-- A request to an administration route, with a number for its audit log that no log has: either it is
-- refused, and no table changes; or it succeeds, and one audit log is added, with the caller, the
-- target of the request, and that number.
pub serve_audited :
    (r : AdminRequest) (sub : ℕ) (o : Office)
    → ((l : AuditLog) → IsIn l o.audit_logs → l.id ≢ log_number r)
    → ((e : Exception) × (serve r sub o ≡ (err e, o)))
      ⊎ ((log : AuditLog) × ((serve r sub o).0 ≡ ok tt)
          × ((serve r sub o).1.audit_logs ≡ log ∷ o.audit_logs)
          × (log.id ≡ log_number r)
          × (log.admin_id ≡ sub)
          × (log.target_id ≡ target r))
unfolding serve
serve_audited r sub o fresh = elim (Result-cases (guarded (Role.admin ∷ []) sub o.accounts)) [
  | inr (e, h) ↦ inl (e, rw (h, serve) refl)
  | inl (u, h) ↦
      let (f, admin) = guarded-eq-ok sub o.accounts u h in
      let (m, id) = find_unique-eq-some (λ (x : User). x.id) sub u o.accounts.users f in
      elim (handle-Handling r u.id o) [
        | refused e k ↦ inl (e, rw (h, serve) k)
        | changed log o' k n a t same logs ↦
            let caller : user_of log.admin_id o' ≡ some u =
              ap (λ q. user_of q o') a ∙ same ∙ ap (λ q. user_of q o) id ∙ f in
            let added =
              create_audit_log-fresh log o' u
                (λ l m e. fresh l (subst (λ ls. IsIn l ls) logs m) (e ∙ n)) caller in
            let whole : serve r sub o ≡ (ok tt, record o' { audit_logs = log ∷ o'.audit_logs }) =
              rw (h, serve) (k ∙ added) in
            inr (
              log,
              ap (λ z. z.0) whole,
              ap (λ z. z.1.audit_logs) whole ∙ ap (λ ls. log ∷ ls) logs,
              n,
              a ∙ id,
              t,
            )
      ]
]
