-- ===== src/Admin/Roles.antt =====
-- src/admin/admin.service.ts: there is always an administrator, unless two demote each other at once.
use turf_sync.Prelude.{
  ℕ, ◌≡◌, ◌≢◌, ◌⊎◌, refl, sym, ap, ◌∙◌, inl, inr, arith, true, false, some, List, [], ◌∷◌, ◌==◌,
  IsIn, Bool-cases, subst,
}
use turf_sync.Table.{find_unique, update}
use turf_sync.Table.Laws.{update_many-IsIn}
use turf_sync.Table.Unique.{find_unique-eq-some}
use turf_sync.Outcome.{Result-cases}
use turf_sync.Auth.{AuthDb, User, Role}
use turf_sync.Auth.Guard.{same_role, guarded}
use turf_sync.Admin.{
  admin_demoted_to_user, AuditLog, Office, create_audit_log, set_role, change_user, user_of,
  demote_admin, AdminRequest, serve,
}
use turf_sync.Admin.Audit.{change_user-user_of, refused, changed, handle-Handling, guarded-eq-ok}

-- The requests of administrators, one after the other.
unfoldable pub serve_all : List (ℕ × AdminRequest) → Office → Office
serve_all [] o = o
serve_all ((sub, r) ∷ rs) o = serve_all rs (serve r sub o).1

abbrev pub HasAdmin : Office → Type 0
HasAdmin o = (u : User) × IsIn u o.accounts.users × (u.role ≡ Role.admin)

create_audit_log-accounts :
    (log : AuditLog) (o : Office) → (create_audit_log log o).1.accounts ≡ o.accounts
unfolding create_audit_log
create_audit_log-accounts log o = ground arith

serve-HasAdmin : (r : AdminRequest) (sub : ℕ) (o : Office) → HasAdmin o → HasAdmin (serve r sub o).1
unfolding serve
serve-HasAdmin r sub o has = elim (Result-cases (guarded (Role.admin ∷ []) sub o.accounts)) [
  | inr (e, h) ↦ rw (h, serve) has
  | inl (u, h) ↦
      let (f, admin) = guarded-eq-ok sub o.accounts u h in
      let (_, id) = find_unique-eq-some (λ (x : User). x.id) sub u o.accounts.users f in
      elim (handle-Handling r u.id o) [
        | refused e k ↦ rw (h, serve, k) has
        | changed log o' k n a t same logs ↦
            let still : user_of u.id o' ≡ some u = same ∙ ap (λ q. user_of q o) id ∙ f in
            let (m, _) = find_unique-eq-some (λ (x : User). x.id) u.id u o'.accounts.users still in
            rw (h, serve, k)
              (
                u,
                subst (λ (x : AuthDb). IsIn u x.users) (sym (create_audit_log-accounts log o')) m,
                admin,
              )
      ]
]

-- Requests to the administration routes that are served one after the other, by whatever callers,
-- leave an administrator if there is one.
pub serve_all-HasAdmin :
    (rs : List (ℕ × AdminRequest)) (o : Office) → HasAdmin o → HasAdmin (serve_all rs o)
unfolding serve_all
serve_all-HasAdmin [] o has = has
serve_all-HasAdmin ((sub, r) ∷ rs) o has =
    serve_all-HasAdmin rs (serve r sub o).1 (serve-HasAdmin r sub o has)

demote_admin-accounts :
    (log_id k admin_id : ℕ) (u : User) (o : Office)
    → k ≢ admin_id
    → user_of k o ≡ some u
    → u.role ≡ Role.admin
    → (demote_admin log_id k admin_id o).1.accounts
      ≡ (change_user k (set_role Role.user) o).accounts
unfolding demote_admin
demote_admin-accounts log_id k admin_id u o ne f r =
    let other : (k == admin_id) ≡ false = ground arith in
    let is_admin : same_role u.role Role.admin ≡ true = ap (λ x. same_role x Role.admin) r in
    rw (other, f, is_admin)
      (create_audit_log-accounts
        (record { id = log_id; admin_id = admin_id; action = admin_demoted_to_user; target_id = k })
        (change_user k (set_role Role.user) o))

demoted-IsIn :
    (k : ℕ) (o : Office) (x : User)
    → IsIn x (change_user k (set_role Role.user) o).accounts.users
    → x.role ≡ Role.admin
    → IsIn x o.accounts.users × (x.id ≢ k)
unfolding update
demoted-IsIn k o x m r =
    let (y, n, e) =
      update_many-IsIn (λ (z : User). z.id == k) (set_role Role.user) x o.accounts.users m in
    elim (Bool-cases (y.id == k)) [
      | inl t ↦
          let same : x ≡ set_role Role.user y = rw t at e in
          let role : x.role ≡ Role.user = ap (λ (z : User). z.role) same in absurd (cc)
      | inr f ↦
          let same : x ≡ y = rw f at e in
          (
            subst (λ (z : User). IsIn z o.accounts.users) (sym same) n,
            λ h. absurd (ground (arith, ap (λ (z : User). z.id) same, h, f)),
          )
    ]

-- Two administrators, the only ones, demote each other, and both have passed the guards before either
-- is demoted: then there is no administrator.
demote_admin_race :
    (first_log second_log a b : ℕ) (u v : User) (o : Office)
    → a ≢ b
    → user_of a o ≡ some u
    → user_of b o ≡ some v
    → u.role ≡ Role.admin
    → v.role ≡ Role.admin
    → ((x : User) → IsIn x o.accounts.users → x.role ≡ Role.admin → (x.id ≡ a) ⊎ (x.id ≡ b))
    → ¬ HasAdmin (demote_admin second_log a b (demote_admin first_log b a o).1).1
demote_admin_race first_log second_log a b u v o ne fa fb ra rb only (x, m, r) =
    let o' = (demote_admin first_log b a o).1 in
    let first = demote_admin-accounts first_log b a v o (λ h. ne (sym h)) fb rb in
    let other : (b == a) ≡ false = ground arith in
    let still : user_of a o' ≡ some u =
      ap (λ (z : AuthDb). find_unique (λ (y : User). y.id) a z.users) first
      ∙ change_user-user_of b a (set_role Role.user) o (λ y. refl) other
      ∙ fa in
    let second = demote_admin-accounts second_log a b u o' ne still ra in
    let (n, not_a) = demoted-IsIn a o' x (subst (λ (z : AuthDb). IsIn x z.users) second m) r in
    let (k, not_b) = demoted-IsIn b o x (subst (λ (z : AuthDb). IsIn x z.users) first n) r in
    elim (only x k r) [ inl e ↦ not_a e | inr e ↦ not_b e ]
