-- ===== src/Auth/Guard.antt =====
-- src/auth/strategies/jwt.strategy.ts and src/common/guards/roles.guard.ts: who may call a route. The
-- token of the request is verified by passport-jwt, so the caller is the number in its payload.
use turf_sync.Prelude.{ℕ, Bool, true, false, ◌||◌, Option, none, some, List, [], ◌∷◌, if◌then◌else◌}
use turf_sync.Table.{find_unique}
use turf_sync.Outcome.{unauthorized, forbidden, Reason, Result, ok, err}
use turf_sync.Auth.{AuthDb, User, Role}

abbrev pub same_role : Role → Role → Bool
same_role Role.admin Role.admin = true
same_role Role.user Role.user = true
same_role _ _ = false

abbrev pub has_role : List Role → Role → Bool
has_role [] r = false
has_role (x ∷ xs) r = same_role x r || has_role xs r

-- `JwtStrategy.validate`
unfoldable pub validate : ℕ → AuthDb → Result User
validate sub db = elim (find_unique (λ (u : User). u.id) sub db.users) [
  | none ↦ err (unauthorized Reason.user_not_found)
  | some u ↦ ok u
]

-- `RolesGuard.canActivate`, of the roles that the route requires and the user of the request
unfoldable pub can_activate : Option (List Role) → Option User → Bool
can_activate none u = false
can_activate (some roles) none = false
can_activate (some roles) (some u) = has_role roles u.role

-- `@UseGuards(JwtAuthGuard, RolesGuard)`, `@Roles(...)`: NestJS answers a guard that returns false
-- with a ForbiddenException.
unfoldable pub guarded : List Role → ℕ → AuthDb → Result User
unfolding validate can_activate
guarded roles sub db = elim (validate sub db) [
  | err e ↦ err e
  | ok u ↦
      if can_activate (some roles) (some u) then ok u else err (forbidden Reason.forbidden_resource)
]
