-- ===== src/Auth/Controller.antt =====
-- src/auth/auth.controller.ts: the routes that open and close sessions, with the cookie of the
-- refresh token. A route answers with its result, the cookie that the browser holds afterwards, and
-- the tables; an exception sets no cookie. The access token, which nothing stores, is left out.
use turf_sync.Prelude.{ℕ, ◌*◌, Option, none, some}
use turf_sync.Outcome.{unauthorized, Reason, Result, ok, err}
use turf_sync.Auth.{AuthDb, Crypto, Issue, User, SignedIn, UserWithoutPassword, login}
use turf_sync.Auth.Session.{refresh_tokens, logout, logout_all}
use turf_sync.Auth.Account.{RegisterDto, RegisteredUser, register}
use turf_sync.Auth.Guard
use turf_sync.Auth.Session

-- The cookie `refresh_token`, with `maxAge`.
pub record Cookie : Type 0 where
  pub value : ℕ
  pub max_age : ℕ

-- `refreshTokenOptions`: seven days, whatever JWT_REFRESH_EXPIRES_IN is
abbrev pub refresh_cookie : ℕ → Cookie
refresh_cookie token = record { value = token; max_age = 7 * 24 * 60 * 60 * 1000 }

-- `response.cookie('refresh_token', …)` behind a service call
abbrev pub set_cookie :
    {A : Type 0} → (A → ℕ) → Option Cookie → Result A × AuthDb → Result A × Option Cookie × AuthDb
set_cookie token_of jar (ok a, db) = (ok a, some (refresh_cookie (token_of a)), db)
set_cookie token_of jar (err e, db) = (err e, jar, db)

-- `cookies.refresh_token || body.refreshToken || bearer`
abbrev pub presented : Option Cookie → Option ℕ → Option ℕ → Option ℕ
presented (some c) body bearer = some c.value
presented none (some token) bearer = some token
presented none none bearer = bearer

-- `login` and `register`
unfoldable pub login_route :
    Crypto
    → Issue
    → ℕ
    → ℕ
    → Option Cookie
    → AuthDb
    → Result (SignedIn UserWithoutPassword) × Option Cookie × AuthDb
login_route crypto issue email password jar db =
    set_cookie (λ a. a.refresh_token) jar (login crypto issue email password db)

unfoldable pub register_route :
    Crypto
    → Issue
    → ℕ
    → ℕ
    → RegisterDto
    → Option Cookie
    → AuthDb
    → Result (SignedIn RegisteredUser) × Option Cookie × AuthDb
register_route crypto issue id salt dto jar db =
    set_cookie (λ a. a.refresh_token) jar (register crypto issue id salt dto db)

-- `refresh` behind JwtRefreshGuard, which answers with the user of the session
abbrev pub renew :
    Crypto → Issue → ℕ → Option Cookie → Result User × AuthDb → Result ℕ × Option Cookie × AuthDb
renew crypto issue token jar (err e, db) = (err e, jar, db)
renew crypto issue token jar (ok u, db) =
    set_cookie (λ t. t) jar (refresh_tokens crypto issue u.id token db)

-- `refresh`, behind JwtRefreshGuard
unfoldable pub refresh_route :
    Crypto
    → Issue
    → (ℕ → ℕ → Option ℕ)
    → Option ℕ
    → Option ℕ
    → Option Cookie
    → AuthDb
    → Result ℕ × Option Cookie × AuthDb
refresh_route crypto issue verified body bearer jar db = elim (presented jar body bearer) [
  | none ↦ (err (unauthorized Reason.refresh_token_missing), jar, db)
  | some token ↦
      renew crypto issue token jar (Session.authenticate crypto verified issue.now (some token) db)
]

-- `dto.refreshToken`, else the cookie
abbrev pub closed_token : Option ℕ → Option Cookie → Option ℕ
closed_token (some token) jar = some token
closed_token none none = none
closed_token none (some c) = some c.value

-- `logout`, behind JwtAuthGuard
unfoldable pub logout_route :
    Crypto → ℕ → Option ℕ → Option Cookie → AuthDb → Result (Unit {0}) × Option Cookie × AuthDb
logout_route crypto sub body jar db = elim (Guard.validate sub db) [
  | err e ↦ (err e, jar, db)
  | ok u ↦ elim (closed_token body jar) [
    | none ↦ (ok tt, none, db)
    | some token ↦ (ok tt, none, logout crypto u.id token db)
  ]
]

-- `logoutAll`, behind JwtAuthGuard
unfoldable pub logout_all_route :
    ℕ → Option Cookie → AuthDb → Result (Unit {0}) × Option Cookie × AuthDb
logout_all_route sub jar db = elim (Guard.validate sub db) [
  | err e ↦ (err e, jar, db)
  | ok u ↦ (ok tt, none, logout_all u.id db)
]
