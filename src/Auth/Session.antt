-- ===== src/Auth/Session.antt =====
-- src/auth/auth.service.ts and src/auth/strategies/jwt-refresh.strategy.ts: the life of refresh
-- tokens after the login.
use turf_sync.Prelude.{ℕ, Bool, Option, none, some, ltb, ◌==◌, ◌&&◌, if◌then◌else◌}
use turf_sync.Table.{find_first, find_unique, delete_many}
use turf_sync.Outcome.{unauthorized, Reason, Result, ok, err}
use turf_sync.Auth.{AuthDb, Crypto, Issue, RefreshToken, User, generate_tokens}

-- `refreshToken.delete` and `deleteMany`
unfoldable pub delete_tokens : (RefreshToken → Bool) → AuthDb → AuthDb
delete_tokens p db = record db { refresh_tokens = delete_many p db.refresh_tokens }

abbrev pub is_token_of : ℕ → ℕ → RefreshToken → Bool
is_token_of user_id token t = t.token == token && t.user_id == user_id

-- `refreshTokens`
unfoldable pub refresh_tokens : Crypto → Issue → ℕ → ℕ → AuthDb → Result ℕ × AuthDb
refresh_tokens crypto issue user_id old db =
    elim (find_first (is_token_of user_id (crypto.hash_token old)) db.refresh_tokens) [
      | none ↦ (err (unauthorized Reason.invalid_refresh_token), db)
      | some t ↦
          let db' = delete_tokens (λ (x : RefreshToken). x.id == t.id) db in
          elim (find_unique (λ (u : User). u.id) user_id db'.users) [
            | none ↦ (err (unauthorized Reason.user_not_found), db')
            | some u ↦ generate_tokens crypto issue u.id db'
          ]
    ]

-- `logout`
unfoldable pub logout : Crypto → ℕ → ℕ → AuthDb → AuthDb
logout crypto user_id token db = delete_tokens (is_token_of user_id (crypto.hash_token token)) db

-- `logoutAll`
unfoldable pub logout_all : ℕ → AuthDb → AuthDb
logout_all user_id db = delete_tokens (λ (t : RefreshToken). t.user_id == user_id) db

-- `cleanupExpiredTokens`
unfoldable pub cleanup_expired_tokens : ℕ → AuthDb → AuthDb
cleanup_expired_tokens now db = delete_tokens (λ (t : RefreshToken). ltb t.expires_at now) db

-- `JwtRefreshStrategy.validate`, on a token that was signed for the user `sub`
unfoldable pub validate : Crypto → ℕ → ℕ → Option ℕ → AuthDb → Result User × AuthDb
validate crypto now sub none db = (err (unauthorized Reason.refresh_token_missing), db)
validate crypto now sub (some token) db =
    elim (find_unique (λ (t : RefreshToken). t.token) (crypto.hash_token token) db.refresh_tokens) [
      | none ↦ (err (unauthorized Reason.token_reused), logout_all sub db)
      | some t ↦
          if ltb t.expires_at now
          then (
            err (unauthorized Reason.refresh_token_expired),
            delete_tokens (λ (x : RefreshToken). x.id == t.id) db,
          )
          else elim (find_unique (λ (u : User). u.id) t.user_id db.users) [
            | none ↦ (err (unauthorized Reason.user_not_found), db)
            | some u ↦ (ok u, db)
          ]
    ]

-- `JwtRefreshGuard`, with `ignoreExpiration: false`. `verified` is the check of passport-jwt, at a time,
-- of the signature and the expiry of a token: the user that it was signed for, or a refusal. Where there
-- is no token, or it is refused, `validate` does not run.
unfoldable pub authenticate :
    Crypto → (ℕ → ℕ → Option ℕ) → ℕ → Option ℕ → AuthDb → Result User × AuthDb
unfolding validate
authenticate crypto verified now none db = (err (unauthorized Reason.refresh_token_missing), db)
authenticate crypto verified now (some token) db = elim (verified now token) [
  | none ↦ (err (unauthorized Reason.jwt_refused), db)
  | some sub ↦ validate crypto now sub (some token) db
]
