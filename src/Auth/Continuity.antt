-- ===== src/Auth/Continuity.antt =====
-- src/auth/auth.controller.ts: a session that is opened by a login can be renewed with its cookie.
use turf_sync.Prelude.{
  ℕ, ◌+◌, ◌≤◌, ◌≡◌, ◌≢◌, refl, sym, ap, ◌∙◌, subst, inl, inr, arith, Bool, true, false, List,
  Option, none, some, if◌then◌else◌, ◌∷◌, ◌==◌, IsIn, Option-cases, Bool-cases, ltb, ==_refl,
}
use turf_sync.Table.{find_first, find_unique}
use turf_sync.Table.Laws.{find_first-eq-some, delete_many-IsIn}
use turf_sync.Table.Unique.{find_unique-eq-some, find_unique-eq-none}
use turf_sync.Outcome.{Result, ok, err, unauthorized, Reason}
use turf_sync.Auth.{
  AuthDb, Crypto, Issue, RefreshToken, User, SignedIn, UserWithoutPassword, login, generate_tokens,
  issued_row, token_clashes, parse_duration_ms, clear_failures,
}
use turf_sync.Auth.Session.{delete_tokens, is_token_of, refresh_tokens, validate, authenticate}
use turf_sync.Auth.Lockout.{user_of, user_at, login_effect}
use turf_sync.Auth.Controller.{
  Cookie, refresh_cookie, set_cookie, login_route, renew, refresh_route,
}

-- A row that no other clashes with is stored, and the token is answered.
generate_tokens-ok :
    (crypto : Crypto) (issue : Issue) (id : ℕ) (db : AuthDb)
    → ((t : RefreshToken)
        → IsIn t db.refresh_tokens
        → (t.id ≢ issue.id) × (t.token ≢ crypto.hash_token issue.refresh_token))
    → (generate_tokens crypto issue id db).0 ≡ ok issue.refresh_token
unfolding generate_tokens
generate_tokens-ok crypto issue id db fresh =
    elim (Option-cases
      (find_first (token_clashes (issued_row crypto issue id)) db.refresh_tokens)) [
        | inl n ↦ rw (n, generate_tokens) refl
        | inr (t, e) ↦
            let (m, c) =
              find_first-eq-some (token_clashes (issued_row crypto issue id)) t db.refresh_tokens
                e in
            let (a, b) = fresh t m in absurd (ground (arith, a, b, c))
      ]

set_cookie-ok :
    {A : Type 0} (token_of : A → ℕ) (jar jar' : Option Cookie) (r : Result A × AuthDb) (a : A)
    (db' : AuthDb)
    → set_cookie token_of jar r ≡ (ok a, jar', db')
    → (r ≡ (ok a, db')) × (jar' ≡ some (refresh_cookie (token_of a)))
set_cookie-ok token_of jar jar' (ok x, db) a db' e =
    let p : ok x ≡ ok a = ap (λ z. z.0) e in
    let q : some (refresh_cookie (token_of x)) ≡ jar' = ap (λ z. z.1) e in
    let d : db ≡ db' = ap (λ z. z.2) e in
    let same : x ≡ a = cc in (cc, sym q ∙ ap (λ n. some (refresh_cookie (token_of n))) same)
set_cookie-ok token_of jar jar' (err x, db) a db' e =
    let p : err x ≡ ok a = ap (λ z. z.0) e in absurd (cc)

set_cookie_answer :
    {A : Type 0} (token_of : A → ℕ) (jar : Option Cookie) (r : Result A × AuthDb)
    → (set_cookie token_of jar r).0 ≡ r.0
set_cookie_answer token_of jar (ok t, db) = refl
set_cookie_answer token_of jar (err x, db) = refl

-- What `refresh` answers right after a login, at a time that is before the expiry of the JWT or not.
abbrev pub renewed : Bool → ℕ → Result ℕ
renewed true token = ok token
renewed false token = err (unauthorized Reason.jwt_refused)

module _ (crypto : Crypto) (issue later : Issue) (u x : User) (db : AuthDb) where
  abbrev row : RefreshToken
  row = issued_row crypto issue u.id

  -- The strategy accepts the token that was issued last, until it expires.
  validate-issued :
      (rest : List RefreshToken)
      → db.refresh_tokens ≡ row ∷ rest
      → user_at u.id db ≡ some x
      → later.now ≤ issue.now + parse_duration_ms issue.expires_in
      → validate crypto later.now u.id (some issue.refresh_token) db ≡ (ok x, db)
  unfolding validate find_unique find_first
  validate-issued rest e f h =
      let found : find_unique (λ (t : RefreshToken). t.token)
            (crypto.hash_token issue.refresh_token) db.refresh_tokens
          ≡ some row =
        ap
          (λ ts.
            find_unique (λ (t : RefreshToken). t.token) (crypto.hash_token issue.refresh_token) ts)
          e
        ∙ head in
      let current : ltb row.expires_at later.now ≡ false = ground arith in
      rw (found, validate, current, f) refl
    where
      head :
          find_unique
            (λ (t : RefreshToken). t.token)
            (crypto.hash_token issue.refresh_token)
            (row ∷ rest)
          ≡ some row
      head = let same = ==_refl (crypto.hash_token issue.refresh_token) in rw same refl

  -- And a refresh with it is answered with the next token.
  refresh_tokens-issued :
      (rest : List RefreshToken)
      → db.refresh_tokens ≡ row ∷ rest
      → user_at u.id db ≡ some x
      → x.id ≡ u.id
      → ((t : RefreshToken)
          → IsIn t db.refresh_tokens
          → (t.id ≢ later.id) × (t.token ≢ crypto.hash_token later.refresh_token))
      → (refresh_tokens crypto later x.id issue.refresh_token db).0 ≡ ok later.refresh_token
  unfolding refresh_tokens find_first delete_tokens
  refresh_tokens-issued rest e f i fresh =
      let p = is_token_of x.id (crypto.hash_token issue.refresh_token) in
      let mine : p row ≡ true = ground (arith, i) in
      let found : find_first p db.refresh_tokens ≡ some row =
        ap (λ ts. find_first p ts) e ∙ rw mine refl in
      let spent = delete_tokens (λ (t : RefreshToken). t.id == row.id) db in
      let user : user_at x.id spent ≡ some x = ap (λ n. user_at n db) i ∙ f in
      rw (found, refresh_tokens, user)
        (generate_tokens-ok crypto later x.id spent (λ t m.
          fresh t
            (delete_many-IsIn (λ (y : RefreshToken). y.id == row.id) t db.refresh_tokens m).0))

  -- Both are joined by the route, where the JWT has not expired; where it has, the guard refuses.
  refresh_route-issued :
      (verified : ℕ → ℕ → Option ℕ) (expiry : ℕ) (body bearer : Option ℕ) (rest : List RefreshToken)
      → db.refresh_tokens ≡ row ∷ rest
      → user_at u.id db ≡ some x
      → x.id ≡ u.id
      → verified later.now issue.refresh_token ≡ (if ltb later.now expiry then some u.id else none)
      → later.now ≤ issue.now + parse_duration_ms issue.expires_in
      → ((t : RefreshToken)
          → IsIn t db.refresh_tokens
          → (t.id ≢ later.id) × (t.token ≢ crypto.hash_token later.refresh_token))
      → (refresh_route crypto later verified body bearer
          (some (refresh_cookie issue.refresh_token))
          db).0
        ≡ renewed (ltb later.now expiry) later.refresh_token
  unfolding refresh_route authenticate
  refresh_route-issued verified expiry body bearer rest e f i alive h fresh =
      let jar = some (refresh_cookie issue.refresh_token) in
      elim (Bool-cases (ltb later.now expiry)) [
        | inl t ↦
            let signed : verified later.now issue.refresh_token ≡ some u.id = rw t at alive in
            let v : authenticate crypto verified later.now (some issue.refresh_token) db
                ≡ (ok x, db) =
              rw (signed, authenticate) (validate-issued rest e f h) in
            rw t (
              ap (λ z. (renew crypto later issue.refresh_token jar z).0) v
              ∙ set_cookie_answer (λ n. n) jar
                  (refresh_tokens crypto later x.id issue.refresh_token db)
              ∙ refresh_tokens-issued rest e f i fresh)
        | inr n ↦
            let expired : verified later.now issue.refresh_token ≡ none = rw n at alive in
            let v : authenticate crypto verified later.now (some issue.refresh_token) db
                ≡ (err (unauthorized Reason.jwt_refused), db) =
              rw (expired, authenticate) refl in
            rw n (ap (λ z. (renew crypto later issue.refresh_token jar z).0) v)
      ]

-- A login that is answered sets the cookie of the token that it answers with. Right after it, at a
-- time up to the end of the stored session, a request to `refresh` with that cookie, whatever the body
-- and the header hold, is answered with the next token as long as the JWT has not expired, and refused
-- from then on; provided that passport-jwt accepts the token for the user of the login exactly before
-- the expiry of the JWT, which is any time here, before the end of the session or after it, and that the
-- number and the hash of the next token are those of no stored one.
pub login_route-refresh_route :
    (crypto : Crypto) (issue later : Issue) (verified : ℕ → ℕ → Option ℕ)
    (email password expiry : ℕ) (u : User) (answer : SignedIn UserWithoutPassword)
    (jar jar' : Option Cookie) (body bearer : Option ℕ) (db db' : AuthDb)
    → user_of email db ≡ some u
    → login_route crypto issue email password jar db ≡ (ok answer, jar', db')
    → verified later.now answer.refresh_token ≡ (if ltb later.now expiry then some u.id else none)
    → later.now ≤ issue.now + parse_duration_ms issue.expires_in
    → ((t : RefreshToken)
        → IsIn t db'.refresh_tokens
        → (t.id ≢ later.id) × (t.token ≢ crypto.hash_token later.refresh_token))
    → (jar' ≡ some (refresh_cookie answer.refresh_token))
      × ((refresh_route crypto later verified body bearer jar' db').0
          ≡ renewed (ltb later.now expiry) later.refresh_token)
unfolding login_route
login_route-refresh_route crypto issue later verified email password expiry u answer jar jar' body
      bearer db db' known e alive h fresh =
    let (l, c) =
      set_cookie-ok (λ (a : SignedIn UserWithoutPassword). a.refresh_token) jar jar'
        (login crypto issue email password db) answer db' e in
    let (x, f, _, _, _, signed, g, ts) = login_effect crypto issue email password answer db db' l in
    let same : x ≡ u = ground arith in
    let rows : db'.refresh_tokens ≡ issued_row crypto issue u.id ∷ db.refresh_tokens =
      ts ∙ ap (λ (y : User). issued_row crypto issue y.id ∷ db.refresh_tokens) same in
    let (m, _) = find_unique-eq-some (λ (y : User). y.email) email (clear_failures x) db'.users g in
    let own = ap (λ (y : User). y.id) same in
    elim (Option-cases (user_at u.id db')) [
      | inl n ↦
          absurd
            (find_unique-eq-none (λ (y : User). y.id) u.id (clear_failures x) db'.users n m own)
      | inr (w, k) ↦
          let (_, i) = find_unique-eq-some (λ (y : User). y.id) u.id w db'.users k in
          let alive' : verified later.now issue.refresh_token
              ≡ (if ltb later.now expiry then some u.id else none) =
            ap (verified later.now) (sym signed) ∙ alive in
          (
            c,
            subst
                (λ j.
                  (refresh_route crypto later verified body bearer j db').0
                  ≡ renewed (ltb later.now expiry) later.refresh_token)
                (ap (λ n. some (refresh_cookie n)) (sym signed) ∙ sym c)
                (refresh_route-issued crypto issue later u w db' verified expiry body bearer
                  db.refresh_tokens rows k i alive' h fresh),
          )
    ]
