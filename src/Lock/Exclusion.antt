-- ===== src/Lock/Exclusion.antt =====
-- The lock excludes: while one caller holds it, no call of another takes or frees it.
use turf_sync.Prelude.{
  ℕ, ◌≡◌, ◌≢◌, sym, ap, ◌∙◌, subst, inl, inr, arith, Bool, true, Option, none, some, List, [], ◌∷◌,
  ◌==◌, if◌then◌else◌, All, Bool-cases,
}
use turf_sync.Lock.{RedisClient, acquire_lock, owns, release_lock, extend_lock}

-- A call of the service, by a caller that knows the lock value it gives.
pub data Call : Type 0 where
  acquires : (key token ttl : ℕ) → Call
  releases : (key token : ℕ) → Call
  extends : (key token ttl : ℕ) → Call

-- A release of another key, or with another value; any attempt to take a lock; and an extension of a
-- time to live that is not 0.
abbrev pub IsForeign : ℕ → ℕ → Call → Type 0
IsForeign key token (acquires k t ttl) = Unit {0}
IsForeign key token (releases k t) = k ≡ key → t ≢ token
IsForeign key token (extends k t ttl) = ttl ≢ 0

module _ (redis : RedisClient) where
  open redis use {Store, get}

  unfoldable pub perform : Call → Store → Store
  perform (acquires key token ttl) s = (acquire_lock redis key token ttl s).1
  perform (releases key token) s = (release_lock redis key token s).1
  perform (extends key token ttl) s = (extend_lock redis key token ttl s).1

  unfoldable pub run : List Call → Store → Store
  run [] s = s
  run (c ∷ cs) s = run cs (perform c s)

  acquire-keeps :
      (key token k t ttl : ℕ) (s : Store)
      → get key s ≡ some token
      → get key (acquire_lock redis k t ttl s).1 ≡ some token
  unfolding acquire_lock
  acquire-keeps key token k t ttl s h = elim (Bool-cases (key == k)) [
    | inl e ↦
        let same : key ≡ k = ground arith in
        let held = redis.set_nx_held k t ttl s token (subst (λ j. get j s ≡ some token) same h) in
        ap (λ (r : Bool × Store). get key r.1) held ∙ h
    | inr e ↦ redis.set_nx_other key k t ttl s (ground arith) ∙ h
  ]

  release-keeps :
      (key token k t : ℕ) (s : Store)
      → (k ≡ key → t ≢ token)
      → get key s ≡ some token
      → get key (release_lock redis k t s).1 ≡ some token
  unfolding release_lock
  release-keeps key token k t s foreign h = elim (Bool-cases (owns redis k t s)) [
    | inr f ↦ rw f h
    | inl e ↦ elim (Bool-cases (key == k)) [
      | inl same ↦ absurd (not_owned (ground arith) e)
      | inr other ↦ rw e (redis.get_del_other key k s (ground arith) ∙ h)
    ]
  ]
    where
      not_owned : key ≡ k → owns redis k t s ≡ true → ⊥
      not_owned same e =
          let h' : get k s ≡ some token = subst (λ j. get j s ≡ some token) same h in
          let ne = foreign (sym same) in ground arith

  extend-keeps :
      (key token k t ttl : ℕ) (s : Store)
      → ttl ≢ 0
      → get key s ≡ some token
      → get key (extend_lock redis k t ttl s).1 ≡ some token
  unfolding extend_lock
  extend-keeps key token k t ttl s live h = elim (Bool-cases (owns redis k t s)) [
    | inl e ↦ rw e (redis.get_expire key k ttl s live ∙ h)
    | inr f ↦ rw f h
  ]

  run-keeps :
      (key token : ℕ) (cs : List Call) (s : Store)
      → All (IsForeign key token) cs
      → get key s ≡ some token
      → get key (run cs s) ≡ some token
  unfolding run perform
  run-keeps key token [] s f h = h
  run-keeps key token (acquires k t ttl ∷ cs) s f h =
      run-keeps key token cs _ f.1 (acquire-keeps key token k t ttl s h)
  run-keeps key token (releases k t ∷ cs) s f h =
      run-keeps key token cs _ f.1 (release-keeps key token k t s f.0 h)
  run-keeps key token (extends k t ttl ∷ cs) s f h =
      run-keeps key token cs _ f.1 (extend-keeps key token k t ttl s f.0 h)

  pub acquire_held :
      (key token t ttl : ℕ) (s : Store)
      → get key s ≡ some token
      → acquire_lock redis key t ttl s ≡ (none, s)
  unfolding acquire_lock
  acquire_held key token t ttl s h =
      ap (λ (r : Bool × Store). ((if r.0 then some t else none), r.1))
        (redis.set_nx_held key t ttl s token h)

  pub release_own :
      (key token : ℕ) (s : Store)
      → get key s ≡ some token
      → ((release_lock redis key token s).0 ≡ true)
        × (get key (release_lock redis key token s).1 ≡ none)
  unfolding release_lock
  release_own key token s h =
      let own : owns redis key token s ≡ true = ground arith in
      (rw own, rw own (redis.get_del_self key s))

  -- While a caller holds a lock, any sequence of calls of others leaves it with the caller:
  -- attempts to take it or another lock, releases of another key or with another value, and
  -- extensions by a time that is not 0. No further attempt takes it, and its value lets the
  -- caller free it.
  pub lock_excludes :
      (key token : ℕ) (cs : List Call) (s : Store)
      → All (IsForeign key token) cs
      → get key s ≡ some token
      → (get key (run cs s) ≡ some token)
        × ((t ttl : ℕ) → (acquire_lock redis key t ttl (run cs s)).0 ≡ none)
        × ((release_lock redis key token (run cs s)).0 ≡ true)
        × (get key (release_lock redis key token (run cs s)).1 ≡ none)
  lock_excludes key token cs s foreign h =
      let kept = run-keeps key token cs s foreign h in
      let (freed, gone) = release_own key token (run cs s) kept in
      (
        kept,
        λ t ttl. ap (λ (r : Option ℕ × Store). r.0) (acquire_held key token t ttl (run cs s) kept),
        freed,
        gone,
      )
