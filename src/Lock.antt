-- ===== src/Lock.antt =====
-- src/redis/redis-lock.service.ts: the lock methods of RedisLockService, over a Redis server that
-- is a parameter. Keys and lock values are numbers; `lock:${key}` is one key for each `key`.
pub mod Exclusion
use turf_sync.Prelude.{
  ℕ, ◌≡◌, ◌≢◌, Bool, true, false, Option, none, some, List, [], ◌∷◌, ◌==◌, if◌then◌else◌,
}

-- The commands that the service sends, with their documented effect on what a key holds. A key's
-- expiry is not one of them: it is a step of the server.
pub record RedisClient : Type 1 where
  pub Store : Type 0
  pub get : ℕ → Store → Option ℕ
  -- `SET key value EX ttl NX`, with whether it answers OK
  pub set_nx : ℕ → ℕ → ℕ → Store → Bool × Store
  pub del : ℕ → Store → Store
  pub expire : ℕ → ℕ → Store → Store
  pub set_nx_free :
      (k v ttl : ℕ) (s : Store)
      → get k s ≡ none
      → ((set_nx k v ttl s).0 ≡ true) × (get k (set_nx k v ttl s).1 ≡ some v)
  pub set_nx_held :
      (k v ttl : ℕ) (s : Store) (w : ℕ) → get k s ≡ some w → set_nx k v ttl s ≡ (false, s)
  pub set_nx_other : (j k v ttl : ℕ) (s : Store) → j ≢ k → get j (set_nx k v ttl s).1 ≡ get j s
  pub get_del_self : (k : ℕ) (s : Store) → get k (del k s) ≡ none
  pub get_del_other : (j k : ℕ) (s : Store) → j ≢ k → get j (del k s) ≡ get j s
  -- for a time to live that is not 0
  pub get_expire : (j k ttl : ℕ) (s : Store) → ttl ≢ 0 → get j (expire k ttl s) ≡ get j s

module _ (redis : RedisClient) where
  open redis use {Store, get, set_nx, del, expire}

  -- `acquireLock`, where `uuidv4()` answers `token`
  unfoldable pub acquire_lock : ℕ → ℕ → ℕ → Store → Option ℕ × Store
  acquire_lock key token ttl s =
      let (done, s') = set_nx key token ttl s in (if done then some token else none, s')

  -- `redis.call('get', KEYS[1]) == ARGV[1]`
  abbrev pub owns : ℕ → ℕ → Store → Bool
  owns key token s = elim (get key s) [ none ↦ false | some v ↦ v == token ]

  -- `releaseLock`: RELEASE_LOCK_SCRIPT
  unfoldable pub release_lock : ℕ → ℕ → Store → Bool × Store
  release_lock key token s = if owns key token s then (true, del key s) else (false, s)

  -- `extendLock`: EXTEND_LOCK_SCRIPT
  unfoldable pub extend_lock : ℕ → ℕ → ℕ → Store → Bool × Store
  extend_lock key token ttl s = if owns key token s then (true, expire key ttl s) else (false, s)
