-- ===== src/Cache.antt =====
-- src/redis/redis-lock.service.ts: the cache methods of RedisLockService, over a Redis server that
-- is a parameter. A value is what its JSON text parses to, so `JSON.stringify` and `JSON.parse` do
-- not show. A command that answers `none` has thrown.
pub mod Scan
pub mod Entries
use turf_sync.Prelude.{
  ℕ, zero, suc, ◌+◌, ◌≡◌, ◌≢◌, ◌≤◌, ◌<◌, ◌⊎◌, Bool, true, false, Option, none, some, List, [], ◌∷◌,
  IsIn, ◌==◌, if◌then◌else◌,
}
use turf_sync.Schema.{Turf, Slot, Text}
use turf_sync.Pagination.{PaginatedResult}

-- `turf:${id}`, `slots:available:${turfId}:${dateStr}` and `turf:list:` with what follows it
pub data Key : Type 0 where
  turf_key : ℕ → Key
  slots_key : ℕ → ℕ → Key
  list_key : Text → Key

-- A turf with the slots that the query includes.
pub record TurfWithSlots : Type 0 where
  pub turf : Turf
  pub slots : List Slot

-- What TurfService caches.
pub data Cached : Type 0 where
  turf_value : Turf → Cached
  slots_value : Turf → List Slot → ℕ → Cached
  list_value : PaginatedResult TurfWithSlots → Cached

-- The commands that the service sends, with their documented effect. `entry` is what a key holds; an
-- entry that expires is a step of the server. `SCAN` takes a cursor and answers with the next one and
-- keys that match: `pending` are the keys that an iteration which has come to a cursor has still to
-- return, and `calls_left` bounds the calls that it still takes while keys are only deleted.
pub record RedisCache : Type 1 where
  pub Store : Type 0
  pub entry : Key → Store → Option Cached
  pub get : Key → Store → Option (Option Cached)
  pub set : Key → Cached → ℕ → Store → Option Store
  pub del : Key → Store → Option Store
  pub scan : ℕ → (Key → Bool) → Store → Option (ℕ × List Key)
  pub pending : ℕ → (Key → Bool) → Store → Key → Type 0
  pub calls_left : ℕ → Store → ℕ
  pub get_entry : (k : Key) (s : Store) (v : Option Cached) → get k s ≡ some v → v ≡ entry k s
  pub set_self :
      (k : Key) (v : Cached) (ttl : ℕ) (s s' : Store)
      → set k v ttl s ≡ some s'
      → entry k s' ≡ some v
  pub set_other :
      (j k : Key) (v : Cached) (ttl : ℕ) (s s' : Store)
      → set k v ttl s ≡ some s'
      → j ≢ k
      → entry j s' ≡ entry j s
  pub del_self : (k : Key) (s s' : Store) → del k s ≡ some s' → entry k s' ≡ none
  pub del_other : (j k : Key) (s s' : Store) → del k s ≡ some s' → j ≢ k → entry j s' ≡ entry j s
  pub scan_start :
      (m : Key → Bool) (k : Key) (v : Cached) (s : Store)
      → entry k s ≡ some v
      → m k ≡ true
      → pending 0 m s k
  pub scan_returns :
      (c next : ℕ) (m : Key → Bool) (s : Store) (ks : List Key) (k : Key)
      → scan c m s ≡ some (next, ks)
      → pending c m s k
      → IsIn k ks ⊎ ((next ≢ 0) × pending next m s k)
  pub scan_matches :
      (c next : ℕ) (m : Key → Bool) (s : Store) (ks : List Key) (k : Key)
      → scan c m s ≡ some (next, ks)
      → IsIn k ks
      → m k ≡ true
  pub scan_ends :
      (c next : ℕ) (m : Key → Bool) (s : Store) (ks : List Key)
      → scan c m s ≡ some (next, ks)
      → next ≢ 0
      → calls_left next s < calls_left c s
  pub del_pending :
      (c : ℕ) (m : Key → Bool) (j k : Key) (s s' : Store)
      → del j s ≡ some s'
      → k ≢ j
      → pending c m s k
      → pending c m s' k
  pub del_calls_left :
      (c : ℕ) (j : Key) (s s' : Store) → del j s ≡ some s' → calls_left c s' ≤ calls_left c s

module _ (redis : RedisCache) where
  open redis use {Store, get, set, del, scan}

  -- `get`: an error is logged and reads as a miss.
  unfoldable pub cache_get : Key → Store → Option Cached
  cache_get k s = elim (get k s) [ none ↦ none | some v ↦ v ]

  -- `set` and `del`: an error is logged, and nothing is thrown.
  unfoldable pub cache_set : Key → Cached → ℕ → Store → Store
  cache_set k v ttl s = elim (set k v ttl s) [ none ↦ s | some s' ↦ s' ]

  unfoldable pub cache_del : Key → Store → Store
  cache_del k s = elim (del k s) [ none ↦ s | some s' ↦ s' ]

  -- `pipeline.del(...keys)`; `none` is an error in its reply.
  unfoldable pub del_keys : List Key → Store → Option Store
  del_keys [] s = some s
  del_keys (k ∷ ks) s = elim (del k s) [ none ↦ none | some s' ↦ del_keys ks s' ]

  -- `pipeline.exec()` answers with the errors of its commands and throws none of them. A DEL that fails
  -- has deleted no key, since the one command names them all.
  unfoldable pub exec_del : List Key → Store → Store
  unfolding del_keys
  exec_del ks s = elim (del_keys ks s) [ none ↦ s | some s' ↦ s' ]

  -- The loop of `delByPattern` from a cursor on, with fuel; `none` means that the fuel ran out. A SCAN
  -- that throws ends it, in the `catch`; after a DEL that failed it goes on.
  unfoldable pub scan_loop : ℕ → ℕ → (Key → Bool) → Store → Option Store
  scan_loop zero c m s = none
  scan_loop (suc fuel) c m s = elim (scan c m s) [
    | none ↦ some s
    | some (next, ks) ↦ elim (next == 0) [
      | true ↦ some (exec_del ks s)
      | false ↦ scan_loop fuel next m (exec_del ks s)
    ]
  ]

  -- `delByPattern`, with the fuel that suffices
  unfoldable pub del_by_pattern : (Key → Bool) → Store → Store
  del_by_pattern m s = elim (scan_loop (redis.calls_left 0 s + 1) 0 m s) [ none ↦ s | some s' ↦ s' ]

  -- The server answers every command.
  pub record IsUp : Type 0 where
    pub get_up : (k : Key) (s : Store) → (v : Option Cached) × (get k s ≡ some v)
    pub del_up : (k : Key) (s : Store) → (s' : Store) × (del k s ≡ some s')
    pub scan_up :
        (c : ℕ) (m : Key → Bool) (s : Store)
        → (next : ℕ) × (ks : List Key) × (scan c m s ≡ some (next, ks))
