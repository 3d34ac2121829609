-- ===== src/Tests/Locks.antt =====
-- The locks of a Redis server that is a function from its keys.
use turf_sync.Prelude.{
  ℕ, ◌≡◌, ◌≢◌, refl, arith, Bool, true, false, none, some, List, [], ◌∷◌, Option, ◌==◌,
  if◌then◌else◌,
}
use turf_sync.Lock.{RedisClient, acquire_lock, release_lock}
use turf_sync.Lock.Exclusion.{Call, acquires, releases, extends, run, lock_excludes}
use turf_sync.Booking.Request.{Env, create}
use turf_sync.Booking.Locking.{create-unlocks}
use turf_sync.Tests.Data.{dto, open_db}

abbrev pub Keys : Type 0
Keys = ℕ → Option ℕ

abbrev pub with_key : ℕ → Option ℕ → Keys → Keys
with_key k v s j = if j == k then v else s j

abbrev pub put_free : ℕ → ℕ → Keys → Option ℕ → Bool × Keys
put_free k v s none = (true, with_key k (some v) s)
put_free k v s (some w) = (false, s)

pub put_free-none :
    (k v : ℕ) (s : Keys) (o : Option ℕ)
    → o ≡ none
    → ((put_free k v s o).0 ≡ true) × ((put_free k v s o).1 k ≡ some v)
put_free-none k v s none h = (refl, ground arith)
put_free-none k v s (some w) h = cc

pub put_free-some :
    (k v : ℕ) (s : Keys) (w : ℕ) (o : Option ℕ) → o ≡ some w → put_free k v s o ≡ (false, s)
put_free-some k v s w none h = cc
put_free-some k v s w (some x) h = refl

pub put_free_other : (j k v : ℕ) (s : Keys) (o : Option ℕ) → j ≢ k → (put_free k v s o).1 j ≡ s j
put_free_other j k v s none ne = ground arith
put_free_other j k v s (some w) ne = refl

pub with_key_self : (k : ℕ) (s : Keys) → with_key k none s k ≡ none
with_key_self k s = ground arith

pub with_key_other : (j k : ℕ) (s : Keys) → j ≢ k → with_key k none s j ≡ s j
with_key_other j k s ne = ground arith

abbrev pub server : RedisClient
server = record {
  Store = Keys;
  get = λ k s. s k;
  set_nx = λ k v ttl s. put_free k v s (s k);
  del = λ k s. with_key k none s;
  expire = λ k ttl s. s;
  set_nx_free = λ k v ttl s h. put_free-none k v s (s k) h;
  set_nx_held = λ k v ttl s w h. put_free-some k v s w (s k) h;
  set_nx_other = λ j k v ttl s ne. put_free_other j k v s (s k) ne;
  get_del_self = with_key_self;
  get_del_other = with_key_other;
  get_expire = λ j k ttl s ne. refl;
}

abbrev pub held_keys : Keys
held_keys = with_key 11 (some 7) (λ j. none)

abbrev pub env : Env
env = record {
  id = 21;
  now = 172800000;
  token = 8;
  queue_up = true;
  booking_late = false;
  coupon_late = false;
  others = record { before_booking = λ db. db; before_coupon = λ db. db };
}

abbrev others : List Call
others = acquires 11 8 30 ∷ releases 11 8 ∷ extends 11 8 60 ∷ acquires 12 8 30 ∷ releases 12 8 ∷ []

lock_excludes_example :
    (run server others held_keys 11 ≡ some 7)
    × ((t ttl : ℕ) → (acquire_lock server 11 t ttl (run server others held_keys)).0 ≡ none)
    × ((release_lock server 11 7 (run server others held_keys)).0 ≡ true)
    × ((release_lock server 11 7 (run server others held_keys)).1 11 ≡ none)
lock_excludes_example = lock_excludes server 11 7 others held_keys (ground arith) refl

create-unlocks_example :
    ((create server env dto 5 open_db (λ j. none)).3 11 ≡ none)
    × ((j : ℕ) → j ≢ 11 → (create server env dto 5 open_db (λ j. none)).3 j ≡ none)
create-unlocks_example = create-unlocks server env dto 5 open_db (λ j. none) refl
