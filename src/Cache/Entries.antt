-- ===== src/Cache/Entries.antt =====
-- What the cache methods do to an entry, whether the server answers or not.
use turf_sync.Prelude.{ℕ, ◌≡◌, ◌≢◌, ◌⊎◌, sym, ap, ◌∙◌, inl, inr, arith, none, some, Option-cases}
use turf_sync.Cache.{RedisCache, Key, Cached, IsUp, cache_get, cache_set, cache_del}
use turf_sync.Cache.Scan.{Key-discrete}

module _ (redis : RedisCache) where
  open redis use {Store, entry, get, set, del}

  pub cache_get-eq-some :
      (k : Key) (v : Cached) (s : Store) → cache_get redis k s ≡ some v → entry k s ≡ some v
  unfolding cache_get
  cache_get-eq-some k v s e = elim (Option-cases (get k s)) [
    | inl n ↦ absurd (ground arith)
    | inr (r, f) ↦ sym (redis.get_entry k s r f) ∙ (ground arith)
  ]

  -- What is under a key after a write was there before, or has been written.
  pub cache_set-entry :
      (j k : Key) (v w : Cached) (ttl : ℕ) (s : Store)
      → entry j (cache_set redis k v ttl s) ≡ some w
      → (entry j s ≡ some w) ⊎ ((j ≡ k) × (w ≡ v))
  unfolding cache_set
  cache_set-entry j k v w ttl s e = elim (Option-cases (set k v ttl s)) [
    | inl n ↦ inl (rw (n, cache_set) at e)
    | inr (t, f) ↦
        let e' : entry j t ≡ some w = rw (f, cache_set) at e in
        elim (Key-discrete j k) [
          | yes p ↦
              let h = redis.set_self k v ttl s t f in
              let same : some w ≡ some v = sym e' ∙ ap (λ x. entry x t) p ∙ h in inr (p, (cc))
          | no p ↦ inl (sym (redis.set_other j k v ttl s t f p) ∙ e')
        ]
  ]

  -- What is under a key after a deletion was there before, under another key if the server answers.
  pub cache_del-entry :
      (j k : Key) (w : Cached) (s : Store)
      → entry j (cache_del redis k s) ≡ some w
      → (entry j s ≡ some w) × (IsUp redis → j ≢ k)
  unfolding cache_del
  cache_del-entry j k w s e = elim (Option-cases (del k s)) [
    | inl n ↦ (rw (n, cache_del) at e, λ up. let (t, f) = up.del_up k s in absurd (cc))
    | inr (t, f) ↦
        let e' : entry j t ≡ some w = rw (f, cache_del) at e in
        elim (Key-discrete j k) [
          | yes p ↦
              let h = redis.del_self k s t f in
              let h' : entry j t ≡ none = ap (λ x. entry x t) p ∙ h in absurd (cc)
          | no p ↦ (sym (redis.del_other j k s t f p) ∙ e', λ up. p)
        ]
  ]
