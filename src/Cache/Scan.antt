-- ===== src/Cache/Scan.antt =====
-- `delByPattern`: its loop ends, and leaves no key of the pattern.
use turf_sync.Prelude.{
  ℕ, zero, suc, ◌+◌, ◌≡◌, ◌≢◌, ◌≤◌, ◌<◌, ◌⊎◌, refl, sym, ap, ◌∙◌, subst, inl, inr, arith, Bool,
  true, false, none, some, List, [], ◌∷◌, IsIn, ◌==◌, Option-cases, Bool-cases,
}
use native.Mathlib.Decide.{ℕ_discrete}
use turf_sync.Cache.{RedisCache, Key, IsUp, del_keys, exec_del, scan_loop, del_by_pattern}

pub Key-discrete : Discrete Key
Key-discrete = hlevel ℕ_discrete

module _ (redis : RedisCache) where
  open redis use {Store, entry, del, scan, pending, calls_left}

  del_keys-calls_left :
      (c : ℕ) (ks : List Key) (s s' : Store)
      → del_keys redis ks s ≡ some s'
      → calls_left c s' ≤ calls_left c s
  unfolding del_keys
  del_keys-calls_left c [] s s' e = ground arith
  del_keys-calls_left c (k ∷ ks) s s' e = elim (Option-cases (del k s)) [
    | inl n ↦ absurd (ground arith)
    | inr (t, f) ↦
        let rest = del_keys-calls_left c ks t s' (ground arith) in
        let first = redis.del_calls_left c k s t f in omega arith
  ]

  exec_del-calls_left :
      (c : ℕ) (ks : List Key) (s : Store) → calls_left c (exec_del redis ks s) ≤ calls_left c s
  unfolding exec_del
  exec_del-calls_left c ks s = elim (Option-cases (del_keys redis ks s)) [
    | inl n ↦ rw (n, exec_del) (omega arith)
    | inr (t, f) ↦ rw (f, exec_del) (del_keys-calls_left c ks s t f)
  ]

  scan_loop_ends :
      (fuel c : ℕ) (m : Key → Bool) (s : Store)
      → calls_left c s < fuel
      → (s' : Store) × (scan_loop redis fuel c m s ≡ some s')
  unfolding scan_loop
  scan_loop_ends zero c m s h = absurd (omega arith)
  scan_loop_ends (suc fuel) c m s h = elim (Option-cases (scan c m s)) [
    | inl n ↦ (s, rw (n, scan_loop))
    | inr ((next, ks), e) ↦ elim (Bool-cases (next == 0)) [
      | inl z ↦ (exec_del redis ks s, rw (e, scan_loop) (rw z))
      | inr z ↦
          let ne : next ≢ 0 = ground arith in
          let less = redis.scan_ends c next m s ks e ne in
          let more = exec_del-calls_left next ks s in
          let (r, g) = scan_loop_ends fuel next m (exec_del redis ks s) (omega arith) in
          (r, rw (e, scan_loop) (rw z g))
    ]
  ]

  -- The fuel of `delByPattern` is enough: its loop ends on every store, and whatever fails.
  del_by_pattern_ends :
      (m : Key → Bool) (s : Store)
      → scan_loop redis (calls_left 0 s + 1) 0 m s ≡ some (del_by_pattern redis m s)
  unfolding del_by_pattern
  del_by_pattern_ends m s = elim (Option-cases (scan_loop redis (calls_left 0 s + 1) 0 m s)) [
    | inr (r, e) ↦ rw (e, del_by_pattern)
    | inl n ↦ let (r, e) = scan_loop_ends (calls_left 0 s + 1) 0 m s (omega arith) in cc
  ]

  -- A deletion, seen at any key.
  del-none : (j k : Key) (s s' : Store) → del j s ≡ some s' → entry k s ≡ none → entry k s' ≡ none
  del-none j k s s' e n = elim (Key-discrete k j) [
    | yes p ↦ subst (λ x. entry x s' ≡ none) (sym p) (redis.del_self j s s' e)
    | no p ↦ redis.del_other k j s s' e p ∙ n
  ]

  -- What an iteration that has come to cursor `c` has done about a key, or has still to do.
  Left : ℕ → (Key → Bool) → Key → Store → Type 0
  Left c m k s = (entry k s ≡ none) ⊎ pending c m s k

  del-Left :
      (c : ℕ) (m : Key → Bool) (j k : Key) (s s' : Store)
      → del j s ≡ some s'
      → Left c m k s
      → Left c m k s'
  unfolding Left
  del-Left c m j k s s' e (inl n) = inl (del-none j k s s' e n)
  del-Left c m j k s s' e (inr p) = elim (Key-discrete k j) [
    | yes q ↦ inl (subst (λ x. entry x s' ≡ none) (sym q) (redis.del_self j s s' e))
    | no q ↦ inr (redis.del_pending c m j k s s' e q p)
  ]

  del_keys-Left :
      (c : ℕ) (m : Key → Bool) (k : Key) (ks : List Key) (s s' : Store)
      → del_keys redis ks s ≡ some s'
      → Left c m k s
      → Left c m k s'
  unfolding del_keys
  del_keys-Left c m k [] s s' e l = subst (Left c m k) (ground arith) l
  del_keys-Left c m k (j ∷ ks) s s' e l = elim (Option-cases (del j s)) [
    | inl n ↦ absurd (ground arith)
    | inr (t, f) ↦ del_keys-Left c m k ks t s' (ground arith) (del-Left c m j k s t f l)
  ]

  del_keys-none :
      (k : Key) (ks : List Key) (s s' : Store)
      → del_keys redis ks s ≡ some s'
      → (entry k s ≡ none) ⊎ IsIn k ks
      → entry k s' ≡ none
  unfolding del_keys
  del_keys-none k [] s s' e (inl n) = subst (λ x. entry k x ≡ none) (ground arith) n
  del_keys-none k [] s s' e (inr m) = absurd m
  del_keys-none k (j ∷ ks) s s' e h = elim (Option-cases (del j s)) [
    | inl n ↦ absurd (ground arith)
    | inr (t, f) ↦ del_keys-none k ks t s' (ground arith) (after t f h)
  ]
    where
      after :
          (t : Store)
          → del j s ≡ some t
          → (entry k s ≡ none) ⊎ IsIn k (j ∷ ks)
          → (entry k t ≡ none) ⊎ IsIn k ks
      after t f (inl n) = inl (del-none j k s t f n)
      after t f (inr (inl p)) = inl (subst (λ x. entry x t ≡ none) p (redis.del_self j s t f))
      after t f (inr (inr m)) = inr m

  del_keys-other :
      (k : Key) (ks : List Key) (s s' : Store)
      → del_keys redis ks s ≡ some s'
      → ((j : Key) → IsIn j ks → k ≢ j)
      → entry k s' ≡ entry k s
  unfolding del_keys
  del_keys-other k [] s s' e h = ground arith
  del_keys-other k (j ∷ ks) s s' e h = elim (Option-cases (del j s)) [
    | inl n ↦ absurd (ground arith)
    | inr (t, f) ↦
        del_keys-other k ks t s' (ground arith) (λ i m. h i (inr m))
        ∙ redis.del_other k j s t f (h j (inl refl))
  ]

  del_keys_up : IsUp redis → (ks : List Key) (s : Store) → del_keys redis ks s ≢ none
  unfolding del_keys
  del_keys_up up [] s e = cc
  del_keys_up up (k ∷ ks) s e = let (t, f) = up.del_up k s in del_keys_up up ks t (ground arith)

  exec_del-other :
      (k : Key) (ks : List Key) (s : Store)
      → ((j : Key) → IsIn j ks → k ≢ j)
      → entry k (exec_del redis ks s) ≡ entry k s
  unfolding exec_del
  exec_del-other k ks s h = elim (Option-cases (del_keys redis ks s)) [
    | inl n ↦ rw (n, exec_del) refl
    | inr (t, f) ↦ rw (f, exec_del) (del_keys-other k ks s t f h)
  ]

  exec_del_up :
      IsUp redis → (ks : List Key) (s : Store) → del_keys redis ks s ≡ some (exec_del redis ks s)
  unfolding exec_del
  exec_del_up up ks s = elim (Option-cases (del_keys redis ks s)) [
    | inl n ↦ absurd (del_keys_up up ks s n)
    | inr (t, f) ↦ rw (f, exec_del) refl
  ]

  scan_loop-other :
      (fuel c : ℕ) (m : Key → Bool) (k : Key) (s s' : Store)
      → scan_loop redis fuel c m s ≡ some s'
      → m k ≡ false
      → entry k s' ≡ entry k s
  unfolding scan_loop
  scan_loop-other zero c m k s s' e h = cc
  scan_loop-other (suc fuel) c m k s s' e h = elim (Option-cases (scan c m s)) [
    | inl n ↦ ap (entry k) (ground arith)
    | inr ((next, ks), f) ↦
        let t = exec_del redis ks s in
        let same =
          exec_del-other k ks s
            (λ j i p. let x = redis.scan_matches c next m s ks j f i in cc (ap m p)) in
        elim (Bool-cases (next == 0)) [
          | inl z ↦ let end : s' ≡ t = ground arith in ap (entry k) end ∙ same
          | inr z ↦ scan_loop-other fuel next m k t s' (ground arith) h ∙ same
        ]
  ]

  scan_loop-clears :
      (fuel c : ℕ) (m : Key → Bool) (k : Key) (s s' : Store)
      → IsUp redis
      → scan_loop redis fuel c m s ≡ some s'
      → m k ≡ true
      → Left c m k s
      → entry k s' ≡ none
  unfolding scan_loop Left
  scan_loop-clears zero c m k s s' up e h l = cc
  scan_loop-clears (suc fuel) c m k s s' up e h l =
      let (next, ks, f) = up.scan_up c m s in
      let t = exec_del redis ks s in
      let g = exec_del_up up ks s in
      elim (Bool-cases (next == 0)) [
        | inl z ↦
            let end : s' ≡ t = ground arith in
            ap (entry k) end ∙ del_keys-none k ks s t g (last next s ks f (ground arith) l)
        | inr z ↦ scan_loop-clears fuel next m k t s' up (ground arith) h (later next s t ks f g l)
      ]
    where
      last :
          (next : ℕ) (s : Store) (ks : List Key)
          → scan c m s ≡ some (next, ks)
          → next ≡ 0
          → Left c m k s
          → (entry k s ≡ none) ⊎ IsIn k ks
      last next s ks f z (inl n) = inl n
      last next s ks f z (inr p) = elim (redis.scan_returns c next m s ks k f p) [
        | inl i ↦ inr i
        | inr (ne, q) ↦ absurd (ne z)
      ]

      later :
          (next : ℕ) (s t : Store) (ks : List Key)
          → scan c m s ≡ some (next, ks)
          → del_keys redis ks s ≡ some t
          → Left c m k s
          → Left next m k t
      later next s t ks f g (inl n) = inl (del_keys-none k ks s t g (inl n))
      later next s t ks f g (inr p) = elim (redis.scan_returns c next m s ks k f p) [
        | inl i ↦ inl (del_keys-none k ks s t g (inr i))
        | inr (ne, q) ↦ del_keys-Left next m k ks s t g (inr q)
      ]

  -- The loop of `delByPattern` ends on every store, and whatever fails: the fuel is enough. While the
  -- server answers, it leaves no entry under a key of the pattern; and in any case it leaves the
  -- entries of the other keys as they were.
  pub del_by_pattern_effect :
      (m : Key → Bool) (s : Store)
      → (scan_loop redis (calls_left 0 s + 1) 0 m s ≡ some (del_by_pattern redis m s))
        × (IsUp redis → (k : Key) → m k ≡ true → entry k (del_by_pattern redis m s) ≡ none)
        × ((k : Key) → m k ≡ false → entry k (del_by_pattern redis m s) ≡ entry k s)
  unfolding Left
  del_by_pattern_effect m s =
      let e = del_by_pattern_ends m s in
      (
        e,
        λ up k h.
            scan_loop-clears (calls_left 0 s + 1) 0 m k s (del_by_pattern redis m s) up e h
              (start k h),
        λ k h. scan_loop-other (calls_left 0 s + 1) 0 m k s (del_by_pattern redis m s) e h,
      )
    where
      start : (k : Key) → m k ≡ true → Left 0 m k s
      start k h = elim (Option-cases (entry k s)) [
        | inl n ↦ inl n
        | inr (v, f) ↦ inr (redis.scan_start m k v s f h)
      ]
