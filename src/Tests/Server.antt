-- ===== src/Tests/Server.antt =====
-- A Redis server that holds three keys and returns one key to a SCAN.
use turf_sync.Prelude.{
  ℕ, zero, suc, ◌≡◌, ◌≢◌, ◌≤◌, ◌<◌, ◌⊎◌, refl, sym, ap, ◌∙◌, subst, inl, inr, arith, Bool, true,
  false, ◌&&◌, Option, none, some, List, [], ◌∷◌, IsIn, drop, length, if◌then◌else◌, is_some,
  List-cases, Bool-cases,
}
use turf_sync.Cache.{RedisCache, IsUp, Key, turf_key, slots_key, list_key, Cached}
use turf_sync.Cache.Scan.{Key-discrete}

abbrev pub Entries : Type 0
Entries = Key → Option Cached

abbrev pub universe : List Key
universe = turf_key 1 ∷ list_key (b'D' ∷ []) ∷ slots_key 1 172800000 ∷ []

abbrev pub same_key : Key → Key → Bool
same_key j k = elim (Key-discrete j k) [ yes p ↦ true | no n ↦ false ]

same_key_self : (k : Key) → same_key k k ≡ true
same_key_self k =
    elim (Key-discrete k k) as (λ d. (elim d [ yes p ↦ true | no n ↦ false ]) ≡ true) [
      | yes p ↦ refl
      | no n ↦ absurd (n refl)
    ]

same_key_other : (j k : Key) → j ≢ k → same_key j k ≡ false
same_key_other j k h =
    elim (Key-discrete j k) as (λ d. (elim d [ yes p ↦ true | no n ↦ false ]) ≡ false) [
      | yes p ↦ absurd (h p)
      | no n ↦ refl
    ]

abbrev pub has_key : Key → List Key → Bool
has_key k [] = false
has_key k (x ∷ xs) = if same_key x k then true else has_key k xs

has_key-IsIn : (k : Key) (ks : List Key) → has_key k ks ≡ true → IsIn k ks
has_key-IsIn k [] h = cc
has_key-IsIn k (x ∷ xs) h = elim (Key-discrete x k) [
  | yes p ↦ inl p
  | no n ↦ let f = same_key_other x k n in inr (has_key-IsIn k xs (rw f at h))
]

abbrev pub entry_of : Key → Entries → Option Cached
entry_of k s = if has_key k universe then s k else none

abbrev pub with_entry : Key → Option Cached → Entries → Entries
with_entry k v s j = if same_key j k then v else s j

abbrev pub store : Key → Cached → Entries → Option Entries
store k v s = if has_key k universe then some (with_entry k (some v) s) else none

abbrev pub next_cursor : ℕ → List Key → ℕ
next_cursor c [] = 0
next_cursor c (x ∷ xs) = suc c

abbrev pub found : Key → (Key → Bool) → Entries → List Key
found k m s = if is_some (entry_of k s) && m k then k ∷ [] else []

abbrev pub answer : ℕ → (Key → Bool) → Entries → List Key → ℕ × List Key
answer c m s [] = (0, [])
answer c m s (x ∷ xs) = (next_cursor c xs, found x m s)

abbrev pub Waits : ℕ → (Key → Bool) → Entries → Key → Type 0
Waits c m s k = (is_some (entry_of k s) ≡ true) × (m k ≡ true) × IsIn k (drop c universe)

drop_next : (c : ℕ) (x : Key) (xs ks : List Key) → drop c ks ≡ (x ∷ xs) → drop (suc c) ks ≡ xs
drop_next zero x xs [] e = cc
drop_next zero x xs (y ∷ ys) e = cc
drop_next (suc c) x xs [] e = cc
drop_next (suc c) x xs (y ∷ ys) e = drop_next c x xs ys e

pub scan_returns :
    (c next : ℕ) (m : Key → Bool) (s : Entries) (ks : List Key) (k : Key)
    → some (answer c m s (drop c universe)) ≡ some (next, ks)
    → Waits c m s k
    → IsIn k ks ⊎ ((next ≢ 0) × Waits next m s k)
scan_returns c next m s ks k e (here, t, i) = elim (List-cases (drop c universe)) [
  | inl n ↦ absurd (rw n at i)
  | inr (x, xs, f) ↦ go x xs f (rw f at i) (rw f at e)
]
  where
    go :
        (x : Key) (xs : List Key)
        → drop c universe ≡ (x ∷ xs)
        → IsIn k (x ∷ xs)
        → some (answer c m s (x ∷ xs)) ≡ some (next, ks)
        → IsIn k ks ⊎ ((next ≢ 0) × Waits next m s k)
    go x xs f (inl p) g =
        let shown : (is_some (entry_of x s) && m x) ≡ true =
          ap (λ y. is_some (entry_of y s) && m y) p ∙ ap (λ b. b && m k) here ∙ t in
        let both : found x m s ≡ ks = cc in inl (subst (IsIn k) both (rw shown (inl p)))
    go x [] f (inr i) g = absurd i
    go x (y ∷ ys) f (inr i) g =
        let n : suc c ≡ next = cc in
        let d = drop_next c x (y ∷ ys) universe f in
        inr (
          λ z. absurd (omega arith),
          (here, t, subst (λ q. IsIn k (drop q universe)) n (subst (IsIn k) (sym d) i)),
        )

pub scan_matches :
    (c next : ℕ) (m : Key → Bool) (s : Entries) (ks : List Key) (k : Key)
    → some (answer c m s (drop c universe)) ≡ some (next, ks)
    → IsIn k ks
    → m k ≡ true
scan_matches c next m s ks k e i = elim (List-cases (drop c universe)) [
  | inl n ↦ let empty : [] ≡ ks = (let g = rw n at e in cc) in absurd (subst (IsIn k) (sym empty) i)
  | inr (x, xs, f) ↦
      let g = rw f at e in
      let shown : found x m s ≡ ks = cc in of_found x (subst (IsIn k) (sym shown) i)
]
  where
    matched : (x : Key) → (is_some (entry_of x s) && m x) ≡ true → IsIn k (x ∷ []) → m k ≡ true
    matched x t (inl p) = sym (ap m p) ∙ (ground arith)
    matched x t (inr n) = absurd n

    of_found : (x : Key) → IsIn k (found x m s) → m k ≡ true
    of_found x h = elim (Bool-cases (is_some (entry_of x s) && m x)) [
      | inl t ↦ matched x t (rw t at h)
      | inr f ↦ absurd (rw f at h)
    ]

abbrev pub left : ℕ → ℕ
left c = length (drop c universe)

pub scan_ends :
    (c next : ℕ) (m : Key → Bool) (s : Entries) (ks : List Key)
    → some (answer c m s (drop c universe)) ≡ some (next, ks)
    → next ≢ 0
    → left next < left c
scan_ends c next m s ks e ne = elim (List-cases (drop c universe)) [
  | inl n ↦ absurd (ne (let g = rw n at e in cc))
  | inr (x, xs, f) ↦ go x xs f (rw f at e)
]
  where
    go :
        (x : Key) (xs : List Key)
        → drop c universe ≡ (x ∷ xs)
        → some (answer c m s (x ∷ xs)) ≡ some (next, ks)
        → left next < left c
    go x [] f g = absurd (ne (cc))
    go x (y ∷ ys) f g =
        let n : suc c ≡ next = cc in
        let d = ap (λ (l : List Key). length l) (drop_next c x (y ∷ ys) universe f) in
        let whole = ap (λ (l : List Key). length l) f in
        subst (λ q. left q < left c) n (omega arith)

pub entry_of-with_entry :
    (k : Key) (v : Option Cached) (s : Entries)
    → has_key k universe ≡ true
    → entry_of k (with_entry k v s) ≡ v
entry_of-with_entry k v s h = rw (h, same_key_self k) refl

pub store_self :
    (k : Key) (v : Cached) (ttl : ℕ) (s s' : Entries)
    → store k v s ≡ some s'
    → entry_of k s' ≡ some v
store_self k v ttl s s' e = elim (Bool-cases (has_key k universe)) [
  | inr f ↦ absurd (let g = rw f at e in cc)
  | inl t ↦
      let g : with_entry k (some v) s ≡ s' = (let h = rw t at e in cc) in
      subst (λ (x : Entries). entry_of k x ≡ some v) g (entry_of-with_entry k (some v) s t)
]

pub with_entry_other :
    (j k : Key) (v : Option Cached) (s : Entries)
    → j ≢ k
    → entry_of j (with_entry k v s) ≡ entry_of j s
with_entry_other j k v s h = let f = same_key_other j k h in rw f refl

pub store_other :
    (j k : Key) (v : Cached) (ttl : ℕ) (s s' : Entries)
    → store k v s ≡ some s'
    → j ≢ k
    → entry_of j s' ≡ entry_of j s
store_other j k v ttl s s' e h = elim (Bool-cases (has_key k universe)) [
  | inr f ↦ absurd (let g = rw f at e in cc)
  | inl t ↦
      let g : with_entry k (some v) s ≡ s' = (let x = rw t at e in cc) in
      subst (λ (x : Entries). entry_of j x ≡ entry_of j s) g (with_entry_other j k (some v) s h)
]

pub removed : (k : Key) (s : Entries) → entry_of k (with_entry k none s) ≡ none
removed k s = let f = same_key_self k in ground arith

pub scan_start :
    (m : Key → Bool) (k : Key) (v : Cached) (s : Entries)
    → entry_of k s ≡ some v
    → m k ≡ true
    → Waits 0 m s k
scan_start m k v s e t = elim (Bool-cases (has_key k universe)) [
  | inl h ↦ (ap is_some e, t, has_key-IsIn k universe h)
  | inr h ↦ absurd (let g = rw h at e in cc)
]

pub del_pending :
    (c : ℕ) (m : Key → Bool) (j k : Key) (s s' : Entries)
    → some (with_entry j none s) ≡ some s'
    → k ≢ j
    → Waits c m s k
    → Waits c m s' k
del_pending c m j k s s' e ne (h, t, i) =
    let g : with_entry j none s ≡ s' = cc in
    (
      subst (λ (x : Entries). is_some (entry_of k x) ≡ true) g
          (ap is_some (with_entry_other k j none s ne) ∙ h),
      t,
      i,
    )

pub del_self :
    (k : Key) (s s' : Entries) → some (with_entry k none s) ≡ some s' → entry_of k s' ≡ none
del_self k s s' e =
    let g : with_entry k none s ≡ s' = cc in
    subst (λ (x : Entries). entry_of k x ≡ none) g (removed k s)

pub del_other :
    (j k : Key) (s s' : Entries)
    → some (with_entry k none s) ≡ some s'
    → j ≢ k
    → entry_of j s' ≡ entry_of j s
del_other j k s s' e h =
    let g : with_entry k none s ≡ s' = cc in
    subst (λ (x : Entries). entry_of j x ≡ entry_of j s) g (with_entry_other j k none s h)

pub get_entry :
    (k : Key) (s : Entries) (v : Option Cached) → some (entry_of k s) ≡ some v → v ≡ entry_of k s
get_entry k s v e = cc

pub del_left :
    (c : ℕ) (j : Key) (s s' : Entries) → some (with_entry j none s) ≡ some s' → left c ≤ left c
del_left c j s s' e = omega arith

pub has_key-turf : has_key (turf_key 1) universe ≡ true
has_key-turf = let e = same_key_self (turf_key 1) in rw e refl

abbrev pub cache_server : RedisCache
cache_server = record {
  Store = Entries;
  entry = entry_of;
  get = λ k s. some (entry_of k s);
  set = λ k v ttl s. store k v s;
  del = λ k s. some (with_entry k none s);
  scan = λ c m s. some (answer c m s (drop c universe));
  pending = Waits;
  calls_left = λ c s. left c;
  get_entry = get_entry;
  set_self = store_self;
  set_other = store_other;
  del_self = del_self;
  del_other = del_other;
  scan_start = scan_start;
  scan_returns = scan_returns;
  scan_matches = scan_matches;
  scan_ends = scan_ends;
  del_pending = del_pending;
  del_calls_left = del_left;
}

pub cache_server-IsUp : IsUp cache_server
cache_server-IsUp = record {
  get_up = λ k s. (entry_of k s, refl);
  del_up = λ k s. (with_entry k none s, refl);
  scan_up = λ c m s. ((answer c m s (drop c universe)).0, (answer c m s (drop c universe)).1, refl);
}
