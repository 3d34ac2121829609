-- ===== src/Turf/Coherence.antt =====
-- src/turf/turf.service.ts: the rows of turfs that the cache holds, against the table.
use turf_sync.Prelude.{
  ℕ, ◌≡◌, ◌≢◌, refl, sym, ap, ◌∙◌, inl, inr, arith, none, some, List, [], ◌∷◌, Bool-cases,
  Option-cases, is_some,
}
use turf_sync.Table.{find_first, find_unique, update}
use turf_sync.Table.Laws.{find_first-eq-none}
use turf_sync.Table.Unique.{find_unique-eq-some, find_unique-update_ne}
use turf_sync.Schema.{Db, Turf}
use turf_sync.Outcome.{Result, ok}
use turf_sync.Cache.{
  RedisCache, IsUp, Cached, turf_key, slots_key, list_key, turf_value, list_value, slots_value,
  cache_get, cache_set, cache_del, del_by_pattern,
}
use turf_sync.Cache.Scan.{del_by_pattern_effect}
use turf_sync.Cache.Entries.{cache_get-eq-some, cache_set-entry, cache_del-entry}
use turf_sync.Turf.{
  new_turf, patch_turf, deactivate, is_list_key, is_named, takes_name, turf_clashes, ensure_slots,
  slots_on,
}
use turf_sync.Turf.Listing.{query_text, search_turfs}
use turf_sync.Turf.Catalogue.{
  Request, creates, searches, finds, updates, removes, lists_slots, after_request, after, lookup,
  generate_for_turf-turfs, ensure_slots-turfs,
}
use turf_sync.Turf.Handlers.{
  turf_of, search_date, create, find_all, find_one, update_turf, remove, slots_of_day,
  get_available_slots,
}

module _ (redis : RedisCache) where
  open redis use {Store, entry}

  abbrev outcome {ℓ} : {A : Type ℓ} → Result A × Db × Store → Db × Store
  outcome (_, db, s) = (db, s)

  abbrev pub serve : Request → Db → Store → Db × Store
  serve (creates fresh now id dto) db s = outcome (create redis fresh now id dto db s)
  serve (searches print q) db s = outcome (find_all redis print q db s)
  serve (finds id) db s = outcome (find_one redis id db s)
  serve (updates id dto) db s = outcome (update_turf redis id dto db s)
  serve (removes id) db s = outcome (remove redis id db s)
  serve (lists_slots fresh today id date) db s =
      outcome (get_available_slots redis fresh today id date db s)

  unfoldable pub serve_all : List Request → Db → Store → Db × Store
  serve_all [] db s = (db, s)
  serve_all (r ∷ rs) db s = let (db', s') = serve r db s in serve_all rs db' s'

  -- What is cached under the key of a turf is its row.
  abbrev pub IsCoherent : List Turf → Store → Type 0
  IsCoherent ts s =
      (id : ℕ) (v : Cached)
      → entry (turf_key id) s ≡ some v
      → (t : Turf) × (v ≡ turf_value t) × (find_unique (λ (x : Turf). x.id) id ts ≡ some t)

  drop_lists-IsCoherent :
      (ts : List Turf) (s : Store)
      → IsCoherent ts s
      → IsCoherent ts (del_by_pattern redis is_list_key s)
  drop_lists-IsCoherent ts s c id v e =
      c id v (sym ((del_by_pattern_effect redis is_list_key s).2 (turf_key id) refl) ∙ e)

  set_list-IsCoherent :
      (ts : List Turf) (s : Store) (text : List ℕ) (w : Cached) (ttl : ℕ)
      → IsCoherent ts s
      → IsCoherent ts (cache_set redis (list_key text) w ttl s)
  set_list-IsCoherent ts s text w ttl c id v e =
      elim (cache_set-entry redis (turf_key id) (list_key text) w v ttl s e) [
        | inl old ↦ c id v old
        | inr (p, _) ↦ absurd (cc)
      ]

  set_slots-IsCoherent :
      (ts : List Turf) (s : Store) (turf day : ℕ) (w : Cached) (ttl : ℕ)
      → IsCoherent ts s
      → IsCoherent ts (cache_set redis (slots_key turf day) w ttl s)
  set_slots-IsCoherent ts s turf day w ttl c id v e =
      elim (cache_set-entry redis (turf_key id) (slots_key turf day) w v ttl s e) [
        | inl old ↦ c id v old
        | inr (p, _) ↦ absurd (cc)
      ]

  set_turf-IsCoherent :
      (ts : List Turf) (s : Store) (j : ℕ) (t : Turf) (ttl : ℕ)
      → find_unique (λ (x : Turf). x.id) j ts ≡ some t
      → IsCoherent ts s
      → IsCoherent ts (cache_set redis (turf_key j) (turf_value t) ttl s)
  set_turf-IsCoherent ts s j t ttl f c id v e =
      elim (cache_set-entry redis (turf_key id) (turf_key j) (turf_value t) v ttl s e) [
        | inl old ↦ c id v old
        | inr (p, same) ↦
            let q : id ≡ j = cc in (t, same, ap (λ i. find_unique (λ (x : Turf). x.id) i ts) q ∙ f)
      ]

  -- A row changes, and what was cached of it goes.
  change-IsCoherent :
      (ts : List Turf) (s : Store) (j : ℕ) (f : Turf → Turf)
      → IsUp redis
      → ((t : Turf) → (f t).id ≡ t.id)
      → IsCoherent ts s
      → IsCoherent
          (update (λ (x : Turf). x.id) j f ts)
          (del_by_pattern redis is_list_key (cache_del redis (turf_key j) s))
  change-IsCoherent ts s j f up same c =
      drop_lists-IsCoherent (update (λ (x : Turf). x.id) j f ts) (cache_del redis (turf_key j) s)
        (λ id v e.
          let (old, ne) = cache_del-entry redis (turf_key id) (turf_key j) v s e in
          let other : id ≢ j = λ p. ne up (ap turf_key p) in
          let (t, p, q) = c id v old in
          (t, p, find_unique-update_ne (λ (x : Turf). x.id) f id j ts same other ∙ q))

  -- A row with a new number is no row that is cached.
  add-IsCoherent :
      (ts : List Turf) (s : Store) (t : Turf)
      → find_first (turf_clashes t) ts ≡ none
      → IsCoherent ts s
      → IsCoherent (t ∷ ts) (del_by_pattern redis is_list_key s)
  unfolding find_unique find_first
  add-IsCoherent ts s t n c =
      drop_lists-IsCoherent (t ∷ ts) s
        (λ id v e. let (x, p, q) = c id v e in (x, p, add_find id x q))
    where
      add_find :
          (id : ℕ) (x : Turf)
          → find_unique (λ (y : Turf). y.id) id ts ≡ some x
          → find_unique (λ (y : Turf). y.id) id (t ∷ ts) ≡ some x
      add_find id x q =
          let (m, k) = find_unique-eq-some (λ (y : Turf). y.id) id x ts q in
          let f = find_first-eq-none (turf_clashes t) x ts n m in ground (arith, m, k, f, q)

  -- The read of a turf finds the row, whether it is cached or not.
  find_one-lookup :
      (id : ℕ) (db : Db) (s : Store)
      → IsCoherent db.turfs s
      → (find_one redis id db s).0 ≡ lookup id db.turfs
  unfolding find_one
  find_one-lookup id db s c = elim (Option-cases (cache_get redis (turf_key id) s)) [
    | inr (v, e) ↦
        let (t, p, q) = c id v (cache_get-eq-some redis (turf_key id) v s e) in
        rw (e, find_one, q, lookup) (ap ok p)
    | inl n ↦ elim (Option-cases (turf_of id db)) [
      | inl m ↦ rw (n, find_one, m, lookup) refl
      | inr (t, e) ↦ rw (n, find_one, e, lookup) refl
    ]
  ]

  serve-IsCoherent :
      (r : Request) (db : Db) (s : Store)
      → IsUp redis
      → IsCoherent db.turfs s
      → ((serve r db s).0.turfs ≡ after_request r db.turfs)
        × IsCoherent (after_request r db.turfs) (serve r db s).1
  unfolding create find_all find_one update_turf remove get_available_slots slots_of_day
  serve-IsCoherent (creates fresh now id dto) db s up c =
      elim (Bool-cases (is_some (find_first (is_named dto.name dto.city) db.turfs))) [
        | inl t ↦ rw (t) (refl, c)
        | inr f ↦ elim (Option-cases (find_first (turf_clashes (new_turf id dto)) db.turfs)) [
          | inr (x, e) ↦ rw (f, e) (refl, c)
          | inl n ↦
              rw (f, n)
                (
                  generate_for_turf-turfs fresh now id 7
                      (record db { turfs = new_turf id dto ∷ db.turfs }),
                  add-IsCoherent db.turfs s (new_turf id dto) n c,
                )
        ]
      ]
  serve-IsCoherent (searches print q) db s up c =
      elim (Option-cases (cache_get redis (list_key (query_text print q)) s)) [
        | inr (v, e) ↦ rw (e, find_all) (refl, c)
        | inl n ↦
            rw (n, find_all)
              (
                refl,
                set_list-IsCoherent db.turfs s (query_text print q) (list_value (search_turfs q db))
                    300 c,
              )
      ]
  serve-IsCoherent (finds id) db s up c = elim (Option-cases (cache_get redis (turf_key id) s)) [
    | inr (v, e) ↦ rw (e, find_one) (refl, c)
    | inl n ↦ elim (Option-cases (turf_of id db)) [
      | inl m ↦ rw (n, find_one, m) (refl, c)
      | inr (t, e) ↦ rw (n, find_one, e) (refl, set_turf-IsCoherent db.turfs s id t 300 e c)
    ]
  ]
  serve-IsCoherent (updates id dto) db s up c = elim (Option-cases (turf_of id db)) [
    | inl n ↦ rw (n, update_turf, after_request) (refl, c)
    | inr (t, e) ↦ elim (Bool-cases (is_some (find_first (takes_name id dto.name) db.turfs))) [
      | inl taken ↦ rw (e, update_turf, after_request, taken) (refl, c)
      | inr f ↦
          rw (e, update_turf, after_request, f)
            (refl, change-IsCoherent db.turfs s id (patch_turf dto) up (λ x. refl) c)
    ]
  ]
  serve-IsCoherent (removes id) db s up c = elim (Option-cases (turf_of id db)) [
    | inl n ↦ rw (n, remove, after_request) (refl, c)
    | inr (t, e) ↦
        rw (e, remove, after_request)
          (refl, change-IsCoherent db.turfs s id deactivate up (λ x. refl) c)
  ]
  serve-IsCoherent (lists_slots fresh today id date) db s up c =
      elim (Option-cases (search_date today date)) [
        | inl n ↦ rw (n, get_available_slots) (refl, c)
        | inr (day, d) ↦ elim (Option-cases (cache_get redis (slots_key id day) s)) [
          | inr (v, e) ↦ rw (d, get_available_slots, e, slots_of_day) (refl, c)
          | inl n ↦ elim (Option-cases (turf_of id db)) [
            | inl m ↦ rw (d, get_available_slots, n, slots_of_day, m) (refl, c)
            | inr (t, e) ↦
                rw (d, get_available_slots, n, slots_of_day, e)
                  (
                    ensure_slots-turfs fresh t day db,
                    set_slots-IsCoherent db.turfs s id day
                        (slots_value t (slots_on id day (ensure_slots fresh t day db)) day) 60 c,
                  )
          ]
        ]
      ]

  -- While the cache answers, and starts with nothing under the keys of turfs but the rows that the
  -- table has: any sequence of the turf service's requests, each run to its end before the next, has
  -- on the rows of turfs the effect of its operations without a cache, and after it `findOne` of any
  -- turf answers exactly what the table holds: its row, cached or not, and not found where there is
  -- none.
  pub serve_all-lookup :
      (rs : List Request) (db : Db) (s : Store)
      → IsUp redis
      → IsCoherent db.turfs s
      → ((serve_all rs db s).0.turfs ≡ after rs db.turfs)
        × ((id : ℕ)
            → (find_one redis id (serve_all rs db s).0 (serve_all rs db s).1).0
              ≡ lookup id (after rs db.turfs))
  unfolding serve_all after
  serve_all-lookup [] db s up c = (refl, λ id. find_one-lookup id db s c)
  serve_all-lookup (r ∷ rs) db s up c =
      let (e, c') = serve-IsCoherent r db s up c in
      let ih = serve_all-lookup rs (serve r db s).0 (serve r db s).1 up (rw e c') in
      (ih.0 ∙ ap (after rs) e, λ id. ih.1 id ∙ ap (λ ts. lookup id (after rs ts)) e)
