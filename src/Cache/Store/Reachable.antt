-- ===== src/Cache/Store/Reachable.antt =====
-- The states that the methods of `cache` lead to, in any order, from the constructor on.
use shyft.Prelude.{
  ℕ, zero, suc, ◌<◌, ◌≡◌, refl, sym, ap, ◌∙◌, Option, none, some, List, [], ◌∷◌, arith,
}
use mathlib.Core.Path.{subst}
use shyft.Prelude.Lists.{All-drop}
use shyft.Prelude.Outcome.{ok, ok-injective}
use shyft.Utc.{UtcPeriod}
use shyft.Cache.Lru
use shyft.Cache.Lru.{LruCache, Entry, find}
use shyft.Cache.Lru.Linked.{touch, All-erase}
use shyft.Cache.Lru.Capacity.{most_recent}
use shyft.Cache.Lru.Operations.{IsLru, remove_item_lem, set_capacity_parts}
use shyft.Cache.Fragments.{Fragment}
use shyft.Cache.Fragments.Returns.{Merges}
use shyft.Cache.Store
use shyft.Cache.Store.{
  Cache, init, add, try_get, remove, set_capacity, flush, clear_cache_stats, get, get_loop,
  set_result, internal_try_get, remove_all, no_stats,
}
use shyft.Cache.Store.Invariant.{IsMinimal, IsCache, IsTried, try_get_lem}
use shyft.Cache.Store.Add.{add_lem}

module _ {ℓ} {F V : Type ℓ} (T : Fragment F V) {K : Type ℓ} (dec : Discrete K) where
  open T use {IsFragment}

  pub data Reachable : Cache K F → Type ℓ where
    constructed : (n : ℕ) → 0 < n → Reachable (init dec T n)
    after_add :
        (c c' : Cache K F) (id : K) (x : F)
        → Reachable c
        → IsFragment x
        → add dec T c id x ≡ ok c'
        → Reachable c'
    after_try_get :
        (c c' : Cache K F) (id : K) (p : UtcPeriod) (r : Option F)
        → Reachable c
        → try_get dec T c id p ≡ ok (c', r)
        → Reachable c'
    after_remove :
        (c c' : Cache K F) (id : K) → Reachable c → remove dec T c id ≡ ok c' → Reachable c'
    after_set_capacity :
        (c c' : Cache K F) (n : ℕ) → Reachable c → set_capacity dec T c n ≡ ok c' → Reachable c'
    after_flush : (c : Cache K F) → Reachable c → Reachable (flush dec T c)
    after_clear : (c : Cache K F) → Reachable c → Reachable (clear_cache_stats dec T c)

  -- A state with some list of entries, which the capacity bounds.
  abbrev pub IsSound : Cache K F → Type ℓ
  IsSound c = (s : List (Entry K (List F))) × IsCache T dec c s

  with_stats : (c : Cache K F) (cs : Store.CacheStats) → IsSound c → IsSound (record c { cs = cs })
  with_stats c cs (s, C) = (s, record { lru = C.lru; minimal = C.minimal })

  empty-IsLru : (c : LruCache K (List F)) → 0 < c.capacity → IsLru dec (Lru.flush dec c) []
  unfolding Lru.flush
  empty-IsLru c h = record {
    linked = record {
      tracker = refl;
      lookup = λ q. refl;
      map_keyed = tt;
      keyed = tt;
      placed = tt;
      allocated = tt;
      count = refl;
    };
    positive = h;
    bounded = omega arith;
  }

  init-IsSound : (n : ℕ) → 0 < n → IsSound (init dec T n)
  unfolding init Lru.init Lru.flush
  init-IsSound n h = ([], record { lru = empty-IsLru (Lru.init n) h; minimal = tt })

  flush-IsSound : (c : Cache K F) → IsSound c → IsSound (flush dec T c)
  unfolding flush
  flush-IsSound c (s, C) = ([], record { lru = empty-IsLru c.c C.lru.positive; minimal = tt })

  try_get-IsSound :
      (c c' : Cache K F) (id : K) (p : UtcPeriod) (r : Option F)
      → IsSound c
      → try_get dec T c id p ≡ ok (c', r)
      → IsSound c'
  try_get-IsSound c c' id p r (s, C) e =
      let (d, answer, got, tried) = try_get_lem T dec c s C id p in
      let same : d ≡ c' = ap (λ q. q.0) (ok-injective (sym got ∙ e)) in
      subst IsSound same (sound d answer (find dec id s) tried)
    where
      sound :
          (d : Cache K F) (answer : Option F) (found : Option (Entry K (List F)))
          → IsTried T dec c s p found answer d
          → IsSound d
      sound d answer none h = subst IsSound (sym h.1) (with_stats c _ (s, C))
      sound d none (some y) h = (touch dec y s, h.1)
      sound d (some x) (some y) h = (touch dec y s, h.1)

  remove-IsSound : (c c' : Cache K F) (id : K) → IsSound c → remove dec T c id ≡ ok c' → IsSound c'
  unfolding remove
  remove-IsSound c c' id (s, C) e =
      let (l, removed, L) = remove_item_lem dec c.c s C.lru id in
      let same : remove dec T c id ≡ ok (record c { c = l }) = rw (removed, remove) refl in
      subst IsSound (ok-injective (sym same ∙ e)) (
        Lru.erase dec id s,
        record { lru = L; minimal = All-erase dec (λ e. IsMinimal T e.value) id s C.minimal },
      )

  set_capacity-IsSound :
      (c c' : Cache K F) (n : ℕ) → IsSound c → set_capacity dec T c n ≡ ok c' → IsSound c'
  unfolding set_capacity
  set_capacity-IsSound c c' zero (s, C) e =
      let refused = (set_capacity_parts dec c.c s C.lru 0).0 refl in
      cc (rw (refused, set_capacity) at e)
  set_capacity-IsSound c c' (suc n) (s, C) e =
      let (l, done, L, _) = (set_capacity_parts dec c.c s C.lru (suc n)).1 (omega arith) in
      let same : set_capacity dec T c (suc n) ≡ ok (record c { c = l }) =
        rw (done, set_capacity) refl in
      subst IsSound (ok-injective (sym same ∙ e)) (
        most_recent (suc n) s,
        record { lru = L; minimal = All-drop (λ e. IsMinimal T e.value) _ s C.minimal },
      )

  -- When overlapping and touching fragments can be merged, every state that the methods of the cache
  -- reach, from a capacity above 0 and with well-formed fragments, satisfies the invariant for some
  -- list of entries.
  pub Reachable-IsSound : (c : Cache K F) → Merges T → Reachable c → IsSound c
  unfolding clear_cache_stats
  Reachable-IsSound _ merges (constructed n h) = init-IsSound n h
  Reachable-IsSound _ merges (after_add d c id x r fx e) =
      let (s, C) = Reachable-IsSound d merges r in
      let (d', g, done, C', _, _, _) = add_lem T dec d s C id x merges fx in
      subst IsSound (ok-injective (sym done ∙ e)) (_, C')
  Reachable-IsSound _ merges (after_try_get d c id p x r e) =
      try_get-IsSound d c id p x (Reachable-IsSound d merges r) e
  Reachable-IsSound _ merges (after_remove d c id r e) =
      remove-IsSound d c id (Reachable-IsSound d merges r) e
  Reachable-IsSound _ merges (after_set_capacity d c n r e) =
      set_capacity-IsSound d c n (Reachable-IsSound d merges r) e
  Reachable-IsSound _ merges (after_flush d r) = flush-IsSound d (Reachable-IsSound d merges r)
  Reachable-IsSound _ merges (after_clear d r) =
      with_stats d no_stats (Reachable-IsSound d merges r)

  try_get-internal_try_get :
      (c : Cache K F) (id : K) (p : UtcPeriod)
      → try_get dec T c id p ≡ internal_try_get dec T c id p
  unfolding try_get
  try_get-internal_try_get c id p = refl

  get_loop-Reachable :
      (c : Cache K F) (ids : List K) (p : UtcPeriod) (r : List (K × F))
      → Merges T
      → Reachable c
      → (c' : Cache K F) × (r' : List (K × F)) × (get_loop dec T c ids p r ≡ ok (c', r'))
        × Reachable c'
  unfolding get_loop
  get_loop-Reachable c [] p r merges h = (c, r, refl, h)
  get_loop-Reachable c (id ∷ ids) p r merges h =
      let (s, C) = Reachable-IsSound c merges h in
      let (d, answer, got, _) = try_get_lem T dec c s C id p in
      let got' : internal_try_get dec T c id p ≡ ok (d, answer) =
        sym (try_get-internal_try_get c id p) ∙ got in
      let r' : List (K × F) = elim answer [ none ↦ r | some x ↦ set_result dec T id x r ] in
      let (c', result, rest, h') =
        get_loop-Reachable d ids p r' merges (after_try_get c d id p answer h got) in
      (c', result, rw got' rest, h')

  -- In every such state, `get` returns for every list of ids, and leads to such a state.
  pub get-Reachable :
      (c : Cache K F) (ids : List K) (p : UtcPeriod)
      → Merges T
      → Reachable c
      → (c' : Cache K F) × (r : List (K × F)) × (get dec T c ids p ≡ ok (c', r)) × Reachable c'
  unfolding get
  get-Reachable c ids p merges h = get_loop-Reachable c ids p [] merges h
