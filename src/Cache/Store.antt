-- ===== src/Cache/Store.antt =====
-- `cache` and `cache_stats` of core/dtss_cache.h: the lru cache of fragment containers by the id of
-- the time-series, with counters. Each method runs under the lock of the cache, so a method is one
-- step. A wrapper `ts_frag{ts}` around a time-series and the time-series itself are one type here.
--
-- Where a call throws, the model has no state after it: the source leaves the container as it was,
-- and the key already moved to the most recently used place.
pub mod Invariant
pub mod Add
pub mod Reachable
use shyft.Prelude.{
  ℕ, zero, suc, ◌+◌, Bool, true, false, not, Option, none, some, List, [], ◌∷◌, map, ite,
}
use shyft.Prelude.Tests.{◌==◌, if◌then◌else◌}
use shyft.Prelude.Lists.{length, get_elem?}
use shyft.Prelude.Outcome.{Outcome, ok, throw, undefined, ◌>>=◌, runtime_error}
use shyft.Utc.{UtcPeriod}
use shyft.Cache.Lru
use shyft.Cache.Lru.{LruCache, Entry}
use shyft.Cache.Fragments
use shyft.Cache.Fragments.{Fragment}

pub record CacheStats : Type 0 where
  pub hits : ℕ
  pub misses : ℕ
  pub coverage_misses : ℕ
  pub id_count : ℕ
  pub point_count : ℕ
  pub fragment_count : ℕ

abbrev pub no_stats : CacheStats
no_stats = record {
  hits = 0;
  misses = 0;
  coverage_misses = 0;
  id_count = 0;
  point_count = 0;
  fragment_count = 0;
}

-- `operator+`
unfoldable pub add_stats : CacheStats → CacheStats → CacheStats
add_stats l r = record {
  hits = l.hits + r.hits;
  misses = l.misses + r.misses;
  coverage_misses = l.coverage_misses + r.coverage_misses;
  id_count = l.id_count + r.id_count;
  point_count = l.point_count + r.point_count;
  fragment_count = l.fragment_count + r.fragment_count;
}

pub record Cache {ℓ} (K F : Type ℓ) : Type ℓ where
  pub c : LruCache K (List F)
  pub cs : CacheStats

module _ {ℓ} {K F V : Type ℓ} (dec : Discrete K) (T : Fragment F V) where
  unfoldable pub init : ℕ → Cache K F
  init id_max_count = record { c = Lru.init id_max_count; cs = no_stats }

  abbrev pub hit : CacheStats → CacheStats
  hit cs = record cs { hits = cs.hits + 1 }

  abbrev pub miss : CacheStats → CacheStats
  miss cs = record cs { misses = cs.misses + 1 }

  abbrev pub coverage_miss : CacheStats → CacheStats
  coverage_miss cs = record cs { coverage_misses = cs.coverage_misses + 1 }

  -- A read past the end of the fragments would be undefined.
  unfoldable pub read_fragment :
      LruCache K (List F) → CacheStats → List F → Option ℕ → Outcome (Cache K F × Option F)
  read_fragment c cs mf none = ok (record { c = c; cs = coverage_miss cs }, none)
  read_fragment c cs mf (some ix) = elim (get_elem? mf ix) [
    | none ↦ undefined
    | some x ↦ ok (record { c = c; cs = cs }, some x)
  ]

  unfoldable pub internal_try_get : Cache K F → K → UtcPeriod → Outcome (Cache K F × Option F)
  internal_try_get self id p =
      if not (Lru.item_exists dec self.c id)
      then ok (record self { cs = miss self.cs }, none)
      else (Lru.get_item dec self.c id >>= λ r.
          read_fragment r.0 (hit self.cs) r.1 (Fragments.get_ix T r.1 p))

  unfoldable pub internal_add : Cache K F → K → F → Outcome (Cache K F)
  internal_add self id ts =
      if not (Lru.item_exists dec self.c id)
      then (Fragments.add T [] ts >>= λ mf.
          Lru.add_item dec self.c id mf >>= λ c'. ok (record self { c = c' }))
      else (Lru.get_item dec self.c id >>= λ r. Fragments.add T r.1 ts >>= λ mf.
          let c' = r.0 in
          ok
            (record self { c = record c' { key_to_value = Lru.assign dec id mf c'.key_to_value } }))

  unfoldable pub set_capacity : Cache K F → ℕ → Outcome (Cache K F)
  set_capacity self id_max_count =
      Lru.set_capacity dec self.c id_max_count >>= λ c'. ok (record self { c = c' })

  unfoldable pub get_capacity : Cache K F → ℕ
  get_capacity self = self.c.capacity

  unfoldable pub try_get : Cache K F → K → UtcPeriod → Outcome (Cache K F × Option F)
  try_get self id p = internal_try_get self id p

  -- `r[id] = x` of the result map.
  unfoldable pub set_result : K → F → List (K × F) → List (K × F)
  set_result id x [] = (id, x) ∷ []
  set_result id x ((k, y) ∷ r) =
      let rest = set_result id x r in ite (dec k id) ((k, x) ∷ r) ((k, y) ∷ rest)

  -- The loop of `get`, with the result map so far.
  unfoldable pub get_loop :
      Cache K F → List K → UtcPeriod → List (K × F) → Outcome (Cache K F × List (K × F))
  get_loop self [] p r = ok (self, r)
  get_loop self (id ∷ ids) p r = internal_try_get self id p >>= λ (self', found).
      get_loop self' ids p (elim found [ none ↦ r | some x ↦ set_result id x r ])

  unfoldable pub get : Cache K F → List K → UtcPeriod → Outcome (Cache K F × List (K × F))
  get self ids p = get_loop self ids p []

  unfoldable pub add : Cache K F → K → F → Outcome (Cache K F)
  add self id ts = internal_add self id ts

  -- The loop of `add` over vectors of one length; what it would read past the end is undefined.
  unfoldable pub add_loop : Cache K F → List K → List F → Outcome (Cache K F)
  add_loop self [] tss = ok self
  add_loop self (id ∷ ids) [] = undefined
  add_loop self (id ∷ ids) (ts ∷ tss) = internal_add self id ts >>= λ self'. add_loop self' ids tss

  unfoldable pub add_all : Cache K F → List K → List F → Outcome (Cache K F)
  add_all self ids tss =
      if not (length ids == length tss) then throw runtime_error else add_loop self ids tss

  unfoldable pub remove : Cache K F → K → Outcome (Cache K F)
  remove self id = Lru.remove_item dec self.c id >>= λ c'. ok (record self { c = c' })

  unfoldable pub remove_all : Cache K F → List K → Outcome (Cache K F)
  remove_all self [] = ok self
  remove_all self (id ∷ ids) = remove self id >>= λ self'. remove_all self' ids

  unfoldable pub flush : Cache K F → Cache K F
  flush self = record self { c = Lru.flush dec self.c }

  -- `apply_to_items`, with the lambda of `get_cache_stats`, which counts one item.
  unfoldable pub count_items : CacheStats → List (Entry K (List F)) → CacheStats
  count_items r [] = r
  count_items r (e ∷ items) =
      count_items
        (record r {
          point_count = r.point_count + Fragments.estimate_size T e.value;
          fragment_count = r.fragment_count + Fragments.count_fragments T e.value;
          id_count = r.id_count + 1;
        })
        items

  unfoldable pub get_cache_stats : Cache K F → CacheStats
  get_cache_stats self = count_items self.cs self.c.key_to_value

  unfoldable pub clear_cache_stats : Cache K F → Cache K F
  clear_cache_stats self = record self { cs = no_stats }
