-- ===== src/Server/Read.antt =====
-- `do_read` of core/dtss.cpp.
pub mod Order
use shyft.Prelude.{ℕ, ◌+◌, Bool, true, false, ◌||◌, Option, none, some, List, [], ◌∷◌, map, ite}
use shyft.Prelude.Tests.{ltb, ◌==◌, if◌then◌else◌}
use shyft.Prelude.Lists.{length}
use shyft.Prelude.Outcome.{Outcome, ok, throw, undefined, runtime_error, ◌>>=◌}
use shyft.Utc.{UtcPeriod}
use shyft.Cache.Fragments.{Fragment}
use shyft.Cache.Store
use shyft.Server.Url.{Text, extract_shyft_url_container, path_of}
use shyft.Server.Requests.{TsDb, Callbacks, Server, internal}

module _ {F X W V : Type 0} (same_name : Discrete Text) (T : Fragment F V)
    (container : List (Text × TsDb F X W)) (cb : Callbacks F X W) where
  -- `cc.find(id)` in the result of the cache
  abbrev pub find_cached : Text → List (Text × F) → Option F
  find_cached id [] = none
  find_cached id ((k, x) ∷ cc) = let rest = find_cached id cc in ite (same_name k id) (some x) rest

  -- if (cache_read_results) ts_cache.add(id, x);
  abbrev pub cache_read : Bool → Server F W → Text → F → Outcome (Server F W)
  cache_read caching self id x =
      if caching
      then (Store.add same_name T self.ts_cache id x >>= λ c. ok (record self { ts_cache = c }))
      else ok self

  -- The read of an own series.
  unfoldable pub read_internal :
      Bool → Server F W → Text → Text → UtcPeriod → Outcome (Server F W × F)
  read_internal caching self c id p = internal same_name container c >>= λ db.
      db.read self.stored (path_of c id) p >>= λ x.
      cache_read caching self id x >>= λ self'. ok (self', x)

  -- The loop over the identifiers: the slots of `r` that it fills, and none where it keeps the index
  -- in `other`.
  unfoldable pub read_slots :
      Bool
      → Server F W
      → List (Text × F)
      → List Text
      → UtcPeriod
      → Outcome (Server F W × List (Option F))
  read_slots caching self cc [] p = ok (self, [])
  read_slots caching self cc (id ∷ ids) p =
      let c = extract_shyft_url_container id in
      elim (find_cached id cc) [
        | some x ↦ read_slots caching self cc ids p >>= λ (self', slots). ok (self', some x ∷ slots)
        | none ↦
            if ltb 0 (length c)
            then (read_internal caching self c id p >>= λ (self', x).
                read_slots caching self' cc ids p >>= λ (self'', slots).
                ok (self'', some x ∷ slots))
            else (read_slots caching self cc ids p >>= λ (self', slots). ok (self', none ∷ slots))
      ]

  -- The identifiers whose index is in `other`.
  abbrev pub others : List Text → List (Option F) → List Text
  others [] slots = []
  others (id ∷ ids) [] = []
  others (id ∷ ids) (some x ∷ slots) = others ids slots
  others (id ∷ ids) (none ∷ slots) = id ∷ others ids slots

  -- r[other[i]] = o[i]; more answers than open slots would be read out of range.
  abbrev pub fill_slots : List (Option F) → List F → Outcome (List (Option F))
  fill_slots [] [] = ok []
  fill_slots [] (x ∷ o) = undefined
  fill_slots (some x ∷ slots) o = fill_slots slots o >>= λ r. ok (some x ∷ r)
  fill_slots (none ∷ slots) [] = fill_slots slots [] >>= λ r. ok (none ∷ r)
  fill_slots (none ∷ slots) (x ∷ o) = fill_slots slots o >>= λ r. ok (some x ∷ r)

  abbrev pub cache_all : Bool → Server F W → List Text → List F → Outcome (Server F W)
  cache_all caching self ids xs =
      if caching
      then (Store.add_all same_name T self.ts_cache ids xs >>= λ c.
          ok (record self { ts_cache = c }))
      else ok self

  -- Step 2: the callback reads the others, in one call.
  unfoldable pub read_others :
      Bool
      → Server F W
      → List Text
      → List (Option F)
      → UtcPeriod
      → Outcome (Server F W × List (Option F))
  read_others caching self ids slots p = elim cb.bind_ts_cb [
    | none ↦ throw runtime_error
    | some bind_ts ↦ bind_ts self.stored (others ids slots) p >>= λ o.
        cache_all caching self (others ids slots) o >>= λ self'.
        if length (others ids slots) == length ids
        then ok (self', map some o)
        else (fill_slots slots o >>= λ r. ok (self', r))
  ]

  -- `cc = ts_cache.get(ts_ids, p)`, where the cache may be used.
  unfoldable pub read_cache :
      Server F W → List Text → UtcPeriod → Bool → Outcome (Server F W × List (Text × F))
  read_cache self ts_ids p use_ts_cached_read =
      if use_ts_cached_read
      then (Store.get same_name T self.ts_cache ts_ids p >>= λ (c, cc).
          ok (record self { ts_cache = c }, cc))
      else ok (self, [])

  -- Steps 1 and 2, for what the cache did not have.
  unfoldable pub read_misses :
      Bool
      → Server F W
      → List (Text × F)
      → List Text
      → UtcPeriod
      → Outcome (Server F W × List (Option F))
  read_misses caching self cc ts_ids p = read_slots caching self cc ts_ids p >>= λ (self', slots).
      if ltb 0 (length (others ts_ids slots))
      then read_others caching self' ts_ids slots p
      else ok (self', slots)

  -- An empty slot is an empty series.
  unfoldable pub do_read :
      Server F W → List Text → UtcPeriod → Bool → Bool → Outcome (Server F W × List (Option F))
  do_read self [] p use_ts_cached_read update_ts_cache = ok (self, [])
  do_read self (id ∷ ids) p use_ts_cached_read update_ts_cache =
      let ts_ids = id ∷ ids in
      read_cache self ts_ids p use_ts_cached_read >>= λ (self', cc).
      if length cc == length ts_ids
      then ok (self', map (λ i. find_cached i cc) ts_ids)
      else read_misses (update_ts_cache || self.cache_all_reads) self' cc ts_ids p
