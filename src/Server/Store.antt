-- ===== src/Server/Store.antt =====
-- `do_store_ts` and `do_merge_store_ts` of core/dtss.cpp. Where a call throws, the series before it
-- are stored already; the model has no state after it.
pub mod Foreign
use shyft.Prelude.{
  ℕ, ◌+◌, Bool, true, false, ◌||◌, Option, none, some, List, [], ◌∷◌, ◌++◌, map, ite,
}
use shyft.Prelude.Tests.{ltb, ◌==◌, if◌then◌else◌}
use shyft.Prelude.Lists.{length}
use shyft.Prelude.Outcome.{Outcome, ok, throw, undefined, runtime_error, ◌>>=◌}
use shyft.Utc.{UtcPeriod, period_eq}
use shyft.Cache.Fragments.{Fragment}
use shyft.Cache.Store
use shyft.Expressions.Tree.{Ts, aref_ts}
use shyft.Server.Url.{Text, extract_shyft_url_container, path_of}
use shyft.Server.Requests.{TsDb, Callbacks, Server, internal}
use shyft.Server.Read.{do_read}

-- `dynamic_pointer_cast<aref_ts>`, with the throw that follows when it fails
abbrev pub as_reference : {F I D A P : Type 0} → Ts F I D A P → Outcome (I × Option F)
as_reference (aref_ts id rep) = ok (id, rep)
as_reference _ = throw runtime_error

-- `core_ts()` of a reference
abbrev pub core_ts : {F : Type 0} → Option F → Outcome F
core_ts none = throw runtime_error
core_ts (some x) = ok x

module _ {F X W V : Type 0} (same_name : Discrete Text) (T : Fragment F V)
    (container : List (Text × TsDb F X W)) (cb : Callbacks F X W) where
  abbrev pub cache_write : Bool → Server F W → Text → F → Outcome (Server F W)
  cache_write cache_on_write self id x =
      if cache_on_write
      then (Store.add same_name T self.ts_cache id x >>= λ c. ok (record self { ts_cache = c }))
      else ok self

  unfoldable pub save_own : Bool → Bool → Server F W → Text → Text → Option F → Outcome (Server F W)
  save_own overwrite cache_on_write self c id rep = internal same_name container c >>= λ db.
      core_ts rep >>= λ x. db.save self.stored (path_of c id) x overwrite >>= λ w.
      cache_write cache_on_write (record self { stored = w }) id x

  -- Step 1: own series are saved, and the others are kept for the callback.
  unfoldable pub store_own :
      {D A P : Type 0}
      → Bool
      → Bool
      → Server F W
      → List (Ts F Text D A P)
      → Outcome (Server F W × List (Text × Option F))
  store_own overwrite cache_on_write self [] = ok (self, [])
  store_own overwrite cache_on_write self (t ∷ tsv) = as_reference t >>= λ (id, rep).
      let c = extract_shyft_url_container id in
      if ltb 0 (length c)
      then (save_own overwrite cache_on_write self c id rep >>= λ self'.
          store_own overwrite cache_on_write self' tsv)
      else (store_own overwrite cache_on_write self tsv >>= λ (self', other).
          ok (self', (id, rep) ∷ other))

  -- What the callback gets. A reference without content is left out of the model here.
  abbrev pub contents : List (Text × Option F) → Outcome (List (Text × F))
  contents [] = ok []
  contents ((id, none) ∷ tsv) = undefined
  contents ((id, some x) ∷ tsv) = contents tsv >>= λ rest. ok ((id, x) ∷ rest)

  unfoldable pub do_cache_update_on_write : Server F W → List (Text × F) → Outcome (Server F W)
  do_cache_update_on_write self [] = ok self
  do_cache_update_on_write self ((id, x) ∷ tsv) = Store.add same_name T self.ts_cache id x >>= λ c.
      do_cache_update_on_write (record self { ts_cache = c }) tsv

  -- Step 2: the others, in their order. Whether they are all of the vector or a copy of some is one.
  unfoldable pub store_others : Bool → Server F W → List (Text × Option F) → Outcome (Server F W)
  store_others cache_on_write self [] = ok self
  store_others cache_on_write self (o ∷ other) = elim cb.store_ts_cb [
    | none ↦ ok self
    | some store_ts ↦ contents (o ∷ other) >>= λ tsv. store_ts self.stored tsv >>= λ w.
        if cache_on_write
        then do_cache_update_on_write (record self { stored = w }) tsv
        else ok (record self { stored = w })
  ]

  unfoldable pub do_store_ts :
      {D A P : Type 0} → Server F W → List (Ts F Text D A P) → Bool → Bool → Outcome (Server F W)
  do_store_ts self tsv overwrite_on_write cache_on_write =
      store_own overwrite_on_write cache_on_write self tsv >>= λ (self', other).
      store_others cache_on_write self' other

  abbrev pub has_id : Text → List (Text × F) → Bool
  has_id id [] = false
  has_id id ((k, x) ∷ m) = let rest = has_id id m in ite (same_name k id) true rest

  -- read_map[rp].push_back(id): the periods in the order of their first series
  abbrev pub add_to_period :
      UtcPeriod → Text × F → List (UtcPeriod × List (Text × F)) → List (UtcPeriod × List (Text × F))
  add_to_period rp x [] = (rp, x ∷ []) ∷ []
  add_to_period rp x ((q, l) ∷ m) =
      let rest = add_to_period rp x m in
      if period_eq q rp then (q, l ++ x ∷ []) ∷ m else (q, l) ∷ rest

  -- Step 0 of the merge: the series by their period, each with its points; no identifier may occur
  -- twice. `id_map` has the ones before.
  unfoldable pub group_by_period :
      {D A P : Type 0}
      → List (Ts F Text D A P)
      → List (Text × F)
      → List (UtcPeriod × List (Text × F))
      → Outcome (List (UtcPeriod × List (Text × F)))
  group_by_period [] id_map read_map = ok read_map
  group_by_period (t ∷ tsv) id_map read_map = as_reference t >>= λ (id, rep).
      if has_id id id_map then throw runtime_error else (elim rep [
        | none ↦ undefined
        | some x ↦
            group_by_period tsv ((id, x) ∷ id_map)
              (add_to_period (T.total_period x) (id, x) read_map)
      ])

  -- read_ts[i].merge_points(id_map[ts_id]), each put back under its identifier. `merge_points` gives
  -- the series that was read with the new points over it; an empty slot takes the new points.
  unfoldable pub merge_read :
      {D A P : Type 0}
      → (F → F → Outcome F)
      → List (Text × F)
      → List (Option F)
      → Outcome (List (Ts F Text D A P))
  merge_read merge_points new [] = ok []
  merge_read merge_points [] (r ∷ read) = undefined
  merge_read merge_points ((id, x) ∷ new) (none ∷ read) =
      merge_read merge_points new read >>= λ rest. ok (aref_ts id (some x) ∷ rest)
  merge_read merge_points ((id, x) ∷ new) (some y ∷ read) = merge_points y x >>= λ m.
      merge_read merge_points new read >>= λ rest. ok (aref_ts id (some m) ∷ rest)

  abbrev pub ids_of : List (Text × F) → List Text
  ids_of tsv = map (λ x. x.0) tsv

  -- Step 1 of the merge, over the groups in the order that the hash map gives them.
  unfoldable pub merge_groups :
      {D A P : Type 0}
      → (F → F → Outcome F)
      → Bool
      → Server F W
      → List (UtcPeriod × List (Text × F))
      → Outcome (Server F W × List (Ts F Text D A P))
  merge_groups merge_points cache_on_write self [] = ok (self, [])
  merge_groups merge_points cache_on_write self ((rp, new) ∷ groups) =
      do_read same_name T container cb self (ids_of new) rp cache_on_write cache_on_write
      >>= λ (self', read). merge_read merge_points new read >>= λ tsv.
          merge_groups merge_points cache_on_write self' groups >>= λ (self'', rest).
          ok (self'', tsv ++ rest)

  -- `hash_order` is the order in which the hash map of periods is walked.
  unfoldable pub do_merge_store_ts :
      {D A P : Type 0}
      → (List (UtcPeriod × List (Text × F)) → List (UtcPeriod × List (Text × F)))
      → (F → F → Outcome F)
      → Server F W
      → List (Ts F Text D A P)
      → Bool
      → Outcome (Server F W)
  do_merge_store_ts {D} {A} {P} hash_order merge_points self tsv cache_on_write =
      group_by_period tsv [] [] >>= λ read_map.
      merge_groups {D = D} {A = A} {P = P} merge_points cache_on_write self (hash_order read_map)
      >>= λ (self', tsv_store). do_store_ts self' tsv_store false cache_on_write
