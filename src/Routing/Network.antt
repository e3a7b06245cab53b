-- ===== src/Routing/Network.antt =====
-- `river_network` of core/routing.h: rivers by their id, each with the id of the river that it flows
-- into. A `double` is any type `D`. An id of a river is a 32-bit `int`; the id in a `routing_info` has
-- 64 bits, and is cut to 32 where an `int` is wanted.
use shyft.Prelude.{
  ℕ, zero, suc, ◌-◌, ◌%◌, ◌^◌, Bool, true, false, not, ◌&&◌, Option, none, some, List, [], ◌∷◌,
  ◌++◌,
}
pub mod Cycles
pub mod Search
pub mod Invariant
pub mod Add
pub mod Change
pub mod Remove
pub mod Redirect
pub mod Connect
pub mod Reachable
pub mod Entries
pub mod Upstreams
use shyft.Prelude.Tests.{if◌then◌else◌}
use shyft.Prelude.Lists.{length}
use shyft.Prelude.Int.{ℤ, pos, negsuc, ltb_ℤ, eqb_ℤ, to_int}
use shyft.Prelude.Outcome.{Outcome, undefined, throw, ok, runtime_error, ◌>>=◌}
use shyft.Routing.Maps.{find, insert, erase}

pub record UhgParameter {ℓ} (D : Type ℓ) : Type ℓ where
  pub velocity : D
  pub alpha : D
  pub beta : D

pub record RoutingInfo {ℓ} (D : Type ℓ) : Type ℓ where
  pub id : ℤ
  pub distance : D

pub record River {ℓ} (D : Type ℓ) : Type ℓ where
  pub id : ℤ
  pub downstream : RoutingInfo D
  pub parameter : UhgParameter D

-- `rid_map`
abbrev pub RiverNetwork {ℓ} : Type ℓ → Type ℓ
RiverNetwork D = List (ℤ × River D)

-- A call that throws may have changed the network.
abbrev pub Call {ℓ κ} : Type ℓ → Type κ → Type (ℓ ⊔ κ)
Call D A = RiverNetwork D × Outcome A

unfoldable pub valid_routing_id : ℤ → Bool
valid_routing_id rid = ltb_ℤ (pos 0) rid

-- A conversion to `unsigned`.
unfoldable pub to_unsigned : ℤ → ℤ
to_unsigned (pos n) = pos (n % 2 ^ 32)
to_unsigned (negsuc n) = pos (2 ^ 32 - 1 - n % 2 ^ 32)

-- `visited[k]`
unfoldable pub is_visited : ℤ → List (ℤ × Bool) → Bool
is_visited k visited = elim (find k visited) [ none ↦ false | some b ↦ b ]

-- The loop of `all_upstreams_by_id`.
unfoldable pub collect : (ℤ → Outcome (List ℤ)) → List ℤ → Outcome (List ℤ)
collect all_upstreams [] = ok []
collect all_upstreams (i ∷ rids) =
    all_upstreams i >>= λ xtra. collect all_upstreams rids >>= λ rest. ok (xtra ++ rest)

module _ {ℓ} {D : Type ℓ} where
  -- The id that a river flows into, as an `int`.
  unfoldable pub downstream_id : River D → ℤ
  downstream_id r = to_int r.downstream.id

  abbrev pub with_downstream : ℤ → River D → River D
  with_downstream d r = record r { downstream = record r.downstream { id = d } }

  -- `rid_map.find(rid)->second`
  unfoldable pub second : RiverNetwork D → ℤ → Outcome (River D)
  second m rid = elim (find rid m) [ none ↦ undefined | some r ↦ ok r ]

  unfoldable pub is_absent : RiverNetwork D → ℤ → Bool
  is_absent m rid = elim (find rid m) [ none ↦ true | some _ ↦ false ]

  unfoldable pub check_rid : RiverNetwork D → ℤ → Bool → Outcome (Unit {0})
  check_rid m rid must_exist =
      if not (valid_routing_id rid)
      then throw runtime_error
      else if must_exist
      then elim (find rid m) [ none ↦ throw runtime_error | some _ ↦ ok tt ]
      else ok tt

  unfoldable pub not_visited : RiverNetwork D → List (ℤ × Bool)
  not_visited [] = []
  not_visited (e ∷ m) = insert e.0 false (not_visited m)

  -- The way downstream from one river. Each round marks a river that was not visited, so more fuel
  -- than there are rivers is enough.
  unfoldable pub follow : ℕ → RiverNetwork D → List (ℤ × Bool) → ℤ → Outcome Bool
  follow zero m visited d = undefined
  follow (suc fuel) m visited d =
      let go_on = (second m d >>= λ r. follow fuel m (insert d true visited) (downstream_id r)) in
      if not (valid_routing_id d) then ok false else if is_visited d visited then ok true else go_on

  unfoldable pub search_cycle : RiverNetwork D → RiverNetwork D → Outcome Bool
  search_cycle m [] = ok false
  search_cycle m (e ∷ rest) =
      let go_on = search_cycle m rest in
      follow (suc (length m)) m (insert e.0 true (not_visited m)) (downstream_id e.1) >>= λ cycle.
      if cycle then ok true else go_on

  unfoldable pub network_contains_directed_cycle : RiverNetwork D → Outcome Bool
  network_contains_directed_cycle m = search_cycle m m

  -- The rest of a call, if what comes before returns.
  abbrev pub after {κ μ} :
      {A : Type κ} {B : Type μ} → RiverNetwork D → Outcome A → (A → Call D B) → Call D B
  after m undefined next = (m, undefined)
  after m (throw error) next = (m, throw error)
  after m (ok a) next = next a

  unfoldable pub add : RiverNetwork D → River D → Call D (Unit {0})
  add m r = after m (check_rid m r.id false) λ _. elim (find r.id m) [
    | some _ ↦ (m, throw runtime_error)
    | none ↦
        if eqb_ℤ r.id r.downstream.id
        then (m, throw runtime_error)
        else if valid_routing_id (downstream_id r) && is_absent m (downstream_id r)
        then (m, throw runtime_error)
        else (let added = insert r.id r m in
            after added (network_contains_directed_cycle added)
              λ cycle. if cycle then (erase r.id added, throw runtime_error) else (added, ok tt))
  ]

  unfoldable pub upstreams : ℤ → RiverNetwork D → List ℤ
  upstreams rid [] = []
  upstreams rid (e ∷ m) =
      let rest = upstreams rid m in if eqb_ℤ e.1.downstream.id rid then e.0 ∷ rest else rest

  unfoldable pub upstreams_by_id : RiverNetwork D → ℤ → Outcome (List ℤ)
  upstreams_by_id m rid = check_rid m rid true >>= λ _. ok (upstreams rid m)

  -- `rid_map[i].downstream.id = d`, for an `i` that is there.
  unfoldable pub set_downstream : ℤ → ℤ → RiverNetwork D → RiverNetwork D
  set_downstream i d m = elim (find i m) [ none ↦ m | some r ↦ insert i (with_downstream d r) m ]

  unfoldable pub clear_downstream : List ℤ → RiverNetwork D → RiverNetwork D
  clear_downstream [] m = m
  clear_downstream (i ∷ rids) m = clear_downstream rids (set_downstream i (pos 0) m)

  unfoldable pub remove_by_id : RiverNetwork D → ℤ → Call D (Unit {0})
  remove_by_id m rid =
      after m (check_rid m rid true)
        λ _. after m (upstreams_by_id m rid) λ rids. (erase rid (clear_downstream rids m), ok tt)

  unfoldable pub river_by_id : RiverNetwork D → ℤ → Outcome (River D)
  river_by_id m rid = check_rid m rid true >>= λ _. second m rid

  unfoldable pub downstream_by_id : RiverNetwork D → ℤ → Outcome ℤ
  downstream_by_id m rid = check_rid m rid true >>= λ _. second m rid >>= λ r. ok (downstream_id r)

  -- The recursion goes upstream, so it ends where there is no cycle.
  unfoldable pub all_upstreams : ℕ → RiverNetwork D → ℤ → Outcome (List ℤ)
  all_upstreams zero m rid = undefined
  all_upstreams (suc fuel) m rid = check_rid m rid true >>= λ _. upstreams_by_id m rid >>= λ rids.
      collect (all_upstreams fuel m) rids >>= λ more. ok (rids ++ more)

  unfoldable pub all_upstreams_by_id : RiverNetwork D → ℤ → Outcome (List ℤ)
  all_upstreams_by_id m rid = all_upstreams (suc (suc (length m))) m rid

  unfoldable pub set_downstream_by_id : RiverNetwork D → ℤ → ℤ → Call D (Unit {0})
  set_downstream_by_id m rid downstream_rid = after m (check_rid m rid true) λ _.
      after m (if valid_routing_id downstream_rid then check_rid m downstream_rid true else ok tt)
        λ _. after m (second m rid) λ r.
          let rid_old_downstream = to_unsigned r.downstream.id in
          let connected = set_downstream rid downstream_rid m in
          after connected (network_contains_directed_cycle connected) λ cycle.
            if cycle
            then (set_downstream rid rid_old_downstream connected, throw runtime_error)
            else (connected, ok tt)

  -- `model::verify_cell_river_connections`, on the ids of the rivers that the cells flow into.
  unfoldable pub verify_cell_river_connections : RiverNetwork D → List ℤ → Outcome (Unit {0})
  verify_cell_river_connections m [] = ok tt
  verify_cell_river_connections m (id ∷ cells) =
      let rest = verify_cell_river_connections m cells in
      if ltb_ℤ (pos 0) id then (check_rid m (to_int id) true >>= λ _. rest) else rest
