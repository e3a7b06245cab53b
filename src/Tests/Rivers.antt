-- ===== src/Tests/Rivers.antt =====
-- River networks at concrete inputs. A distance is a natural number here.
use shyft.Prelude.{ℕ, ◌≡◌, refl, ◌↔◌, ◌⊎◌, true, false, none, some, List, [], ◌∷◌}
use mathlib.Core.Option
use mathlib.Core.List.{Memᴰ}
use shyft.Prelude.Tests.{if◌then◌else◌}
use shyft.Prelude.Int.{ℤ, pos, negsuc, to_int, eqb_ℤ}
use shyft.Prelude.Outcome.{ok, throw, undefined, runtime_error}
use shyft.Routing.Maps.{find, insert, erase}
use shyft.Routing.Network.{
  RiverNetwork, River, valid_routing_id, to_unsigned, downstream_id, is_visited, second, is_absent,
  check_rid, not_visited, follow, search_cycle, network_contains_directed_cycle, add, upstreams,
  upstreams_by_id, set_downstream, clear_downstream, remove_by_id, collect, all_upstreams,
  all_upstreams_by_id, downstream_by_id, set_downstream_by_id,
}
use shyft.Routing.Network.Cycles.{Edge, Reaches, HasCycle}
use shyft.Routing.Network.Search.{network_contains_directed_cycle_lem}
use shyft.Routing.Network.Invariant.{IsNetwork}
use shyft.Routing.Network.Add.{CanAdd, add-accepts_iff}
use shyft.Routing.Network.Remove.{without, remove_by_id_lem}
use shyft.Routing.Network.Connect.{set_downstream_by_id_lem}
use shyft.Routing.Network.Reachable.{Reachable, start, next, added, Reachable-IsNetwork}
use shyft.Routing.Network.Upstreams.{all_upstreams_by_id_lem}

abbrev river : ℕ → ℤ → River ℕ
river id to = record {
  id = pos id;
  downstream = record { id = to; distance = 1000 };
  parameter = record { velocity = 1; alpha = 7; beta = 0 };
}

-- 3 flows into 2, and 2 and 4 into 1.
abbrev delta : RiverNetwork ℕ
delta =
    (pos 1, river 1 (pos 0))
    ∷ (pos 2, river 2 (pos 1))
    ∷ (pos 3, river 3 (pos 2))
    ∷ (pos 4, river 4 (pos 1))
    ∷ []

built :
    (add
        (add (add (add [] (river 1 (pos 0))).0 (river 2 (pos 1))).0 (river 4 (pos 1))).0
        (river 3 (pos 2))
      ≡ (delta, ok tt))
    × ((add delta (river 3 (pos 1))).1 ≡ throw runtime_error)
    × ((add delta (river 6 (pos 5))).1 ≡ throw runtime_error)
    × (all_upstreams_by_id delta (pos 1) ≡ ok (pos 2 ∷ pos 4 ∷ pos 3 ∷ []))
    × ((set_downstream_by_id delta (pos 1) (pos 3)) ≡ (delta, throw runtime_error))
    × ((remove_by_id delta (pos 1)).0
        ≡ (pos 2, river 2 (pos 0)) ∷ (pos 3, river 3 (pos 2)) ∷ (pos 4, river 4 (pos 0)) ∷ [])
unfolding add check_rid valid_routing_id find insert erase downstream_id to_int is_absent second
    network_contains_directed_cycle search_cycle follow not_visited is_visited all_upstreams_by_id
    all_upstreams upstreams_by_id upstreams collect set_downstream_by_id set_downstream to_unsigned
    remove_by_id clear_downstream
built = (refl, refl, refl, refl, refl, refl)

-- A downstream id below 0 stands for no river, and is not restored but changed.
not_restored :
    set_downstream_by_id
      ((pos 1, river 1 (negsuc 0)) ∷ (pos 2, river 2 (pos 1)) ∷ [])
      (pos 1)
      (pos 2)
    ≡ ((pos 1, river 1 (pos 4294967295)) ∷ (pos 2, river 2 (pos 1)) ∷ [], throw runtime_error)
unfolding check_rid valid_routing_id find insert downstream_id to_int second
    network_contains_directed_cycle search_cycle follow not_visited is_visited set_downstream_by_id
    set_downstream to_unsigned
not_restored = refl

-- A downstream id of more than 32 bits: the river flows into 1, but is not upstream of it. When 1 is
-- removed the next call reads a river that is not there.
abbrev wide : RiverNetwork ℕ
wide = (pos 1, river 1 (pos 0)) ∷ (pos 2, river 2 (pos 4294967297)) ∷ []

wide_id :
    (add ((pos 1, river 1 (pos 0)) ∷ []) (river 2 (pos 4294967297)) ≡ (wide, ok tt))
    × (downstream_by_id wide (pos 2) ≡ ok (pos 1))
    × (upstreams_by_id wide (pos 1) ≡ ok [])
    × ((add (remove_by_id wide (pos 1)).0 (river 3 (pos 0))).1 ≡ undefined)
unfolding add check_rid valid_routing_id find insert erase downstream_id to_int is_absent second
    network_contains_directed_cycle search_cycle follow not_visited is_visited upstreams_by_id
    upstreams remove_by_id clear_downstream downstream_by_id
wide_id = (refl, refl, refl, refl)

delta-Reachable : Reachable delta
unfolding add check_rid valid_routing_id find insert downstream_id to_int is_absent second
    network_contains_directed_cycle search_cycle follow not_visited is_visited
delta-Reachable =
    next
      (next
        (next (next start (added (river 1 (pos 0)) refl (λ valid. cc) refl))
          (added (river 2 (pos 1)) refl (λ valid. refl) refl))
        (added (river 4 (pos 1)) refl (λ valid. refl) refl))
      (added (river 3 (pos 2)) refl (λ valid. refl) refl)

Reachable-IsNetwork_example : IsNetwork delta
Reachable-IsNetwork_example = Reachable-IsNetwork delta-Reachable

delta-IsNetwork : IsNetwork delta
delta-IsNetwork = Reachable-IsNetwork delta-Reachable

network_contains_directed_cycle_example :
    ((network_contains_directed_cycle delta ≡ ok true) × HasCycle delta)
    ⊎ ((network_contains_directed_cycle delta ≡ ok false) × (¬ HasCycle delta))
network_contains_directed_cycle_example =
    network_contains_directed_cycle_lem delta (delta-IsNetwork.is_closed)

river_5_Fits :
    valid_routing_id (downstream_id (river 5 (pos 4))) ≡ true
    → pos 4 ≡ downstream_id (river 5 (pos 4))
unfolding downstream_id to_int
river_5_Fits valid = refl

five_is_int : to_int (pos 5) ≡ pos 5
unfolding to_int
five_is_int = refl

three_is_int : to_int (pos 3) ≡ pos 3
unfolding to_int
three_is_int = refl

add_example :
    (CanAdd delta (river 5 (pos 4))
      × (add delta (river 5 (pos 4)) ≡ (insert (pos 5) (river 5 (pos 4)) delta, ok tt))
      × IsNetwork (insert (pos 5) (river 5 (pos 4)) delta))
    ⊎ ((¬ CanAdd delta (river 5 (pos 4)))
        × (add delta (river 5 (pos 4)) ≡ (delta, throw runtime_error)))
add_example = add-accepts_iff delta delta-IsNetwork (river 5 (pos 4)) five_is_int river_5_Fits

river_1 : find (pos 1) delta ≡ some (river 1 (pos 0))
unfolding find
river_1 = refl

river_3 : find (pos 3) delta ≡ some (river 3 (pos 2))
unfolding find
river_3 = refl

remove_by_id_example :
    ((remove_by_id delta (pos 1)).1 ≡ ok tt)
    × IsNetwork (remove_by_id delta (pos 1)).0
    × ((j : ℤ)
        → find j (remove_by_id delta (pos 1)).0
          ≡ (if eqb_ℤ j (pos 1) then none else Option.map (without (pos 1)) (find j delta)))
remove_by_id_example = remove_by_id_lem delta delta-IsNetwork (pos 1) (river 1 (pos 0)) river_1

set_downstream_by_id_example :
    ((set_downstream_by_id delta (pos 1) (pos 3) ≡ (set_downstream (pos 1) (pos 3) delta, ok tt))
      × IsNetwork (set_downstream (pos 1) (pos 3) delta))
    ⊎ (HasCycle (set_downstream (pos 1) (pos 3) delta)
        × ((set_downstream_by_id delta (pos 1) (pos 3)).1 ≡ throw runtime_error)
        × IsNetwork (set_downstream_by_id delta (pos 1) (pos 3)).0
        × ((x y : ℤ) → Edge (set_downstream_by_id delta (pos 1) (pos 3)).0 x y ↔ Edge delta x y))
set_downstream_by_id_example =
    set_downstream_by_id_lem delta delta-IsNetwork (pos 1) (pos 3) (river 1 (pos 0)) river_1
      three_is_int (λ valid. (river 3 (pos 2), river_3))

all_upstreams_by_id_example :
    (l : List ℤ) × (all_upstreams_by_id delta (pos 1) ≡ ok l)
    × ((x : ℤ) → Memᴰ x l ↔ Reaches delta x (pos 1))
all_upstreams_by_id_example =
    all_upstreams_by_id_lem delta delta-IsNetwork (pos 1) (river 1 (pos 0)) river_1
