-- ===== src/Routing/Network/Reachable.antt =====
-- The networks that the calls can lead to.
use shyft.Prelude.{◌≡◌, sym, []}
use mathlib.Core.Path.{subst}
use shyft.Prelude.Int.{ℤ, to_int}
use shyft.Routing.Maps.{find}
use shyft.Routing.Network.{RiverNetwork, River, add, remove_by_id, set_downstream_by_id}
use shyft.Routing.Network.Cycles.{Reaches, edge, further, HasCycle}
use shyft.Routing.Network.Invariant.{Fits, IsNetwork}
use shyft.Routing.Network.Add.{add-IsKept}
use shyft.Routing.Network.Remove.{remove_by_id-IsKept}
use shyft.Routing.Network.Connect.{set_downstream_by_id-IsKept}

module _ {ℓ} {D : Type ℓ} where
  -- A call, whether it returns or throws; ids given are of the type `int`.
  pub data Step (m : RiverNetwork D) (n : RiverNetwork D) : Type ℓ where
    added : (r : River D) → to_int r.id ≡ r.id → Fits r → n ≡ (add m r).0 → Step m n
    removed : (rid : ℤ) → n ≡ (remove_by_id m rid).0 → Step m n
    connected : (rid d : ℤ) → to_int d ≡ d → n ≡ (set_downstream_by_id m rid d).0 → Step m n

  -- From the empty network.
  pub data Reachable : RiverNetwork D → Type ℓ where
    start : Reachable []
    next : {m n : RiverNetwork D} → Reachable m → Step m n → Reachable n

  empty-acyclic : ¬ HasCycle {D = D} []
  unfolding find
  empty-acyclic (x, round) = no_way x round
    where
      no_way : (x : ℤ) {y : ℤ} → Reaches {D = D} [] x y → ⊥
      no_way x (edge (r, found, _, _)) = cc
      no_way x (further way e) = no_way x way

  empty-IsNetwork : IsNetwork {D = D} []
  unfolding find
  empty-IsNetwork = record {
    is_closed = record { sorted = tt; valid_keys = tt; closed = λ x r found valid. cc };
    keyed = tt;
    fitting = tt;
    acyclic = empty-acyclic;
  }

  Step-IsNetwork : {m n : RiverNetwork D} → IsNetwork m → Step m n → IsNetwork n
  Step-IsNetwork {m} N (added r is_int fits is) =
      subst IsNetwork (sym is) (add-IsKept m N r is_int fits).0
  Step-IsNetwork {m} N (removed rid is) = subst IsNetwork (sym is) (remove_by_id-IsKept m N rid).0
  Step-IsNetwork {m} N (connected rid d is_int is) =
      subst IsNetwork (sym is) (set_downstream_by_id-IsKept m N rid d is_int).0

  -- Every network that `add`, `remove_by_id` and `set_downstream_by_id` lead to from the empty one, in
  -- any order and whether they return or throw, is sorted by valid ids, has every river under its own
  -- id and with it the river that it flows into, and has no cycle; of rivers added whose 64-bit id
  -- downstream is the same as an `int`, unless both are no id.
  pub Reachable-IsNetwork : {m : RiverNetwork D} → Reachable m → IsNetwork m
  Reachable-IsNetwork start = empty-IsNetwork
  Reachable-IsNetwork (next before step) = Step-IsNetwork (Reachable-IsNetwork before) step
