-- ===== src/Routing/Network/Invariant.antt =====
-- What holds of a `river_network` between the calls, and how it carries over.
use shyft.Prelude.{◌≡◌, refl, sym, ◌∙◌, arith, ◌⊎◌, inl, inr, true, false, none, some}
use shyft.Prelude.Tests.{Bool-cases}
use shyft.Prelude.Lists.{All}
use shyft.Prelude.Int.{ℤ, pos, negsuc, eqb_ℤ, to_int, eq_of_parts}
use shyft.Prelude.Outcome.{ok, throw, runtime_error}
use shyft.Routing.Maps.{find, insert, find-insert, find-All}
use shyft.Routing.Network.{
  RiverNetwork, River, Call, valid_routing_id, to_unsigned, downstream_id, check_rid,
}
use shyft.Routing.Network.Cycles.{Edge, Reaches, edge, further, HasCycle, IsClosed}

pub to_int-to_unsigned : (d : ℤ) → to_int (to_unsigned d) ≡ to_int d
unfolding to_int to_unsigned
to_int-to_unsigned (pos n) = ground arith
to_int-to_unsigned (negsuc n) = ground arith

module _ {ℓ} {D : Type ℓ} where
  -- The 64-bit id that a river flows into is no other id when it is cut to 32 bits, unless both stand
  -- for no river.
  abbrev pub Fits : River D → Type 0
  Fits r = valid_routing_id (downstream_id r) ≡ true → r.downstream.id ≡ downstream_id r

  -- A river stands under its own id, which is an `int`.
  abbrev pub IsKeyed : ℤ × River D → Type 0
  IsKeyed e = (e.1.id ≡ e.0) × (to_int e.0 ≡ e.0)

  pub record IsNetwork (m : RiverNetwork D) : Type ℓ where
    pub is_closed : IsClosed m
    pub keyed : All IsKeyed m
    pub fitting : All (λ e. Fits e.1) m
    pub acyclic : ¬ HasCycle m

  -- A call that returns or throws, and leaves such a network either way.
  abbrev pub IsKept : Call D (Unit {0}) → Type ℓ
  IsKept call = IsNetwork call.0 × ((call.1 ≡ ok tt) ⊎ (call.1 ≡ throw runtime_error))

  Reaches-of_edges :
      (m n : RiverNetwork D) (x : ℤ) {y : ℤ}
      → ((x y : ℤ) → Edge n x y → Edge m x y)
      → Reaches n x y
      → Reaches m x y
  Reaches-of_edges m n x {y} edges (edge e) = edge (edges x y e)
  Reaches-of_edges m n x {y = z} edges (further {y} way e) =
      further (Reaches-of_edges m n x edges way) (edges y z e)

  -- Without new edges there is no new cycle.
  pub acyclic_of_edges :
      (m n : RiverNetwork D) → ((x y : ℤ) → Edge n x y → Edge m x y) → ¬ HasCycle m → ¬ HasCycle n
  acyclic_of_edges m n edges acyclic (x, round) = acyclic (x, Reaches-of_edges m n x edges round)

  -- What is there stays there.
  pub find-insert-some :
      (j k : ℤ) (v r : River D) (m : RiverNetwork D)
      → find j m ≡ some r
      → (s : River D) × (find j (insert k v m) ≡ some s)
  find-insert-some j k v r m found = elim (Bool-cases (eqb_ℤ j k)) [
    | inl same ↦ (v, rw (find-insert j k v m, same) refl)
    | inr other ↦ (r, rw (find-insert j k v m, other) found)
  ]

  -- What is found after an `insert` is the new one, or was there.
  pub find-insert_inv :
      (j k : ℤ) (v s : River D) (m : RiverNetwork D)
      → find j (insert k v m) ≡ some s
      → ((j ≡ k) × (s ≡ v)) ⊎ ((eqb_ℤ j k ≡ false) × (find j m ≡ some s))
  find-insert_inv j k v s m found = elim (Bool-cases (eqb_ℤ j k)) [
    | inl same ↦
        let law : find j (insert k v m) ≡ some v = rw (find-insert j k v m, same) refl in
        inl (eq_of_parts j k (ground arith), cc)
    | inr other ↦
        let law : find j (insert k v m) ≡ find j m = rw (find-insert j k v m, other) refl in
        inr (other, sym law ∙ found)
  ]

  pub check_rid-found :
      (m : RiverNetwork D) (rid : ℤ) (r : River D)
      → All (λ e. valid_routing_id e.0 ≡ true) m
      → find rid m ≡ some r
      → check_rid m rid true ≡ ok tt
  unfolding check_rid
  check_rid-found m rid r keys found =
      let valid : valid_routing_id rid ≡ true =
        find-All (λ e. valid_routing_id e.0 ≡ true) rid r m keys found in
      rw (valid, found) refl

  pub check_rid-absent :
      (m : RiverNetwork D) (rid : ℤ)
      → find rid m ≡ none
      → check_rid m rid true ≡ throw runtime_error
  unfolding check_rid
  check_rid-absent m rid absent = elim (Bool-cases (valid_routing_id rid)) [
    | inl valid ↦ rw (valid, absent) refl
    | inr invalid ↦ rw invalid refl
  ]
