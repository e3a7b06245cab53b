-- ===== src/Routing/Network/Connect.antt =====
-- `set_downstream_by_id` connects a river, or takes the connection back.
use shyft.Prelude.{◌≡◌, refl, sym, ap, ◌∙◌, arith, ◌↔◌, ◌⊎◌, inl, inr, true, some}
use mathlib.Core.Path.{subst}
use shyft.Prelude.Tests.{Bool-cases, Option-cases, if◌then◌else◌}
use shyft.Prelude.Int.{ℤ, pos, negsuc, eqb_ℤ, eq_of_parts, to_int}
use shyft.Prelude.Outcome.{ok, throw, runtime_error}
use shyft.Routing.Maps.{find}
use shyft.Routing.Network.{
  RiverNetwork, River, valid_routing_id, to_unsigned, downstream_id, with_downstream, check_rid,
  second, set_downstream, set_downstream_by_id,
}
use shyft.Routing.Network.Cycles.{Edge, HasCycle, IsClosed}
use shyft.Routing.Network.Search.{network_contains_directed_cycle_lem}
use shyft.Routing.Network.Invariant.{
  Fits, IsKeyed, IsNetwork, IsKept, to_int-to_unsigned, acyclic_of_edges, check_rid-found,
  check_rid-absent,
}
use shyft.Routing.Network.Change.{
  set_downstream-All, find-set_downstream_self, find-set_downstream_other,
}
use shyft.Routing.Network.Redirect.{
  IsTarget, second-found, to_int-Fits, find-set_downstream_inv, find-set_downstream-some,
  set_downstream-IsClosed, set_downstream-IsNetwork,
}

to_unsigned-fits :
    (d : ℤ)
    → valid_routing_id (to_int (to_unsigned d)) ≡ true
    → to_unsigned d ≡ to_int (to_unsigned d)
unfolding valid_routing_id to_int to_unsigned
to_unsigned-fits (pos n) valid = ground arith
to_unsigned-fits (negsuc n) valid = ground arith

module _ {ℓ} {D : Type ℓ} (m : RiverNetwork D) (N : IsNetwork m) (rid d : ℤ) (r : River D)
    (found : find rid m ≡ some r) where
  abbrev connected : RiverNetwork D
  connected = set_downstream rid d m

  abbrev restored : RiverNetwork D
  restored = set_downstream rid (to_unsigned r.downstream.id) connected

  found_connected : find rid connected ≡ some (with_downstream d r)
  found_connected = find-set_downstream_self rid d m r found

  found_restored : find rid restored ≡ some (with_downstream (to_unsigned r.downstream.id) r)
  found_restored =
      find-set_downstream_self rid (to_unsigned r.downstream.id) connected (with_downstream d r)
        found_connected

  same_target : downstream_id (with_downstream (to_unsigned r.downstream.id) r) ≡ downstream_id r
  unfolding downstream_id
  same_target = to_int-to_unsigned r.downstream.id

  restored_river_Fits : Fits (with_downstream (to_unsigned r.downstream.id) r)
  unfolding downstream_id
  restored_river_Fits = to_unsigned-fits r.downstream.id

  old-Edge : (x y : ℤ) → Edge restored x y → Edge m x y
  old-Edge x y (s, found_s, to, valid) =
      elim (find-set_downstream_inv connected rid (to_unsigned r.downstream.id) x
        (with_downstream d r) s found_connected found_s) [
          | inl (here, is) ↦
              (r, rw here found, sym same_target ∙ ap downstream_id (sym is) ∙ to, valid)
          | inr (other, old) ↦ (s, sym (find-set_downstream_other x rid d m other) ∙ old, to, valid)
        ]

  kept-Edge : (x y : ℤ) → Edge m x y → Edge restored x y
  kept-Edge x y (s, found_s, to, valid) = elim (Bool-cases (eqb_ℤ x rid)) [
    | inl same ↦
        let here : x ≡ rid = eq_of_parts x rid (ground arith) in
        let found' : find rid m ≡ some s = subst (λ k. find k m ≡ some s) here found_s in
        let is : s ≡ r = cc in
        (
          with_downstream (to_unsigned r.downstream.id) r,
          subst (λ k. find k restored ≡ some (with_downstream (to_unsigned r.downstream.id) r))
              (sym here) found_restored,
          same_target ∙ ap downstream_id (sym is) ∙ to,
          valid,
        )
    | inr other ↦ (
      s,
      find-set_downstream_other x rid (to_unsigned r.downstream.id) connected other
          ∙ find-set_downstream_other x rid d m other
          ∙ found_s,
      to,
      valid,
    )
  ]

  module _ (is_int : to_int d ≡ d) (target : IsTarget m d) where
    connected-IsClosed : IsClosed connected
    unfolding downstream_id
    connected-IsClosed =
        set_downstream-IsClosed m rid d r N.is_closed found (subst (IsTarget m) (sym is_int) target)

    restored-IsClosed : IsClosed restored
    restored-IsClosed =
        set_downstream-IsClosed connected rid (to_unsigned r.downstream.id) (with_downstream d r)
          connected-IsClosed found_connected
          (subst (IsTarget connected) (sym same_target) λ valid.
            let (t, found_t) = N.is_closed.closed rid r found valid in
            find-set_downstream-some m rid d (downstream_id r) r t found found_t)

    restored-IsNetwork : IsNetwork restored
    restored-IsNetwork = record {
      is_closed = restored-IsClosed;
      keyed =
          set_downstream-All IsKeyed rid (to_unsigned r.downstream.id) connected (λ q _ h. h)
            (set_downstream-All IsKeyed rid d m (λ q _ h. h) N.keyed);
      fitting =
          set_downstream-All (λ e. Fits e.1) rid (to_unsigned r.downstream.id) connected
            (λ q found_q h.
              let is : q ≡ with_downstream d r = cc found_connected in
              subst (λ (k : River D). Fits (with_downstream (to_unsigned r.downstream.id) k))
                (sym is) restored_river_Fits)
            (set_downstream-All (λ e. Fits e.1) rid d m (λ q found_q h. to_int-Fits d q is_int)
              N.fitting);
      acyclic = acyclic_of_edges m restored old-Edge N.acyclic;
    }

    -- `set_downstream_by_id` of a river of a sound network (sorted by valid ids, each river under
    -- its own id, which is an `int`, and with the river that it flows into; each 64-bit id
    -- downstream that stands for a river as an `int` is the same as that `int`; without cycles), to
    -- an id that is an `int`, of no river or of one that is there: the river is connected and the
    -- network stays sound; or the connection would close a cycle, the call throws, the network is
    -- sound, and every river flows where it flowed before.
    pub set_downstream_by_id_lem :
        ((set_downstream_by_id m rid d ≡ (connected, ok tt)) × IsNetwork connected)
        ⊎ (HasCycle connected
            × ((set_downstream_by_id m rid d).1 ≡ throw runtime_error)
            × IsNetwork (set_downstream_by_id m rid d).0
            × ((x y : ℤ) → Edge (set_downstream_by_id m rid d).0 x y ↔ Edge m x y))
    unfolding set_downstream_by_id
    set_downstream_by_id_lem =
        elim (network_contains_directed_cycle_lem connected connected-IsClosed) [
          | inl (result, cycle) ↦ inr (
            cycle,
            rw (rid_there, checked, is_second, result) refl,
            rw (rid_there, checked, is_second, result) restored-IsNetwork,
            rw (rid_there, checked, is_second, result) (λ x y. (old-Edge x y, kept-Edge x y)),
          )
          | inr (result, acyclic) ↦ inl (
            rw (rid_there, checked, is_second, result) refl,
            set_downstream-IsNetwork m rid d r connected-IsClosed N.keyed N.fitting
                (to_int-Fits d r is_int) found acyclic,
          )
        ]
      where
        rid_there : check_rid m rid true ≡ ok tt
        rid_there = check_rid-found m rid r N.is_closed.valid_keys found

        checked : (if valid_routing_id d then check_rid m d true else ok tt) ≡ ok tt
        checked = elim (Bool-cases (valid_routing_id d)) [
          | inr nowhere ↦ rw nowhere refl
          | inl valid ↦
              let (s, found_s) = target valid in
              rw (valid, check_rid-found m d s N.is_closed.valid_keys found_s) refl
        ]

        is_second : second m rid ≡ ok r
        is_second = second-found m rid r found

    set_downstream_by_id-accepted_IsKept : IsKept (set_downstream_by_id m rid d)
    set_downstream_by_id-accepted_IsKept = elim set_downstream_by_id_lem [
      | inl (result, kept) ↦ rw result (kept, inl refl)
      | inr (_, result, kept, _) ↦ (kept, inr result)
    ]

module _ {ℓ} {D : Type ℓ} (m : RiverNetwork D) (N : IsNetwork m) where
  pub set_downstream_by_id-IsKept :
      (rid d : ℤ) → to_int d ≡ d → IsKept (set_downstream_by_id m rid d)
  unfolding set_downstream_by_id
  set_downstream_by_id-IsKept rid d is_int = elim (Option-cases (find rid m)) [
    | inl absent ↦ rw (check_rid-absent m rid absent) (N, inr refl)
    | inr (r, found) ↦ elim (Bool-cases (valid_routing_id d)) [
      | inr nowhere ↦ set_downstream_by_id-accepted_IsKept m N rid d r found is_int (λ valid. cc)
      | inl valid ↦ elim (Option-cases (find d m)) [
        | inr there ↦ set_downstream_by_id-accepted_IsKept m N rid d r found is_int (λ _. there)
        | inl absent ↦
            rw
              (
                check_rid-found m rid r N.is_closed.valid_keys found,
                valid,
                check_rid-absent m d absent,
              )
              (N, inr refl)
      ]
    ]
  ]
