-- ===== src/Routing/Network/Redirect.antt =====
-- A `river_network` after one river was made to flow into another one.
use shyft.Prelude.{◌≡◌, refl, sym, ◌∙◌, arith, ◌⊎◌, inl, inr, true, false, some}
use mathlib.Core.Path.{subst}
use shyft.Prelude.Tests.{Bool-cases}
use shyft.Prelude.Lists.{All}
use shyft.Prelude.Int.{ℤ, eqb_ℤ, eq_of_parts, to_int}
use shyft.Prelude.Outcome.{ok}
use shyft.Routing.Maps.{find}
use shyft.Routing.Network.{
  RiverNetwork, River, valid_routing_id, downstream_id, with_downstream, second, set_downstream,
}
use shyft.Routing.Network.Cycles.{HasCycle, IsClosed}
use shyft.Routing.Network.Invariant.{Fits, IsKeyed, IsNetwork}
use shyft.Routing.Network.Change.{
  set_downstream-All, set_downstream-IsSorted, find-set_downstream_self, find-set_downstream_other,
}

module _ {ℓ} {D : Type ℓ} where
  -- An id to flow into: of no river, or of one that is there.
  abbrev pub IsTarget : RiverNetwork D → ℤ → Type ℓ
  IsTarget m d = valid_routing_id d ≡ true → (s : River D) × (find d m ≡ some s)

  pub second-found :
      (m : RiverNetwork D) (rid : ℤ) (r : River D) → find rid m ≡ some r → second m rid ≡ ok r
  unfolding second
  second-found m rid r found = rw (found, second) refl

  pub to_int-Fits : (d : ℤ) (r : River D) → to_int d ≡ d → Fits (with_downstream d r)
  unfolding downstream_id
  to_int-Fits d r is_int valid = sym is_int

  -- What is found after the change is the river changed, or was there.
  pub find-set_downstream_inv :
      (m : RiverNetwork D) (rid d j : ℤ) (r s : River D)
      → find rid m ≡ some r
      → find j (set_downstream rid d m) ≡ some s
      → ((j ≡ rid) × (s ≡ with_downstream d r)) ⊎ ((eqb_ℤ j rid ≡ false) × (find j m ≡ some s))
  find-set_downstream_inv m rid d j r s found found_s = elim (Bool-cases (eqb_ℤ j rid)) [
    | inl same ↦
        let here : j ≡ rid = eq_of_parts j rid (ground arith) in
        let changed = find-set_downstream_self rid d m r found in
        let found' : find rid (set_downstream rid d m) ≡ some s =
          subst (λ k. find k (set_downstream rid d m) ≡ some s) here found_s in
        inl (here, cc)
    | inr other ↦ inr (other, sym (find-set_downstream_other j rid d m other) ∙ found_s)
  ]

  pub find-set_downstream-some :
      (m : RiverNetwork D) (rid d j : ℤ) (r s : River D)
      → find rid m ≡ some r
      → find j m ≡ some s
      → (t : River D) × (find j (set_downstream rid d m) ≡ some t)
  find-set_downstream-some m rid d j r s found found_s = elim (Bool-cases (eqb_ℤ j rid)) [
    | inl same ↦
        let here : j ≡ rid = eq_of_parts j rid (ground arith) in
        (with_downstream d r, rw here (find-set_downstream_self rid d m r found))
    | inr other ↦ (s, find-set_downstream_other j rid d m other ∙ found_s)
  ]

  pub set_downstream-IsClosed :
      (m : RiverNetwork D) (rid d : ℤ) (r : River D)
      → IsClosed m
      → find rid m ≡ some r
      → IsTarget m (downstream_id (with_downstream d r))
      → IsClosed (set_downstream rid d m)
  set_downstream-IsClosed m rid d r N found target = record {
    sorted = set_downstream-IsSorted rid d m N.sorted;
    valid_keys =
        set_downstream-All (λ e. valid_routing_id e.0 ≡ true) rid d m (λ q _ h. h) N.valid_keys;
    closed = λ x s found_s valid. elim (find-set_downstream_inv m rid d x r s found found_s) [
      | inl (here, is) ↦
          let (t, found_t) =
            target (subst (λ q. valid_routing_id (downstream_id q) ≡ true) is valid) in
          rw is (
            find-set_downstream-some m rid d (downstream_id (with_downstream d r)) r t found
              found_t)
      | inr (_, old) ↦
          let (t, found_t) = N.closed x s old valid in
          find-set_downstream-some m rid d (downstream_id s) r t found found_t
    ];
  }

  pub set_downstream-IsNetwork :
      (m : RiverNetwork D) (rid d : ℤ) (r : River D)
      → IsClosed (set_downstream rid d m)
      → All IsKeyed m
      → All (λ e. Fits e.1) m
      → Fits (with_downstream d r)
      → find rid m ≡ some r
      → ¬ HasCycle (set_downstream rid d m)
      → IsNetwork (set_downstream rid d m)
  set_downstream-IsNetwork m rid d r closed keyed fitting fits found acyclic = record {
    is_closed = closed;
    keyed = set_downstream-All IsKeyed rid d m (λ q _ h. h) keyed;
    fitting =
        set_downstream-All (λ e. Fits e.1) rid d m
          (λ q found_q h. let same : q ≡ r = cc in rw same fits) fitting;
    acyclic = acyclic;
  }
