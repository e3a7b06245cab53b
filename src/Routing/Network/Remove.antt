-- ===== src/Routing/Network/Remove.antt =====
-- `remove_by_id` takes a river out, and those that flowed into it flow nowhere.
use shyft.Prelude.{◌≡◌, refl, ◌∙◌, inl, inr, true, false, none, some}
use mathlib.Core.Option
use shyft.Prelude.Tests.{Bool-cases, Option-cases, if◌then◌else◌}
use shyft.Prelude.Int.{ℤ, pos, eqb_ℤ, to_int}
use shyft.Prelude.Outcome.{ok, throw, runtime_error}
use shyft.Routing.Maps.{find, find-All, erase, find-erase, erase-IsSorted, All-erase}
use shyft.Routing.Network.{
  RiverNetwork, River, valid_routing_id, downstream_id, with_downstream, upstreams, upstreams_by_id,
  clear_downstream, remove_by_id,
}
use shyft.Routing.Network.Invariant.{
  Fits, IsKeyed, IsNetwork, IsKept, acyclic_of_edges, check_rid-found, check_rid-absent,
}
use shyft.Routing.Network.Change.{
  find-clear_downstream, find-clear_downstream-none, clear_downstream-All,
  clear_downstream-IsSorted, is_in-upstreams,
}

module _ {ℓ} {D : Type ℓ} where
  -- What is left of a river where `rid` is no more.
  abbrev pub without : ℤ → River D → River D
  without rid q = if eqb_ℤ q.downstream.id rid then with_downstream (pos 0) q else q

  nowhere : (q : River D) → valid_routing_id (downstream_id (with_downstream (pos 0) q)) ≡ false
  unfolding valid_routing_id downstream_id to_int
  nowhere q = refl

  module _ (m : RiverNetwork D) (N : IsNetwork m) (rid : ℤ) where
    abbrev removed : RiverNetwork D
    removed = erase rid (clear_downstream (upstreams rid m) m)

    find-removed :
        (j : ℤ)
        → find j removed ≡ (if eqb_ℤ j rid then none else Option.map (without rid) (find j m))
    find-removed j = elim (Bool-cases (eqb_ℤ j rid)) [
      | inl same ↦ rw (find-erase j rid (clear_downstream (upstreams rid m) m), same) refl
      | inr other ↦ elim (Option-cases (find j m)) [
        | inl absent ↦
            rw
              (
                find-erase j rid (clear_downstream (upstreams rid m) m),
                other,
                find-clear_downstream-none j (upstreams rid m) m absent,
                absent,
              )
              refl
        | inr (q, found) ↦
            rw
              (
                find-erase j rid (clear_downstream (upstreams rid m) m),
                other,
                find-clear_downstream j (upstreams rid m) m q found,
                is_in-upstreams j rid m q N.is_closed.sorted found,
                found,
              )
              refl
      ]
    ]

    find-removed_inv :
        (j : ℤ) (s : River D)
        → find j removed ≡ some s
        → (eqb_ℤ j rid ≡ false) × (q : River D) × (find j m ≡ some q) × (s ≡ without rid q)
    find-removed_inv j s found = elim (Bool-cases (eqb_ℤ j rid)) [
      | inl same ↦ let gone : find j removed ≡ none = rw (find-removed j, same) refl in absurd (cc)
      | inr other ↦ elim (Option-cases (find j m)) [
        | inl absent ↦
            let gone : find j removed ≡ none = rw (find-removed j, other, absent) refl in
            absurd (cc)
        | inr (q, found_q) ↦
            let left : find j removed ≡ some (without rid q) =
              rw (find-removed j, other, found_q) refl in
            (other, q, found_q, cc)
      ]
    ]

    -- A river that flows somewhere is as before, and does not flow into the one removed.
    kept_river :
        (j : ℤ) (s : River D)
        → find j removed ≡ some s
        → valid_routing_id (downstream_id s) ≡ true
        → (find j m ≡ some s) × (eqb_ℤ s.downstream.id rid ≡ false)
    kept_river j s found valid =
        let (other, q, found_q, is) = find-removed_inv j s found in
        elim (Bool-cases (eqb_ℤ q.downstream.id rid)) [
          | inl flows ↦
              let cleared : s ≡ with_downstream (pos 0) q = is ∙ rw flows refl in
              let invalid : valid_routing_id (downstream_id s) ≡ false = rw cleared (nowhere q) in
              absurd (cc)
          | inr not_flows ↦
              let same : s ≡ q = is ∙ rw not_flows refl in (rw same found_q, rw same not_flows)
        ]

    removed-IsNetwork : IsNetwork removed
    removed-IsNetwork = record {
      is_closed = record {
        sorted =
            erase-IsSorted rid (clear_downstream (upstreams rid m) m)
              (clear_downstream-IsSorted (upstreams rid m) m N.is_closed.sorted);
        valid_keys =
            All-erase (λ e. valid_routing_id e.0 ≡ true) rid (clear_downstream (upstreams rid m) m)
              (clear_downstream-All (λ e. valid_routing_id e.0 ≡ true) (upstreams rid m) m
                (λ i q h. h) N.is_closed.valid_keys);
        closed = λ j s found valid. closed j s found valid;
      };
      keyed =
          All-erase IsKeyed rid (clear_downstream (upstreams rid m) m)
            (clear_downstream-All IsKeyed (upstreams rid m) m (λ i q h. h) N.keyed);
      fitting =
          All-erase (λ e. Fits e.1) rid (clear_downstream (upstreams rid m) m)
            (clear_downstream-All (λ e. Fits e.1) (upstreams rid m) m
              (λ i q h valid. let invalid = nowhere q in cc) N.fitting);
      acyclic =
          acyclic_of_edges m removed
            (λ x y e.
              let (s, found, to, valid) = e in
              (s, (kept_river x s found (rw to valid)).0, to, valid))
            N.acyclic;
    }
      where
        closed :
            (j : ℤ) (s : River D)
            → find j removed ≡ some s
            → valid_routing_id (downstream_id s) ≡ true
            → (t : River D) × (find (downstream_id s) removed ≡ some t)
        closed j s found valid =
            let (old, not_flows) = kept_river j s found valid in
            let (t, found_t) = N.is_closed.closed j s old valid in
            let fits = find-All_fits j s old valid in
            let other : eqb_ℤ (downstream_id s) rid ≡ false = rw (← fits) not_flows in
            (without rid t, rw (find-removed (downstream_id s), other, found_t) refl)
          where
            find-All_fits :
                (j : ℤ) (s : River D)
                → find j m ≡ some s
                → valid_routing_id (downstream_id s) ≡ true
                → s.downstream.id ≡ downstream_id s
            find-All_fits j s old valid = find-All (λ e. Fits e.1) j s m N.fitting old valid

    -- `remove_by_id` of a river of a sound network (sorted by valid ids, each river under its own
    -- id, which is an `int`, and with the river that it flows into; each 64-bit id downstream that
    -- stands for a river as an `int` is the same as that `int`; without cycles) returns and leaves
    -- a sound network: the river is gone, those that flowed into it flow nowhere, and all others
    -- are as before.
    pub remove_by_id_lem :
        (r : River D)
        → find rid m ≡ some r
        → ((remove_by_id m rid).1 ≡ ok tt)
          × IsNetwork (remove_by_id m rid).0
          × ((j : ℤ)
              → find j (remove_by_id m rid).0
                ≡ (if eqb_ℤ j rid then none else Option.map (without rid) (find j m)))
    unfolding remove_by_id upstreams_by_id
    remove_by_id_lem r found =
        let there = check_rid-found m rid r N.is_closed.valid_keys found in
        rw there (refl, removed-IsNetwork, find-removed)

    pub remove_by_id-absent : find rid m ≡ none → remove_by_id m rid ≡ (m, throw runtime_error)
    unfolding remove_by_id
    remove_by_id-absent absent = rw (check_rid-absent m rid absent) refl

    pub remove_by_id-IsKept : IsKept (remove_by_id m rid)
    remove_by_id-IsKept = elim (Option-cases (find rid m)) [
      | inl absent ↦ rw (remove_by_id-absent absent) (N, inr refl)
      | inr (r, found) ↦ let (result, kept, _) = remove_by_id_lem r found in (kept, inl result)
    ]
