-- ===== src/Routing/Network/Add.antt =====
-- `add` accepts a river exactly under its guards, and the check for a cycle after them never fails.
use shyft.Prelude.{◌≡◌, ◌≢◌, refl, sym, ap, ◌∙◌, ◌⊎◌, inl, inr, true, false, none, some}
use mathlib.Core.Path.{subst}
use shyft.Prelude.Tests.{Bool-cases, Option-cases}
use shyft.Prelude.Int.{ℤ, to_int, eqb_ℤ}
use shyft.Prelude.Outcome.{ok, throw, runtime_error}
use shyft.Routing.Maps.{find, insert, insert-IsSorted, All-insert}
use shyft.Routing.Network.{
  RiverNetwork, River, valid_routing_id, downstream_id, check_rid, is_absent, add,
}
use shyft.Routing.Network.Cycles.{Edge, Reaches, edge, further, HasCycle, IsClosed}
use shyft.Routing.Network.Search.{network_contains_directed_cycle_lem}
use shyft.Routing.Network.Invariant.{
  Fits, IsKeyed, IsNetwork, IsKept, find-insert-some, find-insert_inv,
}

module _ {ℓ} {D : Type ℓ} (m : RiverNetwork D) where
  is_absent-found : (d : ℤ) (s : River D) → find d m ≡ some s → is_absent m d ≡ false
  unfolding is_absent
  is_absent-found d s found = rw (found, is_absent) refl

  is_absent-missing : (d : ℤ) → find d m ≡ none → is_absent m d ≡ true
  unfolding is_absent
  is_absent-missing d missing = rw (missing, is_absent) refl

  -- The id is valid and new, and the river that it flows into, if any, is another one that is there.
  pub record CanAdd (r : River D) : Type ℓ where
    pub valid : valid_routing_id r.id ≡ true
    pub new : find r.id m ≡ none
    pub apart : eqb_ℤ r.id r.downstream.id ≡ false
    pub there :
        valid_routing_id (downstream_id r) ≡ true
        → (s : River D) × (find (downstream_id r) m ≡ some s)

module _ {ℓ} {D : Type ℓ} (m : RiverNetwork D) (N : IsNetwork m) (r : River D)
    (is_int : to_int r.id ≡ r.id) (fits : Fits r) where
  module _ (C : CanAdd m r) where
    insert-IsClosed : IsClosed (insert r.id r m)
    insert-IsClosed = record {
      sorted = insert-IsSorted r.id r m N.is_closed.sorted;
      valid_keys =
          All-insert (λ e. valid_routing_id e.0 ≡ true) r.id r m C.valid N.is_closed.valid_keys;
      closed = λ x s found valid. closed x s valid (find-insert_inv x r.id r s m found);
    }
      where
        closed :
            (x : ℤ) (s : River D)
            → valid_routing_id (downstream_id s) ≡ true
            → ((x ≡ r.id) × (s ≡ r)) ⊎ ((eqb_ℤ x r.id ≡ false) × (find x m ≡ some s))
            → (t : River D) × (find (downstream_id s) (insert r.id r m) ≡ some t)
        closed x s valid (inl (here, same)) =
            let (t, found) =
              C.there (subst (λ q. valid_routing_id (downstream_id q) ≡ true) same valid) in
            subst (λ q. (t : River D) × (find (downstream_id q) (insert r.id r m) ≡ some t))
              (sym same) (find-insert-some (downstream_id r) r.id r t m found)
        closed x s valid (inr (_, found)) =
            let (t, found') = N.is_closed.closed x s found valid in
            find-insert-some (downstream_id s) r.id r t m found'

    -- No edge leads to the new river, and those from the others were there.
    Edge-of_added : (x y : ℤ) → Edge (insert r.id r m) x y → (y ≢ r.id) × ((x ≡ r.id) ⊎ Edge m x y)
    Edge-of_added x y (s, found, to, valid) = cases (find-insert_inv x r.id r s m found)
      where
        not_new : (t : River D) → find y m ≡ some t → y ≢ r.id
        not_new t found_y same = let new : find y m ≡ none = rw same C.new in cc

        cases :
            ((x ≡ r.id) × (s ≡ r)) ⊎ ((eqb_ℤ x r.id ≡ false) × (find x m ≡ some s))
            → (y ≢ r.id) × ((x ≡ r.id) ⊎ Edge m x y)
        cases (inl (here, same)) =
            let to_y : downstream_id r ≡ y = ap downstream_id (sym same) ∙ to in
            let (t, found_y) = C.there (rw to_y valid) in
            (not_new t (rw (← to_y) found_y), inl here)
        cases (inr (_, old)) =
            let (t, found_y) = N.is_closed.closed x s old (rw to valid) in
            (not_new t (rw (← to) found_y), inr (s, old, to, valid))

    not_reached : (x : ℤ) {y : ℤ} → Reaches (insert r.id r m) x y → y ≢ r.id
    not_reached x {y} (edge e) = (Edge-of_added x y e).0
    not_reached x {y = z} (further {y} way e) = (Edge-of_added y z e).0

    old-Edge : (x y : ℤ) → x ≢ r.id → Edge (insert r.id r m) x y → Edge m x y
    old-Edge x y other e = elim (Edge-of_added x y e).1 [
      | inl here ↦ absurd (other here)
      | inr old ↦ old
    ]

    old_way : (x : ℤ) {y : ℤ} → x ≢ r.id → Reaches (insert r.id r m) x y → Reaches m x y
    old_way x {y} other (edge e) = edge (old-Edge x y other e)
    old_way x {y = z} other (further {y} way e) =
        further (old_way x other way) (old-Edge y z (not_reached x way) e)

    insert-acyclic : ¬ HasCycle (insert r.id r m)
    insert-acyclic (x, round) = N.acyclic (x, old_way x (not_reached x round) round)

    insert-IsNetwork : IsNetwork (insert r.id r m)
    insert-IsNetwork = record {
      is_closed = insert-IsClosed;
      keyed = All-insert IsKeyed r.id r m (refl, is_int) N.keyed;
      fitting = All-insert (λ e. Fits e.1) r.id r m fits N.fitting;
      acyclic = insert-acyclic;
    }

    add-accepted : add m r ≡ (insert r.id r m, ok tt)
    unfolding add check_rid
    add-accepted = elim (network_contains_directed_cycle_lem (insert r.id r m) insert-IsClosed) [
      | inl (_, cycle) ↦ absurd (insert-acyclic cycle)
      | inr (passes, _) ↦ elim (Bool-cases (valid_routing_id (downstream_id r))) [
        | inl valid ↦
            let (s, found) = C.there valid in
            rw (C.valid, C.new, C.apart, valid, is_absent-found m (downstream_id r) s found, passes)
              refl
        | inr invalid ↦ rw (C.valid, C.new, C.apart, invalid, passes) refl
      ]
    ]

  -- `add` to a sound network (sorted by valid ids, each river under its own id, which is an `int`,
  -- and with the river that it flows into; each 64-bit id downstream that stands for a river as an
  -- `int` is the same as that `int`; without cycles), of a river whose id is an `int` and whose id
  -- downstream is such a 64-bit one: the river is put in, and the network stays sound, if its id is
  -- valid and new and the river that it flows into, if any, is another one that is there; otherwise
  -- the call throws and the network is as before.
  pub add-accepts_iff :
      (CanAdd m r × (add m r ≡ (insert r.id r m, ok tt)) × IsNetwork (insert r.id r m))
      ⊎ ((¬ CanAdd m r) × (add m r ≡ (m, throw runtime_error)))
  unfolding add check_rid
  add-accepts_iff = elim (Bool-cases (valid_routing_id r.id)) [
    | inr invalid ↦ inr (λ C. cc C.valid, rw invalid refl)
    | inl valid ↦ elim (Option-cases (find r.id m)) [
      | inr (s, found) ↦ inr (λ C. cc C.new, rw (valid, found) refl)
      | inl new ↦ elim (Bool-cases (eqb_ℤ r.id r.downstream.id)) [
        | inl self ↦ inr (λ C. cc C.apart, rw (valid, new, self) refl)
        | inr apart ↦ elim (Bool-cases (valid_routing_id (downstream_id r))) [
          | inr nowhere ↦
              let C : CanAdd m r = record {
                valid = valid;
                new = new;
                apart = apart;
                there = λ valid'. cc;
              } in
              inl (C, add-accepted C, insert-IsNetwork C)
          | inl somewhere ↦ elim (Option-cases (find (downstream_id r) m)) [
            | inl missing ↦ inr (
              λ C. let (s, found) = C.there somewhere in cc,
              rw (valid, new, apart, somewhere, is_absent-missing m (downstream_id r) missing) refl,
            )
            | inr (s, found) ↦
                let C : CanAdd m r = record {
                  valid = valid;
                  new = new;
                  apart = apart;
                  there = λ _. (s, found);
                } in
                inl (C, add-accepted C, insert-IsNetwork C)
          ]
        ]
      ]
    ]
  ]

  pub add-IsKept : IsKept (add m r)
  add-IsKept = elim add-accepts_iff [
    | inl (_, result, kept) ↦ rw result (kept, inl refl)
    | inr (_, result) ↦ rw result (N, inr refl)
  ]
