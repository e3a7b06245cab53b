-- ===== src/Routing/Network/Search.antt =====
-- `network_contains_directed_cycle` finds a cycle exactly where there is one.
use shyft.Prelude.{
  ℕ, zero, suc, ◌≤◌, ◌<◌, ◌≡◌, refl, arith, ◌⊎◌, inl, inr, Bool, true, false, some, List, [], ◌∷◌,
}
use shyft.Prelude.Tests.{Bool-cases}
use shyft.Prelude.Lists.{length, All}
use shyft.Prelude.Int.{ℤ, eqb_ℤ, eq_of_parts}
use shyft.Prelude.Outcome.{ok}
use shyft.Routing.Maps.{find, insert, find-insert, find-All, All-find}
use shyft.Routing.Network.{
  RiverNetwork, River, valid_routing_id, is_visited, downstream_id, second, not_visited, follow,
  search_cycle, network_contains_directed_cycle,
}
use shyft.Routing.Network.Cycles.{
  Reaches, edge, further, HasCycle, IsClosed, EndsIn, EndsIn-not_cycle, Reaches-first,
  invalid-absent, unseen, unseen-le-length, unseen-insert_lt, is_visited-insert,
}

module _ {ℓ} {D : Type ℓ} (m : RiverNetwork D) (N : IsClosed m) where
  -- The way from `d` ends, or it meets a river that was visited, which is on a cycle where all those
  -- that were visited lead to `d`.
  abbrev IsFollowed : ℕ → List (ℤ × Bool) → ℤ → Type ℓ
  IsFollowed fuel visited d =
      ((follow fuel m visited d ≡ ok false) × (n : ℕ) × (n < fuel) × EndsIn m n d)
      ⊎ ((follow fuel m visited d ≡ ok true)
          × ((valid_routing_id d ≡ true → (k : ℤ) → is_visited k visited ≡ true → Reaches m k d)
              → HasCycle m))

  follow-IsFollowed_next :
      (fuel : ℕ) (visited : List (ℤ × Bool)) (d : ℤ) (r : River D)
      → find d m ≡ some r
      → valid_routing_id d ≡ true
      → is_visited d visited ≡ false
      → IsFollowed fuel (insert d true visited) (downstream_id r)
      → IsFollowed (suc fuel) visited d
  unfolding follow second
  follow-IsFollowed_next fuel visited d r found valid new (inl (result, n, short, ends)) =
      inl (rw (valid, new, found, second) result, suc n, omega arith, (r, found, ends))
  follow-IsFollowed_next fuel visited d r found valid new (inr (result, meets)) = inr (
    rw (valid, new, found, second) result,
    λ leads. meets (λ valid' k seen. later leads valid' k seen),
  )
    where
      later :
          (valid_routing_id d ≡ true → (k : ℤ) → is_visited k visited ≡ true → Reaches m k d)
          → valid_routing_id (downstream_id r) ≡ true
          → (k : ℤ) → is_visited k (insert d true visited) ≡ true
          → Reaches m k (downstream_id r)
      later leads valid' k seen = elim (Bool-cases (eqb_ℤ k d)) [
        | inl here ↦
            let same : k ≡ d = eq_of_parts k d (ground arith) in
            rw same (edge (r, found, refl, valid'))
        | inr before ↦
            let seen' : is_visited k visited ≡ true =
              ground (arith, is_visited-insert k d visited) in
            further (leads valid k seen') (r, found, refl, valid')
      ]

  follow-IsFollowed :
      (fuel : ℕ) (visited : List (ℤ × Bool)) (d : ℤ)
      → unseen m visited < fuel
      → (valid_routing_id d ≡ true → (r : River D) × (find d m ≡ some r))
      → IsFollowed fuel visited d
  unfolding follow
  follow-IsFollowed zero visited d enough there = elim enough [ ]
  follow-IsFollowed (suc fuel) visited d enough there = elim (Bool-cases (valid_routing_id d)) [
    | inr invalid ↦ inl (rw invalid refl, 0, omega arith, invalid-absent m d N.valid_keys invalid)
    | inl valid ↦ elim (Bool-cases (is_visited d visited)) [
      | inl hit ↦ inr (rw (valid, hit) refl, λ leads. (d, leads valid d hit))
      | inr new ↦
          let (r, found) = there valid in
          follow-IsFollowed_next fuel visited d r found valid new (
            follow-IsFollowed fuel (insert d true visited) (downstream_id r)
              (omega (arith, unseen-insert_lt m visited d r found new)) (N.closed d r found))
    ]
  ]

  not_visited-false : (rivers : RiverNetwork D) (k : ℤ) → is_visited k (not_visited rivers) ≡ false
  unfolding not_visited is_visited find
  not_visited-false [] k = refl
  not_visited-false (e ∷ rivers) k = elim (Bool-cases (eqb_ℤ k e.0)) [
    | inl here ↦ rw (find-insert k e.0 false (not_visited rivers), here, is_visited) refl
    | inr other ↦
        rw (find-insert k e.0 false (not_visited rivers), other, is_visited)
          (not_visited-false rivers k)
  ]

  -- Every way downstream from the rivers ends, within as many steps as there are rivers, or there is
  -- a cycle.
  abbrev IsSearched : RiverNetwork D → Type ℓ
  IsSearched rivers =
      ((search_cycle m rivers ≡ ok false)
        × All (λ e. (n : ℕ) × (n < suc (length m)) × EndsIn m n (downstream_id e.1)) rivers)
      ⊎ ((search_cycle m rivers ≡ ok true) × HasCycle m)

  search_cycle-IsSearched :
      (rivers : RiverNetwork D) → All (λ e. find e.0 m ≡ some e.1) rivers → IsSearched rivers
  unfolding search_cycle
  search_cycle-IsSearched [] entries = inl (refl, tt)
  search_cycle-IsSearched (e ∷ rivers) entries =
      let start = insert e.0 true (not_visited m) in
      elim (follow-IsFollowed (suc (length m)) start (downstream_id e.1)
        (omega (arith, unseen-le-length m start)) (N.closed e.0 e.1 entries.0)) [
          | inr (meets, cycle) ↦
              inr (rw meets refl, cycle (λ valid k seen. from_start valid k seen))
          | inl (passes, n, short, ends) ↦ elim (search_cycle-IsSearched rivers entries.1) [
            | inl (rest, all_end) ↦ inl (rw (passes, rest) refl, ((n, short, ends), all_end))
            | inr (rest, cycle) ↦ inr (rw (passes, rest) refl, cycle)
          ]
        ]
    where
      from_start :
          valid_routing_id (downstream_id e.1) ≡ true
          → (k : ℤ) → is_visited k (insert e.0 true (not_visited m)) ≡ true
          → Reaches m k (downstream_id e.1)
      from_start valid k seen = elim (Bool-cases (eqb_ℤ k e.0)) [
        | inl here ↦
            let same : k ≡ e.0 = eq_of_parts k e.0 (ground arith) in
            rw same (edge (e.1, entries.0, refl, valid))
        | inr other ↦
            absurd (ground (arith, is_visited-insert k e.0 (not_visited m), not_visited-false m k))
      ]

  -- In a network in which every river that another one flows into is there, the search for a cycle
  -- returns: true, and some river flows back into itself, or false, and none does.
  pub network_contains_directed_cycle_lem :
      ((network_contains_directed_cycle m ≡ ok true) × HasCycle m)
      ⊎ ((network_contains_directed_cycle m ≡ ok false) × ¬ HasCycle m)
  unfolding network_contains_directed_cycle
  network_contains_directed_cycle_lem = elim (search_cycle-IsSearched m (All-find m N.sorted)) [
    | inr cycle ↦ inl cycle
    | inl (result, all_end) ↦ inr (
      result,
      λ (x, round).
          let (r, found) = Reaches-first m x round in
          let (n, _, ends) =
            find-All (λ e. (n : ℕ) × (n < suc (length m)) × EndsIn m n (downstream_id e.1)) x r m
              all_end found in
          EndsIn-not_cycle m (suc n) x (r, found, ends) round,
    )
  ]

  -- Without a cycle the way from a river is no longer than there are rivers.
  pub ends_of_acyclic :
      ¬ HasCycle m
      → (x : ℤ) (r : River D) → find x m ≡ some r
      → (n : ℕ) × (n ≤ length m) × EndsIn m n (downstream_id r)
  ends_of_acyclic acyclic x r found = elim (search_cycle-IsSearched m (All-find m N.sorted)) [
    | inr (_, cycle) ↦ absurd (acyclic cycle)
    | inl (_, all_end) ↦
        let (n, short, ends) =
          find-All (λ e. (n : ℕ) × (n < suc (length m)) × EndsIn m n (downstream_id e.1)) x r m
            all_end found in
        (n, omega arith, ends)
  ]
