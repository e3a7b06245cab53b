-- ===== src/Routing/Network/Cycles.antt =====
-- The search for a directed cycle: it ends, and it finds one exactly where there is one.
use shyft.Prelude.{
  ℕ, zero, suc, ◌+◌, ◌≤◌, ◌<◌, ◌≡◌, refl, sym, ap, arith, inl, inr, Bool, true, false, none, some,
  List, [], ◌∷◌,
}
use mathlib.Core.Path.{subst}
use shyft.Prelude.Tests.{Bool-cases, Option-cases, if◌then◌else◌}
use shyft.Prelude.Lists.{length, All}
use shyft.Prelude.Int.{ℤ, eqb_ℤ, eq_of_parts}
use shyft.Routing.Maps.{find, insert, IsSorted, find-insert, find-All}
use shyft.Routing.Network.{RiverNetwork, River, valid_routing_id, is_visited, downstream_id}

pub is_visited-insert :
    (j k : ℤ) (visited : List (ℤ × Bool))
    → is_visited j (insert k true visited) ≡ (if eqb_ℤ j k then true else is_visited j visited)
unfolding is_visited
is_visited-insert j k visited = elim (Bool-cases (eqb_ℤ j k)) [
  | inl same ↦ rw (find-insert j k true visited, same, is_visited) refl
  | inr other ↦ rw (find-insert j k true visited, other, is_visited) refl
]

module _ {ℓ} {D : Type ℓ} where
  -- A river `x` that flows into the river with id `y`.
  abbrev pub Edge : RiverNetwork D → ℤ → ℤ → Type ℓ
  Edge m x y =
      (r : River D) × (find x m ≡ some r) × (downstream_id r ≡ y) × (valid_routing_id y ≡ true)

  -- One or more rivers downstream from `x`.
  pub data Reaches (m : RiverNetwork D) (x : ℤ) : ℤ → Type ℓ where
    edge : {y : ℤ} → Edge m x y → Reaches m x y
    further : {y z : ℤ} → Reaches m x y → Edge m y z → Reaches m x z

  abbrev pub HasCycle : RiverNetwork D → Type ℓ
  HasCycle m = (x : ℤ) × Reaches m x x

  -- Every river that another one flows into is there, and ids are valid.
  pub record IsClosed (m : RiverNetwork D) : Type ℓ where
    pub sorted : IsSorted m
    pub valid_keys : All (λ e. valid_routing_id e.0 ≡ true) m
    pub closed :
        (x : ℤ) (r : River D)
        → find x m ≡ some r
        → valid_routing_id (downstream_id r) ≡ true
        → (s : River D) × (find (downstream_id r) m ≡ some s)

  -- The way downstream from `x` leads over `n` rivers and then to no river.
  abbrev pub EndsIn : RiverNetwork D → ℕ → ℤ → Type ℓ
  EndsIn m zero x = find x m ≡ none
  EndsIn m (suc n) x = (r : River D) × (find x m ≡ some r) × EndsIn m n (downstream_id r)

  pub EndsIn-unique : (m : RiverNetwork D) (n k : ℕ) (x : ℤ) → EndsIn m n x → EndsIn m k x → n ≡ k
  EndsIn-unique m zero zero x a b = refl
  EndsIn-unique m zero (suc k) x a (r, found, b) = cc
  EndsIn-unique m (suc n) zero x (r, found, a) b = cc
  EndsIn-unique m (suc n) (suc k) x (r, found, a) (s, found', b) =
      let same : s ≡ r = cc in
      ap suc
        (EndsIn-unique m n k (downstream_id r) a (subst (λ q. EndsIn m k (downstream_id q)) same b))

  pub EndsIn-Edge :
      (m : RiverNetwork D) (n : ℕ) (x y : ℤ) → Edge m x y → EndsIn m n y → EndsIn m (suc n) x
  EndsIn-Edge m n x y (r, found, to, _) h = (r, found, subst (EndsIn m n) (sym to) h)

  pub Reaches-EndsIn :
      (m : RiverNetwork D) (x : ℤ) (y : ℤ) (n : ℕ)
      → Reaches m x y
      → EndsIn m n y
      → (k : ℕ) × EndsIn m (suc (k + n)) x
  Reaches-EndsIn m x y n (edge e) h =
      (0, subst (λ j. EndsIn m (suc j) x) (omega arith) (EndsIn-Edge m n x y e h))
  Reaches-EndsIn m x z n (further {y} way e) h =
      let (k, far) = Reaches-EndsIn m x y (suc n) way (EndsIn-Edge m n y z e h) in
      (suc k, subst (λ j. EndsIn m (suc j) x) (omega arith) far)

  -- A way that ends is not one that comes back.
  pub EndsIn-not_cycle : (m : RiverNetwork D) (n : ℕ) (x : ℤ) → EndsIn m n x → ¬ Reaches m x x
  EndsIn-not_cycle m n x h round =
      let (k, far) = Reaches-EndsIn m x x n round h in
      absurd (omega (arith, EndsIn-unique m n (suc (k + n)) x h far))

  pub Reaches-first :
      (m : RiverNetwork D) (x : ℤ) {y : ℤ} → Reaches m x y → (r : River D) × (find x m ≡ some r)
  Reaches-first m x (edge (r, found, _, _)) = (r, found)
  Reaches-first m x (further way e) = Reaches-first m x way

  pub invalid-absent :
      (m : RiverNetwork D) (x : ℤ)
      → All (λ e. valid_routing_id e.0 ≡ true) m
      → valid_routing_id x ≡ false
      → find x m ≡ none
  invalid-absent m x keys invalid = elim (Option-cases (find x m)) [
    | inl absent ↦ absent
    | inr (r, found) ↦
        let valid = find-All (λ e. valid_routing_id e.0 ≡ true) x r m keys found in cc
  ]

  -- The rivers that are not visited.
  pub unseen : RiverNetwork D → List (ℤ × Bool) → ℕ
  unseen [] visited = 0
  unseen (e ∷ m) visited =
      let rest = unseen m visited in if is_visited e.0 visited then rest else suc rest

  pub unseen-le-length :
      (m : RiverNetwork D) (visited : List (ℤ × Bool)) → unseen m visited ≤ length m
  unfolding unseen
  unseen-le-length [] visited = omega arith
  unseen-le-length (e ∷ m) visited = ground (arith, unseen-le-length m visited)

  unseen-insert_le :
      (m : RiverNetwork D) (visited : List (ℤ × Bool)) (k : ℤ)
      → unseen m (insert k true visited) ≤ unseen m visited
  unfolding unseen
  unseen-insert_le [] visited k = omega arith
  unseen-insert_le (e ∷ m) visited k =
      ground (arith, unseen-insert_le m visited k, is_visited-insert e.0 k visited)

  pub unseen-insert_lt :
      (m : RiverNetwork D) (visited : List (ℤ × Bool)) (k : ℤ) (r : River D)
      → find k m ≡ some r
      → is_visited k visited ≡ false
      → unseen m (insert k true visited) < unseen m visited
  unfolding unseen find
  unseen-insert_lt [] visited k r found new = cc
  unseen-insert_lt (e ∷ m) visited k r found new = elim (Bool-cases (eqb_ℤ k e.0)) [
    | inl here ↦
        let same : k ≡ e.0 = eq_of_parts k e.0 (ground arith) in
        let back : eqb_ℤ e.0 k ≡ true = ground arith in
        let now : is_visited e.0 visited ≡ false = rw (← same) new in
        let marked : is_visited e.0 (insert k true visited) ≡ true =
          rw (is_visited-insert e.0 k visited, back) refl in
        rw (marked, now) (omega (arith, unseen-insert_le m visited k))
    | inr later ↦
        let found' : find k m ≡ some r = ground (arith, later, found) in
        ground (arith, unseen-insert_lt m visited k r found' new, is_visited-insert e.0 k visited)
  ]
