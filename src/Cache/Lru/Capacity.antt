-- ===== src/Cache/Lru/Capacity.antt =====
-- Eviction: `insert` into a full cache and the loop of `set_capacity`.
use shyft.Prelude.{ℕ, zero, suc, ◌-◌, ◌≤◌, ◌≡◌, inl, inr, false, List, [], ◌∷◌, arith}
use shyft.Prelude.Tests.{ltb, leb, Bool-cases}
use shyft.Prelude.Lists.{length, drop}
use shyft.Prelude.Outcome.{ok}
use shyft.Cache.Lru.{Entry, LruCache, evict_down}
use shyft.Cache.Lru.Linked.{Linked}
use shyft.Cache.Lru.Methods.{evict-Linked}

-- The `n` most recently used entries.
abbrev pub most_recent {ℓ} : {A : Type ℓ} → ℕ → List A → List A
most_recent n s = drop (length s - n) s

pub most_recent_all {ℓ} : {A : Type ℓ} (n : ℕ) (s : List A) → length s ≤ n → most_recent n s ≡ s
most_recent_all n s h = let e : length s - n ≡ 0 = omega arith in rw e

pub most_recent-cons {ℓ} :
    {A : Type ℓ} (n : ℕ) (e : A) (s : List A)
    → n ≤ length s
    → most_recent n (e ∷ s) ≡ most_recent n s
most_recent-cons n e s h =
    let step : suc (length s) - n ≡ suc (length s - n) = omega arith in rw step

pub length-most_recent {ℓ} : {A : Type ℓ} (n : ℕ) (s : List A) → length (most_recent n s) ≤ n
length-most_recent n [] = ground arith
length-most_recent n (e ∷ s) = elim (Bool-cases (leb n (length s))) [
  | inl h ↦ rw (most_recent-cons n e s (ground arith)) (length-most_recent n s)
  | inr h ↦ rw (most_recent_all n (e ∷ s) (ground arith)) (ground arith)
]

module _ {ℓ} {K V : Type ℓ} (dec : Discrete K) where
  -- With as much fuel as there are entries the loop ends, and keeps the most recent ones.
  pub evict_down-Linked :
      (fuel limit : ℕ) (c : LruCache K V) (s : List (Entry K V))
      → Linked dec c s
      → length s ≤ fuel
      → (c' : LruCache K V) × (evict_down dec fuel limit c ≡ ok c')
        × Linked dec c' (most_recent limit s)
  unfolding evict_down
  evict_down-Linked zero limit c s L h =
      let stop : ltb limit (length c.key_to_value) ≡ false = ground (arith, L.count) in
      (c, rw stop, rw (most_recent_all limit s (omega arith)) L)
  evict_down-Linked (suc fuel) limit c [] L h =
      let stop : ltb limit (length c.key_to_value) ≡ false = ground (arith, L.count) in
      (c, rw stop, rw (most_recent_all {A = Entry K V} limit [] (omega arith)) L)
  evict_down-Linked (suc fuel) limit c (e ∷ s) L h =
      elim (Bool-cases (ltb limit (length c.key_to_value))) [
        | inl more ↦
            let (d, evicted, L', _, _) = evict-Linked dec c e s L in
            let (c', done, L'') = evict_down-Linked fuel limit d s L' (omega arith) in
            (
              c',
              rw (more, evicted) done,
              rw (most_recent-cons limit e s (ground (arith, L.count))) L'',
            )
        | inr stop ↦ (c, rw stop, rw (most_recent_all limit (e ∷ s) (ground (arith, L.count))) L)
      ]
