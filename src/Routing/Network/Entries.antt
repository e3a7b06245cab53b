-- ===== src/Routing/Network/Entries.antt =====
-- The entries of a `river_network` and the loop over the rivers upstream, as lists.
use shyft.Prelude.{◌≡◌, refl, sym, ap, arith, ◌↔◌, inl, inr, true, some, List, [], ◌∷◌, ◌++◌}
use mathlib.Core.Path.{subst}
use mathlib.Core.List.{Memᴰ}
use mathlib.Core.List.Memᴰ
use shyft.Prelude.Tests.{Bool-cases, if◌then◌else◌}
use shyft.Prelude.Lists.{All}
use shyft.Prelude.Int.{ℤ, eqb_ℤ, eq_of_parts}
use shyft.Prelude.Outcome.{Outcome, ok}
use shyft.Routing.Maps.{find}
use shyft.Routing.Network.{RiverNetwork, River, upstreams, collect}

-- A loop of calls that all return, with the answers put together.
pub collect-returns :
    (call : ℤ → Outcome (List ℤ)) (rids : List ℤ)
    → ((i : ℤ) → Memᴰ i rids → (l : List ℤ) × (call i ≡ ok l))
    → (l : List ℤ) × (collect call rids ≡ ok l)
      × ((x : ℤ) → Memᴰ x l ↔ ((i : ℤ) × Memᴰ i rids × (k : List ℤ) × (call i ≡ ok k) × Memᴰ x k))
unfolding collect
collect-returns call [] returns =
    ([], refl, λ x. (λ h. absurd (Memᴰ.not-nil h), λ (i, h, _, _, _). absurd (Memᴰ.not-nil h)))
collect-returns call (i ∷ rids) returns =
    let (k, called) = returns i (Memᴰ.head refl) in
    let (l, collected, inside) = collect-returns call rids (λ j h. returns j (Memᴰ.tail h)) in
    (
      k ++ l,
      rw (called, collected) refl,
      λ x. (split k l called (inside x).0, join k l called (inside x).1),
    )
  where
    split :
        {x : ℤ} (k l : List ℤ)
        → call i ≡ ok k
        → (Memᴰ x l → (j : ℤ) × Memᴰ j rids × (k : List ℤ) × (call j ≡ ok k) × Memᴰ x k)
        → Memᴰ x (k ++ l)
        → (j : ℤ) × Memᴰ j (i ∷ rids) × (k : List ℤ) × (call j ≡ ok k) × Memᴰ x k
    split k l called rest h = elim (Memᴰ.append_cases k h) [
      | inl first ↦ (i, Memᴰ.head refl, k, called, first)
      | inr later ↦ let (j, m, k', called', h') = rest later in (j, Memᴰ.tail m, k', called', h')
    ]

    join :
        {x : ℤ} (k l : List ℤ)
        → call i ≡ ok k
        → ((j : ℤ) × Memᴰ j rids × (k : List ℤ) × (call j ≡ ok k) × Memᴰ x k → Memᴰ x l)
        → (j : ℤ) × Memᴰ j (i ∷ rids) × (k : List ℤ) × (call j ≡ ok k) × Memᴰ x k
        → Memᴰ x (k ++ l)
    join {x} k l called rest (j, m, k', called', h) = elim (Memᴰ.cases_cons m) [
      | inl here ↦ let same : k' ≡ k = cc in Memᴰ.append_left l (subst (Memᴰ x) same h)
      | inr later ↦ Memᴰ.append_right k (rest (j, later, k', called', h))
    ]

module _ {ℓ} {D : Type ℓ} where
  pub Memᴰ-upstreams_entry :
      (rid : ℤ) (rivers : RiverNetwork D) (x : ℤ)
      → Memᴰ x (upstreams rid rivers)
      → (e : ℤ × River D) × Memᴰ e rivers × (x ≡ e.0) × (eqb_ℤ e.1.downstream.id rid ≡ true)
  unfolding upstreams
  Memᴰ-upstreams_entry rid [] x h = absurd (Memᴰ.not-nil h)
  Memᴰ-upstreams_entry rid (e ∷ rivers) x h = elim (Bool-cases (eqb_ℤ e.1.downstream.id rid)) [
    | inl flows ↦
        let h' : Memᴰ x (e.0 ∷ upstreams rid rivers) =
          subst (λ b. Memᴰ x (if b then e.0 ∷ upstreams rid rivers else upstreams rid rivers)) flows
            h in
        elim (Memᴰ.cases_cons h') [
          | inl here ↦ (e, Memᴰ.head refl, here, flows)
          | inr later ↦
              let (f, m, is, flows') = Memᴰ-upstreams_entry rid rivers x later in
              (f, Memᴰ.tail m, is, flows')
        ]
    | inr not_flows ↦
        let h' : Memᴰ x (upstreams rid rivers) =
          subst (λ b. Memᴰ x (if b then e.0 ∷ upstreams rid rivers else upstreams rid rivers))
            not_flows h in
        let (f, m, is, flows') = Memᴰ-upstreams_entry rid rivers x h' in
        (f, Memᴰ.tail m, is, flows')
  ]

  pub entry-Memᴰ-upstreams :
      (rid : ℤ) (rivers : RiverNetwork D) (e : ℤ × River D)
      → Memᴰ e rivers
      → eqb_ℤ e.1.downstream.id rid ≡ true
      → Memᴰ e.0 (upstreams rid rivers)
  unfolding upstreams
  entry-Memᴰ-upstreams rid [] e h flows = absurd (Memᴰ.not-nil h)
  entry-Memᴰ-upstreams rid (f ∷ rivers) e h flows = elim (Memᴰ.cases_cons h) [
    | inl here ↦
        let flows' : eqb_ℤ f.1.downstream.id rid ≡ true = rw (← here) flows in
        rw flows' (Memᴰ.head (ap (λ (a : ℤ × River D). a.0) here))
    | inr later ↦
        let ih = entry-Memᴰ-upstreams rid rivers e later flows in
        elim (Bool-cases (eqb_ℤ f.1.downstream.id rid)) [
          | inl too ↦ rw too (Memᴰ.tail ih)
          | inr not_flows ↦ rw not_flows ih
        ]
  ]

  pub All-Memᴰ {κ} :
      (P : ℤ × River D → Type κ) (rivers : RiverNetwork D) (e : ℤ × River D)
      → All P rivers
      → Memᴰ e rivers
      → P e
  All-Memᴰ P [] e h m = absurd (Memᴰ.not-nil m)
  All-Memᴰ P (f ∷ rivers) e h m = elim (Memᴰ.cases_cons m) [
    | inl here ↦ subst P (sym here) h.0
    | inr later ↦ All-Memᴰ P rivers e h.1 later
  ]

  pub Memᴰ-find :
      (rivers : RiverNetwork D) (x : ℤ) (r : River D) → find x rivers ≡ some r → Memᴰ (x, r) rivers
  unfolding find
  Memᴰ-find [] x r found = absurd (cc)
  Memᴰ-find (e ∷ rivers) x r found = elim (Bool-cases (eqb_ℤ x e.0)) [
    | inl same ↦
        let here : x ≡ e.0 = eq_of_parts x e.0 (ground arith) in
        let value : r ≡ e.1 = ground arith in Memᴰ.head (λ i. (here i, value i))
    | inr other ↦ Memᴰ.tail (Memᴰ-find rivers x r (ground (arith, other, found)))
  ]
