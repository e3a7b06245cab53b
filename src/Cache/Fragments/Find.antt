-- ===== src/Cache/Fragments/Find.antt =====
-- `get_ix` of `mini_frag`: the search for the fragment that covers a period.
use shyft.Prelude.{
  ℕ, zero, suc, ◌+◌, ◌≡◌, refl, ◌↔◌, ◌⊎◌, ◌∙◌, ap, inl, inr, true, some, List, [], ◌∷◌, arith,
}
use mathlib.Core.Path.{subst}
use mathlib.Core.Option.{some-injective}
use shyft.Prelude.Tests.{Bool-cases}
use shyft.Prelude.Lists.{get_elem?}
use shyft.Prelude.Int.{◌≤ℤ◌, ◌<ℤ◌}
use shyft.Utc.{UtcTime, UtcPeriod, contains_period, valid}
use shyft.Cache.Fragments.{Fragment, split_while, starts_by, covering_last, get_ix}
use shyft.Cache.Fragments.Order.{IsApart, split_pass, split_stop, split_nil, start-le-end}

module _ {ℓ} {F V : Type ℓ} (T : Fragment F V) (p : UtcPeriod) where
  open T use {total_period, IsFragment}

  abbrev before_end : List F → List F
  before_end f = (split_while T (starts_by T p) f).0

  -- A fragment of the list that covers `p`, with its index.
  abbrev pub CoveredBy : ℕ → F → List F → Type ℓ
  CoveredBy k x f = (get_elem? f k ≡ some x) × (contains_period (total_period x) p ≡ true)

  covering_last-cons :
      (i j : ℕ) (x : F) (l : List F)
      → covering_last T p (suc i) l ≡ some j
      → covering_last T p i (x ∷ l) ≡ some j
  unfolding covering_last
  covering_last-cons i j x [] h = cc
  covering_last-cons i j x (y ∷ l) h = h

  pub get_elem?-IsApart :
      (b : UtcTime) (f : List F) (k : ℕ) (x : F)
      → IsApart T b f
      → get_elem? f k ≡ some x
      → IsFragment x × (b <ℤ (total_period x).start)
  get_elem?-IsApart b [] k x a e = cc
  get_elem?-IsApart b (y ∷ f) zero x a e =
      subst (λ x. IsFragment x × (b <ℤ (total_period x).start)) (some-injective y x e) (a.0, a.1)
  get_elem?-IsApart b (y ∷ f) (suc k) x a e =
      let r = get_elem?-IsApart (total_period y).end f k x a.2 e in
      (r.0, omega (arith, start-le-end T y a.0))

  starts_by_of_later :
      (b : UtcTime) (y : F) (f : List F) (k : ℕ) (x : F)
      → IsApart T b (y ∷ f)
      → CoveredBy k x f
      → starts_by T p y ≡ true
  unfolding contains_period
  starts_by_of_later b y f k x a c =
      let r = get_elem?-IsApart (total_period y).end f k x a.2 c.0 in
      ground (arith, start-le-end T y a.0, r.1, c.1)

  covering_last-split :
      (i j : ℕ) (x : F) (l : List F)
      → covering_last T p i (x ∷ l) ≡ some j
      → (j ≡ i) × (contains_period (total_period x) p ≡ true)
        ⊎ (covering_last T p (suc i) l ≡ some j)
  unfolding covering_last
  covering_last-split i j x [] h = ground arith
  covering_last-split i j x (y ∷ l) h = inr h

  later_stops : (b : UtcTime) (f : List F) → p.start ≤ℤ b → IsApart T b f → before_end f ≡ []
  later_stops b [] h a = rw (split_nil T (starts_by T p), before_end)
  later_stops b (x ∷ f) h a = rw (split_stop T (starts_by T p) x f (ground arith), before_end)

  head_found :
      (b : UtcTime) (y : F) (f : List F) (i : ℕ)
      → IsApart T b (y ∷ f)
      → contains_period (total_period y) p ≡ true
      → covering_last T p i (before_end (y ∷ f)) ≡ some i
  unfolding contains_period covering_last valid
  head_found b y f i a c =
      rw (split_pass T (starts_by T p) y f (ground arith), before_end)
        (rw (later_stops (total_period y).end f (ground arith) a.2, before_end, covering_last)
          (rw c))

  found :
      (b : UtcTime) (f : List F) (i k : ℕ) (x : F)
      → IsApart T b f
      → CoveredBy k x f
      → covering_last T p i (before_end f) ≡ some (i + k)
  found b [] i k x a c = cc c.0
  found b (y ∷ f) i zero x a c =
      let here : contains_period (total_period y) p ≡ true = rw (some-injective y x c.0) c.1 in
      rw (head_found b y f i a here) (ap some (omega arith))
  found b (y ∷ f) i (suc k) x a c =
      let passes : starts_by T p y ≡ true = starts_by_of_later b y f k x a c in
      let e : suc i + k ≡ i + suc k = omega arith in
      rw (split_pass T (starts_by T p) y f passes, before_end)
        (covering_last-cons i (i + suc k) y (before_end f)
          (rw e at (found (total_period y).end f (suc i) k x a.2 c)))

  sound :
      (f : List F) (i j : ℕ)
      → covering_last T p i (before_end f) ≡ some j
      → (k : ℕ) × (x : F) × (j ≡ i + k) × CoveredBy k x f
  unfolding covering_last
  sound [] i j e = cc (rw (split_nil T (starts_by T p), before_end, covering_last) at e)
  sound (y ∷ f) i j e = elim (Bool-cases (starts_by T p y)) [
    | inl c ↦
        elim (covering_last-split i j y (before_end f)
          (rw (split_pass T (starts_by T p) y f c, before_end) at e)) [
            | inl (same, covers) ↦ (0, y, omega arith, (refl, covers))
            | inr later ↦
                let (k, x, at_k, elem) = sound f (suc i) j later in (suc k, x, omega arith, elem)
          ]
    | inr c ↦ cc (rw (split_stop T (starts_by T p) y f c, before_end) at e)
  ]

  -- On fragments in order and apart, the search returns an index exactly if a fragment of the
  -- list covers the whole period, and then the index of that fragment.
  pub get_ix_iff :
      (b : UtcTime) (f : List F) (i : ℕ)
      → IsApart T b f
      → (get_ix T f p ≡ some i) ↔ ((x : F) × CoveredBy i x f)
  unfolding get_ix
  get_ix_iff b f i a = (
    λ e.
        let (k, x, at_k, elem) = sound f 0 i e in let e : k ≡ i = omega arith in (x, rw (← e) elem),
    λ (x, elem). found b f 0 i x a elem ∙ ap some (omega arith),
  )
