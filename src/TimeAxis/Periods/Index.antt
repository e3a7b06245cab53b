-- ===== src/TimeAxis/Periods/Index.antt =====
-- The index of a time among the periods, without a hint.
use shyft.Prelude.{
  ℕ, zero, suc, ◌≡◌, refl, ap, ◌∙◌, arith, ◌↔◌, inl, inr, true, false, ◌||◌, Option, none, some,
  List, [], ◌∷◌,
}
use mathlib.Core.Path.{subst}
use mathlib.Core.Option.{some-injective}
use shyft.Prelude.Tests.{Bool-cases, Option-cases, if◌then◌else◌}
use shyft.Prelude.Lists.{All, All-map, get_elem?}
use shyft.Prelude.Int.{◌≤ℤ◌, ◌<ℤ◌, ltb_ℤ, leb_ℤ}
use shyft.Prelude.Outcome.{Outcome, ok, >>=-eq-ok}
use shyft.Utc.{UtcTime, UtcPeriod, contains}
use shyft.TimeAxis.Point.{lower_bound}
use shyft.TimeAxis.Point.Sorted.{lower_bound_pass, lower_bound_stop}
use shyft.TimeAxis.Periods.{PeriodList, read, last_started, binary_search, index_inside, index_of}
use shyft.TimeAxis.Periods.Ordered.{
  starts, IsPeriods, contains-bounds, get_elem?-All, back-some, end-le-back, start-le-first,
  read-at,
}

lower_bound_none :
    (tx : UtcTime) (p : List UtcPeriod) → All (λ r. tx <ℤ r.start) p → lower_bound tx (starts p) ≡ 0
unfolding lower_bound
lower_bound_none tx [] h = refl
lower_bound_none tx (r ∷ p) h = lower_bound_stop tx r.start (starts p) h.0

-- The search by halving stops after the period that a time lies in.
lower_bound-starts :
    (tx : UtcTime) (p : List UtcPeriod) (i : ℕ) (q : UtcPeriod)
    → IsPeriods p
    → get_elem? p i ≡ some q
    → q.start ≤ℤ tx
    → tx <ℤ q.end
    → lower_bound tx (starts p) ≡ suc i
lower_bound-starts tx [] i q P e low high = cc
lower_bound-starts tx (r ∷ p) zero q P e low high =
    let same : r ≡ q = some-injective r q e in
    let low' : r.start ≤ℤ tx = rw same low in
    let high' : tx <ℤ r.end = rw same high in
    lower_bound_pass tx r.start (starts p) low'
    ∙ ap suc (
        lower_bound_none tx p
          (All-map (λ s. r.end ≤ℤ s.start) (λ s. tx <ℤ s.start) p (λ s h. omega arith) P.1))
lower_bound-starts tx (r ∷ p) (suc i) q P e low high =
    let later : r.end ≤ℤ q.start = get_elem?-All (λ s. r.end ≤ℤ s.start) p i q P.1 e in
    lower_bound_pass tx r.start (starts p) (omega (arith, P.0, later, low))
    ∙ ap suc (lower_bound-starts tx p i q P.2 e low high)

last_started-contains :
    (p : List UtcPeriod) (tx : UtcTime) (n i : ℕ)
    → last_started p tx true n ≡ ok (some i)
    → (q : UtcPeriod) × (get_elem? p i ≡ some q) × (contains q tx ≡ true)
unfolding last_started read
last_started-contains p tx zero i h = cc
last_started-contains p tx (suc ix) i h =
    let (q, is_read, rest) = >>=-eq-ok (read p ix) (λ q. pick q) h in
    elim (Bool-cases (contains q tx)) [
      | inl inside ↦
          let same : ix ≡ i = ground (arith, inside, rest) in
          (q, subst (λ k. get_elem? p k ≡ some q) same (read-some ix q is_read), inside)
      | inr outside ↦ absurd (ground (arith, outside, rest))
    ]
  where
    pick : UtcPeriod → Outcome (Option ℕ)
    pick q = if contains q tx then ok (some ix) else if false then ok (some ix) else ok none

    read-some : (k : ℕ) (q : UtcPeriod) → read p k ≡ ok q → get_elem? p k ≡ some q
    read-some k q e = elim (Option-cases (get_elem? p k)) [
      | inl absent ↦ let not_read = rw (absent, read) at e in cc
      | inr (r, at_k) ↦ let is_read = rw (at_k, read) at e in cc
    ]

-- The search by halving finds the period that contains a time, and no other.
binary_search-contains :
    (p : List UtcPeriod) (tx : UtcTime) (i : ℕ)
    → IsPeriods p
    → (binary_search p tx true ≡ ok (some i))
      ↔ ((q : UtcPeriod) × (get_elem? p i ≡ some q) × (contains q tx ≡ true))
unfolding binary_search last_started
binary_search-contains p tx i P = (last_started-contains p tx (lower_bound tx (starts p)) i, from)
  where
    from :
        (q : UtcPeriod) × (get_elem? p i ≡ some q) × (contains q tx ≡ true)
        → binary_search p tx true ≡ ok (some i)
    from (q, at_i, inside) =
        let (low, high) = contains-bounds q tx inside in
        rw (lower_bound-starts tx p i q P at_i low high, read-at p i q at_i, inside) refl

index_of-contains_list :
    (p : List UtcPeriod) (tx : UtcTime) (i : ℕ)
    → IsPeriods p
    → (index_of (record { p = p }) tx none true ≡ ok (some i))
      ↔ ((q : UtcPeriod) × (get_elem? p i ≡ some q) × (contains q tx ≡ true))
unfolding index_of index_inside
index_of-contains_list [] tx i P = (λ h. absurd (cc), λ (q, at_i, _). absurd (cc))
index_of-contains_list (r ∷ p) tx i P =
    let (last, ends) = back-some r p in
    elim (Bool-cases (ltb_ℤ tx r.start || leb_ℤ last.end tx)) [
      | inl outside ↦ (
        λ h. absurd (cc (rw (ends, outside, index_of) at h)),
        λ (q, at_i, inside).
            let (low, high) = contains-bounds q tx inside in
            absurd (
              ground (
                arith,
                outside,
                low,
                high,
                start-le-first r p q i P at_i,
                end-le-back (r ∷ p) last q i P ends at_i,
              )),
      )
      | inr between ↦ rw (ends, between, index_of) (binary_search-contains (r ∷ p) tx i P)
    ]

-- In a list of periods that are not empty, in increasing order and do not overlap, the index of a time
-- that is looked up without a hint, as one in a period, is the number of the period that contains the
-- time; where none does, no number is found.
pub index_of-contains_iff :
    (a : PeriodList) (tx : UtcTime) (i : ℕ)
    → IsPeriods a.p
    → (index_of a tx none true ≡ ok (some i))
      ↔ ((q : UtcPeriod) × (get_elem? a.p i ≡ some q) × (contains q tx ≡ true))
index_of-contains_iff a tx i P = index_of-contains_list a.p tx i P
