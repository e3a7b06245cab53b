-- ===== src/TimeAxis/Periods/Hint.antt =====
-- The index of a time among the periods, with a hint at a later period.
use shyft.Prelude.{
  ℕ, zero, suc, ◌+◌, ◌≡◌, refl, arith, inl, inr, true, false, ◌||◌, some, List, [], ◌∷◌,
}
use mathlib.Core.Path.{subst}
use mathlib.Core.Option.{some-injective}
use shyft.Prelude.Tests.{Option-cases, ltb}
use shyft.Prelude.Lists.{length, get_elem?}
use shyft.Prelude.Int.{◌≤ℤ◌, ◌<ℤ◌, ltb_ℤ, leb_ℤ}
use shyft.Prelude.Outcome.{ok}
use shyft.Utc.{UtcTime, UtcPeriod}
use shyft.TimeAxis.Periods.{PeriodList, next_after, search_from, index_inside, index_of}
use shyft.TimeAxis.Periods.Ordered.{
  IsPeriods, get_elem?-All, back-some, end-le-back, period-not_empty, lt-length, read-at,
}

next_after-later :
    (p : List UtcPeriod) (i : ℕ) (q : UtcPeriod) (tx : UtcTime)
    → IsPeriods p
    → get_elem? p i ≡ some q
    → tx <ℤ q.start
    → next_after p i tx ≡ true
unfolding next_after
next_after-later p i q tx P at_i before = elim (Option-cases (get_elem? p (i + 1))) [
  | inl absent ↦ rw (absent, next_after) refl
  | inr (r, at_next) ↦
      let later : q.end ≤ℤ r.start = next-start p i q r P at_i at_next in
      let between : q.start <ℤ q.end = period-not_empty p i q P at_i in
      rw (at_next, next_after) (ground (arith, later, between, before))
]
  where
    next-start :
        (p : List UtcPeriod) (i : ℕ) (q r : UtcPeriod)
        → IsPeriods p
        → get_elem? p i ≡ some q
        → get_elem? p (i + 1) ≡ some r
        → q.end ≤ℤ r.start
    next-start [] i q r P e f = cc
    next-start (s ∷ p) zero q r P e f =
        rw (← some-injective s q e) (get_elem?-All (λ t. s.end ≤ℤ t.start) p 0 r P.1 f)
    next-start (s ∷ p) (suc i) q r P e f =
        let shift : suc i + 1 ≡ suc (i + 1) = omega arith in
        next-start p i q r P.2 e (subst (λ k. get_elem? (s ∷ p) k ≡ some r) shift f)

index_of-hint_list :
    (p : List UtcPeriod) (tx : UtcTime) (hint : ℕ) (first q : UtcPeriod)
    → IsPeriods p
    → get_elem? p 0 ≡ some first
    → first.start ≤ℤ tx
    → get_elem? p hint ≡ some q
    → tx <ℤ q.start
    → index_of (record { p = p }) tx (some hint) false ≡ ok (some hint)
unfolding index_of index_inside search_from
index_of-hint_list [] tx hint first q P e low at_hint before = cc
index_of-hint_list (r ∷ p) tx hint first q P e low at_hint before =
    let (last, ends) = back-some r p in
    let same : r ≡ first = some-injective r first e in
    let low' : r.start ≤ℤ tx = rw same low in
    let high = end-le-back (r ∷ p) last q hint P ends at_hint in
    let inside : ltb hint (length (r ∷ p)) ≡ true = lt-length (r ∷ p) hint q at_hint in
    let not_empty : q.start <ℤ q.end = period-not_empty (r ∷ p) hint q P at_hint in
    let between : (ltb_ℤ tx r.start || leb_ℤ last.end tx) ≡ false =
      ground (arith, low', high, before, not_empty) in
    let early : leb_ℤ tx q.start ≡ true = ground (arith, before) in
    rw
      (
        ends,
        between,
        inside,
        read-at (r ∷ p) hint q at_hint,
        early,
        next_after-later (r ∷ p) hint q tx P at_hint before,
        index_of,
      )
      refl

-- In a list of periods that are not empty, in increasing order and do not overlap, a time that is not
-- before the first period, and is looked up as one in or after a period, is given the index of the hint
-- wherever the hint is at a period that starts after the time.
pub index_of-later_hint :
    (a : PeriodList) (tx : UtcTime) (hint : ℕ) (first q : UtcPeriod)
    → IsPeriods a.p
    → get_elem? a.p 0 ≡ some first
    → first.start ≤ℤ tx
    → get_elem? a.p hint ≡ some q
    → tx <ℤ q.start
    → index_of a tx (some hint) false ≡ ok (some hint)
index_of-later_hint a tx hint first q P e low at_hint before =
    index_of-hint_list a.p tx hint first q P e low at_hint before
