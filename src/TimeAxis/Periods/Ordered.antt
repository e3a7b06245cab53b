-- ===== src/TimeAxis/Periods/Ordered.antt =====
-- Periods in increasing order, their ends and their numbers.
use shyft.Prelude.{ℕ, zero, suc, ◌≡◌, refl, sym, ◌∙◌, arith, true, some, List, [], ◌∷◌, map}
use mathlib.Core.Path.{subst}
use mathlib.Core.Option.{some-injective}
use shyft.Prelude.Tests.{ltb}
use shyft.Prelude.Lists.{All, length, get_elem?}
use shyft.Prelude.Int.{◌≤ℤ◌, ◌<ℤ◌}
use shyft.Prelude.Outcome.{ok}
use shyft.Utc.{UtcTime, UtcPeriod, contains}
use shyft.TimeAxis.Periods.{back, read}

-- Periods that are not empty, in increasing order, and do not overlap.
abbrev pub IsPeriods : List UtcPeriod → Type 0
IsPeriods [] = Unit
IsPeriods (q ∷ p) = (q.start <ℤ q.end) × All (λ r. q.end ≤ℤ r.start) p × IsPeriods p

abbrev pub starts : List UtcPeriod → List UtcTime
starts p = map (λ q. q.start) p

-- What `contains` says of the bounds.
pub contains-bounds :
    (q : UtcPeriod) (tx : UtcTime) → contains q tx ≡ true → (q.start ≤ℤ tx) × (tx <ℤ q.end)
unfolding contains
contains-bounds q tx h = (ground arith, ground arith)

pub get_elem?-All {κ} :
    (P : UtcPeriod → Type κ) (p : List UtcPeriod) (i : ℕ) (q : UtcPeriod)
    → All P p
    → get_elem? p i ≡ some q
    → P q
get_elem?-All P [] i q h e = cc
get_elem?-All P (r ∷ p) zero q h e = subst P (some-injective r q e) h.0
get_elem?-All P (r ∷ p) (suc i) q h e = get_elem?-All P p i q h.1 e

pub back-some :
    (q : UtcPeriod) (p : List UtcPeriod) → (last : UtcPeriod) × (back (q ∷ p) ≡ some last)
unfolding back
back-some q [] = (q, refl)
back-some q (r ∷ p) = back-some r p

-- Every period ends by the end of the last one.
pub end-le-back :
    (p : List UtcPeriod) (last q : UtcPeriod) (i : ℕ)
    → IsPeriods p
    → back p ≡ some last
    → get_elem? p i ≡ some q
    → q.end ≤ℤ last.end
unfolding back
end-le-back [] last q i P e f = cc
end-le-back (r ∷ []) last q zero P e f =
    let same : q ≡ last = sym (some-injective r q f) ∙ some-injective r last e in
    rw same (omega arith)
end-le-back (r ∷ []) last q (suc i) P e f = cc
end-le-back (r ∷ s ∷ p) last q zero P e f =
    let same : r ≡ q = some-injective r q f in
    let rest = end-le-back (s ∷ p) last s 0 P.2 e refl in
    rw (← same) (omega (arith, P.1.0, P.2.0, rest))
end-le-back (r ∷ s ∷ p) last q (suc i) P e f = end-le-back (s ∷ p) last q i P.2 e f

pub start-le-first :
    (r : UtcPeriod) (p : List UtcPeriod) (q : UtcPeriod) (i : ℕ)
    → IsPeriods (r ∷ p)
    → get_elem? (r ∷ p) i ≡ some q
    → r.start ≤ℤ q.start
start-le-first r p q zero P e = let same : r ≡ q = some-injective r q e in rw same (omega arith)
start-le-first r p q (suc i) P e =
    let later = get_elem?-All (λ s. r.end ≤ℤ s.start) p i q P.1 e in omega (arith, P.0, later)

pub period-not_empty :
    (p : List UtcPeriod) (i : ℕ) (q : UtcPeriod)
    → IsPeriods p
    → get_elem? p i ≡ some q
    → q.start <ℤ q.end
period-not_empty [] i q P e = cc
period-not_empty (r ∷ p) zero q P e = rw (← some-injective r q e) P.0
period-not_empty (r ∷ p) (suc i) q P e = period-not_empty p i q P.2 e

pub lt-length :
    (p : List UtcPeriod) (i : ℕ) (q : UtcPeriod) → get_elem? p i ≡ some q → ltb i (length p) ≡ true
lt-length [] i q e = cc
lt-length (r ∷ p) zero q e = ground arith
lt-length (r ∷ p) (suc i) q e = ground (arith, lt-length p i q e)

pub read-at :
    (p : List UtcPeriod) (i : ℕ) (q : UtcPeriod) → get_elem? p i ≡ some q → read p i ≡ ok q
unfolding read
read-at p i q at_i = rw (at_i, read) refl
