-- ===== src/TimeAxis/Periods.antt =====
-- `period_list` of core/time_axis.h: periods in increasing order that do not overlap. `none` stands for
-- `std::string::npos`, and a read past the end of the vector is undefined.
pub mod Ordered
pub mod Index
pub mod Hint
use Prim.Native.Nat.{pred}
use shyft.Prelude.{
  ℕ, zero, suc, ◌+◌, ◌-◌, Bool, true, false, not, ◌&&◌, ◌||◌, Option, none, some, List, [], ◌∷◌,
  map,
}
use shyft.Prelude.Tests.{ltb, ◌==◌, if◌then◌else◌}
use shyft.Prelude.Lists.{length, get_elem?}
use shyft.Prelude.Int.{ltb_ℤ, leb_ℤ}
use shyft.Prelude.Outcome.{Outcome, ok, throw, undefined, runtime_error, out_of_range, ◌>>=◌}
use shyft.Utc.{UtcTime, UtcPeriod, period, min_utctime, contains, period_eq}
use shyft.TimeAxis.Point.{lower_bound, max_directional_search}
use shyft.TimeAxis.Generic
use shyft.TimeAxis.Generic.{GenericDt}

pub record PeriodList : Type 0 where
  pub p : List UtcPeriod

abbrev pub null_range : PeriodList
null_range = record { p = [] }

-- Whether no period starts before the end of the one before it.
unfoldable pub in_order : List UtcPeriod → Bool
in_order [] = true
in_order (q ∷ []) = true
in_order (q ∷ r ∷ p) = let rest = in_order (r ∷ p) in if ltb_ℤ r.start q.end then false else rest

unfoldable pub make : List UtcPeriod → Outcome PeriodList
make p = if in_order p then ok (record { p = p }) else throw runtime_error

-- The `n` periods of an axis from index `i` on.
unfoldable pub periods_from : GenericDt → ℕ → ℕ → Outcome (List UtcPeriod)
periods_from ta i zero = ok []
periods_from ta i (suc n) =
    Generic.period_at ta i >>= λ q. periods_from ta (i + 1) n >>= λ rest. ok (q ∷ rest)

unfoldable pub convert : GenericDt → Outcome PeriodList
convert ta = periods_from ta 0 (Generic.size ta) >>= λ p. ok (record { p = p })

unfoldable pub same_periods : List UtcPeriod → List UtcPeriod → Bool
same_periods [] [] = true
same_periods [] (r ∷ s) = false
same_periods (q ∷ p) [] = false
same_periods (q ∷ p) (r ∷ s) = period_eq q r && same_periods p s

unfoldable pub period_list_eq : PeriodList → PeriodList → Bool
period_list_eq a b = same_periods a.p b.p

unfoldable pub size : PeriodList → ℕ
size a = length a.p

unfoldable pub back : List UtcPeriod → Option UtcPeriod
back [] = none
back (q ∷ []) = some q
back (q ∷ r ∷ p) = back (r ∷ p)

unfoldable pub total_period : PeriodList → UtcPeriod
total_period a = elim a.p [
  | [] ↦ period min_utctime min_utctime
  | q ∷ _ ↦ elim (back a.p) [ none ↦ q | some last ↦ period q.start last.end ]
]

unfoldable pub time : PeriodList → ℕ → Outcome UtcTime
time a i = elim (get_elem? a.p i) [ none ↦ throw out_of_range | some q ↦ ok q.start ]

unfoldable pub period_at : PeriodList → ℕ → Outcome UtcPeriod
period_at a i = elim (get_elem? a.p i) [ none ↦ throw out_of_range | some q ↦ ok q ]

-- `p[i]`
unfoldable pub read : List UtcPeriod → ℕ → Outcome UtcPeriod
read p i = elim (get_elem? p i) [ none ↦ undefined | some q ↦ ok q ]

-- Whether the next period, if there is one, starts after `tx`.
unfoldable pub next_after : List UtcPeriod → ℕ → UtcTime → Bool
next_after p i tx = elim (get_elem? p (i + 1)) [ none ↦ true | some q ↦ ltb_ℤ tx q.start ]

unfoldable pub next_starts_after : List UtcPeriod → ℕ → UtcTime → Bool
next_starts_after p i tx = elim (get_elem? p (i + 1)) [ none ↦ false | some q ↦ ltb_ℤ tx q.start ]

-- The last of the first `n` periods, which start at or before `tx`, if it is to be returned.
unfoldable pub last_started : List UtcPeriod → UtcTime → Bool → ℕ → Outcome (Option ℕ)
last_started p tx period_containment zero = ok none
last_started p tx period_containment (suc ix) = read p ix >>= λ q.
    if contains q tx
    then ok (some ix)
    else if not period_containment && leb_ℤ q.start tx
    then ok (some ix)
    else ok none

-- The search by halving.
unfoldable pub binary_search : List UtcPeriod → UtcTime → Bool → Outcome (Option ℕ)
binary_search p tx period_containment =
    last_started p tx period_containment (lower_bound tx (map (λ q. q.start) p))

-- The loops from the hint on, with the rounds that are left.
unfoldable pub search_up : ℕ → List UtcPeriod → UtcTime → ℕ → Outcome ℕ
search_up zero p tx ix = read p ix >>= λ q. ok ix
search_up (suc j) p tx ix =
    let next = search_up j p tx (ix + 1) in
    read p ix >>= λ q. if ltb_ℤ q.end tx && ltb ix (length p) then next else ok ix

unfoldable pub search_down : ℕ → List UtcPeriod → UtcTime → ℕ → Outcome ℕ
search_down zero p tx ix = read p ix >>= λ q. ok ix
search_down (suc j) p tx ix =
    let next = search_down j p tx (ix - 1) in
    read p ix >>= λ q. if ltb_ℤ tx q.start && ltb 0 ix then next else ok ix

-- After such a loop: the period reached, or the search by halving.
unfoldable pub search_done : List UtcPeriod → UtcTime → Bool → ℕ → Outcome (Option ℕ)
search_done p tx period_containment ix = read p ix >>= λ q.
    if contains q tx
    then ok (some ix)
    else if not period_containment && leb_ℤ q.start tx && next_starts_after p ix tx
    then ok (some ix)
    else binary_search p tx period_containment

unfoldable pub search_from : List UtcPeriod → UtcTime → Bool → ℕ → Outcome (Option ℕ)
search_from p tx period_containment hint = read p hint >>= λ q.
    if period_containment && contains q tx
      || not period_containment && leb_ℤ tx q.start && next_after p hint tx
    then ok (some hint)
    else if ltb_ℤ q.end tx
    then (search_up (pred max_directional_search) p tx hint >>= λ ix.
        if ix == length p then ok none else search_done p tx period_containment ix)
    else (search_down (pred max_directional_search) p tx hint >>= λ ix.
        search_done p tx period_containment ix)

unfoldable pub index_inside : List UtcPeriod → UtcTime → Option ℕ → Bool → Outcome (Option ℕ)
index_inside p tx none period_containment = binary_search p tx period_containment
index_inside p tx (some hint) period_containment =
    if ltb hint (length p)
    then search_from p tx period_containment hint
    else binary_search p tx period_containment

unfoldable pub index_of : PeriodList → UtcTime → Option ℕ → Bool → Outcome (Option ℕ)
index_of a tx ix_hint period_containment = elim a.p [
  | [] ↦ ok none
  | q ∷ _ ↦ elim (back a.p) [
    | none ↦ undefined
    | some last ↦
        if ltb_ℤ tx q.start || leb_ℤ last.end tx
        then ok none
        else index_inside a.p tx ix_hint period_containment
  ]
]

unfoldable pub open_range_index_of : PeriodList → UtcTime → Option ℕ → Outcome (Option ℕ)
open_range_index_of a tx ix_hint =
    if ltb 0 (size a) && leb_ℤ (total_period a).end tx
    then ok (some (pred (size a)))
    else index_of a tx ix_hint false
