-- ===== src/TimeAxis/Point.antt =====
-- `point_dt` of core/time_axis.h: time points and the end of the last period. `none` stands for
-- `std::string::npos`, and a read past the end of the vector is undefined. `lower_bound` is the
-- number of points before the first one that fails its test.
pub mod Sorted
pub mod Index
pub mod Searches
pub mod Hint
pub mod HintAtPoint
use Prim.Native.Nat.{pred}
use shyft.Prelude.{ℕ, zero, suc, ◌+◌, ◌-◌, ◌&&◌, ◌||◌, Option, none, some, List, [], ◌∷◌, map}
use shyft.Prelude.Tests.{ltb, ◌==◌, if◌then◌else◌}
use shyft.Prelude.Lists.{length, get_elem?}
use shyft.Prelude.Int.{◌+ℤ◌, ltb_ℤ, leb_ℤ, eqb_ℤ}
use shyft.Prelude.Outcome.{Outcome, ok, throw, undefined, ◌>>=◌, runtime_error, out_of_range}
use shyft.Utc.{UtcTime, UtcTimespan, UtcPeriod, period, min_utctime, no_utctime}

pub record PointDt : Type 0 where
  pub t : List UtcTime
  pub t_end : UtcTime

abbrev pub point_dt : List UtcTime → UtcTime → PointDt
point_dt t t_end = record { t = t; t_end = t_end }

-- `t.back()`, and what stands before it.
unfoldable pub back : List UtcTime → Option UtcTime
back [] = none
back (x ∷ []) = some x
back (x ∷ y ∷ l) = back (y ∷ l)

unfoldable pub pop_back : List UtcTime → List UtcTime
pop_back [] = []
pop_back (x ∷ []) = []
pop_back (x ∷ y ∷ l) = x ∷ pop_back (y ∷ l)

abbrev pub null_range : PointDt
null_range = point_dt [] no_utctime

-- The constructor from the points and the end.
unfoldable pub make : List UtcTime → UtcTime → Outcome PointDt
make t t_end = elim (back t) [
  | none ↦ throw runtime_error
  | some last ↦ if leb_ℤ t_end last then throw runtime_error else ok (point_dt t t_end)
]

-- The constructor from all points, the end included.
unfoldable pub make_all : List UtcTime → Outcome PointDt
make_all all_points =
    if ltb (length all_points) 2 then throw runtime_error else elim (back all_points) [
      | none ↦ undefined
      | some last ↦ ok (point_dt (pop_back all_points) last)
    ]

unfoldable pub size : PointDt → ℕ
size a = length a.t

unfoldable pub total_period : PointDt → UtcPeriod
total_period a = elim a.t [ [] ↦ period min_utctime min_utctime | x ∷ _ ↦ period x a.t_end ]

unfoldable pub time : PointDt → ℕ → Outcome UtcTime
time a i = elim (get_elem? a.t i) [ none ↦ throw out_of_range | some x ↦ ok x ]

-- The end of the period that starts at the point before index `i`.
abbrev pub end_at : PointDt → ℕ → UtcTime
end_at a i = elim (get_elem? a.t i) [ none ↦ a.t_end | some y ↦ y ]

unfoldable pub period_at : PointDt → ℕ → Outcome UtcPeriod
period_at a i = elim (get_elem? a.t i) [
  | none ↦ throw out_of_range
  | some x ↦ ok (period x (end_at a (i + 1)))
]

-- `t[i]`
unfoldable pub read : List UtcTime → ℕ → Outcome UtcTime
read t i = elim (get_elem? t i) [ none ↦ undefined | some x ↦ ok x ]

-- `lower_bound` with the test `pt <= val`.
unfoldable pub lower_bound : UtcTime → List UtcTime → ℕ
lower_bound tx [] = 0
lower_bound tx (x ∷ l) = let rest = lower_bound tx l in if leb_ℤ x tx then suc rest else 0

-- `size_t - 1`, which is npos at 0.
abbrev pub index_before : ℕ → Option ℕ
index_before zero = none
index_before (suc i) = some i

-- The upward loop; the first argument is how often `++j < max_directional_search` still holds.
unfoldable pub search_up : ℕ → List UtcTime → UtcTime → ℕ → Outcome ℕ
search_up zero t tx ix = read t ix >>= λ x. ok ix
search_up (suc j) t tx ix =
    let next = search_up j t tx (ix + 1) in
    read t ix >>= λ x. if ltb_ℤ x tx && ltb ix (length t) then next else ok ix

unfoldable pub search_down : ℕ → List UtcTime → UtcTime → ℕ → Outcome ℕ
search_down zero t tx ix = read t ix >>= λ x. ok ix
search_down (suc j) t tx ix =
    let next = search_down j t tx (ix - 1) in
    read t ix >>= λ x. if ltb_ℤ tx x && ltb 0 ix then next else ok ix

abbrev pub max_directional_search : ℕ
max_directional_search = 10

-- The search by halving, at the end of `index_of`.
unfoldable pub binary_search : List UtcTime → UtcTime → Option ℕ
binary_search t tx = index_before (lower_bound tx t)

-- The part of `index_of` for a hint below the size.
unfoldable pub search_from : List UtcTime → UtcTime → ℕ → Outcome (Option ℕ)
search_from t tx hint = read t hint >>= λ x.
    if eqb_ℤ x tx
    then ok (some hint)
    else if ltb_ℤ x tx
    then (search_up (max_directional_search - 1) t tx hint >>= λ ix. read t ix >>= λ y.
        if leb_ℤ tx y || ix == length t then ok (index_before ix) else ok (binary_search t tx))
    else (search_down (max_directional_search - 1) t tx hint >>= λ ix.
        read t ix >>= λ y. if ltb_ℤ tx y && ltb 0 ix then ok (binary_search t tx) else ok (some ix))

-- `index_of` for a time inside the axis and before its last point.
unfoldable pub index_inside : List UtcTime → UtcTime → Option ℕ → Outcome (Option ℕ)
index_inside t tx none = ok (binary_search t tx)
index_inside t tx (some hint) =
    if ltb hint (length t) then search_from t tx hint else ok (binary_search t tx)

unfoldable pub index_of : PointDt → UtcTime → Option ℕ → Outcome (Option ℕ)
index_of a tx ix_hint = elim a.t [
  | [] ↦ ok none
  | x ∷ _ ↦ if ltb_ℤ tx x || leb_ℤ a.t_end tx then ok none else elim (back a.t) [
    | none ↦ undefined
    | some last ↦
        if leb_ℤ last tx then ok (some (pred (length a.t))) else index_inside a.t tx ix_hint
  ]
]

unfoldable pub open_range_index_of : PointDt → UtcTime → Option ℕ → Outcome (Option ℕ)
open_range_index_of a tx ix_hint =
    if ltb 0 (length a.t) && leb_ℤ a.t_end tx
    then ok (some (pred (length a.t)))
    else index_of a tx ix_hint

unfoldable pub time_shift : PointDt → UtcTimespan → PointDt
time_shift a dt = point_dt (map (λ t. t +ℤ dt) a.t) (a.t_end +ℤ dt)
