-- ===== src/TimeAxis/Merge.antt =====
-- The merge of two time-axes of core/time_axis.h: what to copy from the second axis before and
-- after the first one, and the merged axis. `compute_merge_info` is a template there: its axes are
-- given here by what it calls, the total periods, and the operations of the second axis.
pub mod Points
pub mod Axes
use shyft.Prelude.{ℕ, zero, suc, ◌+◌, ◌-◌, Bool, ◌&&◌, ◌||◌, not, Option, none, some, List, ◌++◌}
use shyft.Prelude.Tests.{ltb, leb, ◌==◌, if◌then◌else◌}
use shyft.Prelude.Lists.{length, take, drop}
use shyft.Prelude.Int.{pos, ◌-ℤ◌, ltb_ℤ}
use shyft.Prelude.Outcome.{Outcome, ok, throw, undefined, ◌>>=◌, runtime_error, out_of_range}
use shyft.Utc.{UtcTime, UtcPeriod, hull, no_utctime}
use shyft.TimeAxis.Fixed
use shyft.TimeAxis.Fixed.{FixedDt}
use shyft.TimeAxis.Point
use shyft.TimeAxis.Point.{PointDt, point_dt, make}

-- `a_i` is read only with `a_n` above 0.
pub record MergeInfo : Type 0 where
  pub b_n : ℕ
  pub a_i : ℕ
  pub a_n : ℕ
  pub t_end : UtcTime

-- `merge_info::size`
abbrev pub merge_size : MergeInfo → ℕ
merge_size m = m.b_n + m.a_n

unfoldable pub continuous_merge : UtcPeriod → UtcPeriod → Bool
continuous_merge a b = not (ltb_ℤ a.end b.start || ltb_ℤ b.end a.start)

unfoldable pub can_merge_fixed : FixedDt → FixedDt → Bool
unfolding continuous_merge
can_merge_fixed a b =
    a.dt == b.dt
    && not (a.dt == 0)
    && ltb 0 a.n
    && ltb 0 b.n
    && continuous_merge (Fixed.total_period a) (Fixed.total_period b)

unfoldable pub can_merge_point : PointDt → PointDt → Bool
unfolding continuous_merge
can_merge_point a b = continuous_merge (Point.total_period a) (Point.total_period b)

-- `index + 1`, which is 0 for npos.
abbrev pub index_after : Option ℕ → ℕ
index_after none = 0
index_after (some i) = suc i

-- `b.time(i)`, for an index that may be npos.
abbrev pub time_of : (ℕ → Outcome UtcTime) → Option ℕ → Outcome UtcTime
time_of time none = throw out_of_range
time_of time (some i) = time i

-- The number of points that `b` gives before `a`.
unfoldable pub before_count : (UtcTime → Outcome (Option ℕ)) → UtcPeriod → UtcPeriod → Outcome ℕ
before_count index_of a_p b_p =
    if ltb_ℤ b_p.start a_p.start
    then (index_of (a_p.start -ℤ pos 1) >>= λ i. ok (index_after i))
    else ok 0

-- The first index of `b` with a point that is not before the end of `a`.
unfoldable pub first_after :
    (UtcTime → Outcome (Option ℕ)) → (ℕ → Outcome UtcTime) → UtcPeriod → Outcome ℕ
first_after index_of time a_p = index_of a_p.end >>= λ i.
    time_of time i >>= λ t. if ltb_ℤ t a_p.end then ok (index_after i) else ok (index_after i - 1)

unfoldable pub compute_merge_info :
    UtcPeriod
    → UtcPeriod
    → (UtcTime → Outcome (Option ℕ))
    → (ℕ → Outcome UtcTime)
    → ℕ
    → Outcome MergeInfo
unfolding continuous_merge
compute_merge_info a_p b_p index_of time size =
    if not (continuous_merge a_p b_p)
    then throw runtime_error
    else (before_count index_of a_p b_p >>= λ b_n.
        if ltb_ℤ a_p.end b_p.end
        then (first_after index_of time a_p >>= λ a_i.
            ok (record { b_n = b_n; a_i = a_i; a_n = size - a_i; t_end = b_p.end }))
        else ok (record { b_n = b_n; a_i = 0; a_n = 0; t_end = a_p.end }))

-- `copy(begin(b) + first, begin(b) + first + n, ...)`, which reads nothing for `n` 0.
unfoldable pub copy_range {ℓ} : {T : Type ℓ} → ℕ → ℕ → List T → Outcome (List T)
copy_range first n b =
    if leb (first + n) (length b) || n == 0 then ok (take n (drop first b)) else undefined

-- The merge of value vectors, and of the points of point axes.
unfoldable pub merge_vectors {ℓ} : {T : Type ℓ} → List T → List T → MergeInfo → Outcome (List T)
merge_vectors a b m = copy_range 0 m.b_n b >>= λ before.
    copy_range m.a_i m.a_n b >>= λ after. ok (before ++ (a ++ after))

-- `merge` with the merge info, of each kind of axis.
abbrev pub merge_fixed_by : FixedDt → FixedDt → MergeInfo → FixedDt
merge_fixed_by a b m = record {
  t = (hull (Fixed.total_period a) (Fixed.total_period b)).start;
  dt = a.dt;
  n = a.n + merge_size m;
}

abbrev pub merge_point_by : PointDt → PointDt → MergeInfo → Outcome PointDt
merge_point_by a b m = merge_vectors a.t b.t m >>= λ t. make t m.t_end

-- The template `merge` of two axes of one kind.
unfoldable pub merge_fixed : FixedDt → FixedDt → Outcome FixedDt
unfolding can_merge_fixed
merge_fixed a b =
    let a_p = Fixed.total_period a in
    let b_p = Fixed.total_period b in
    if not (can_merge_fixed a b)
    then throw runtime_error
    else (compute_merge_info a_p b_p (λ t. ok (Fixed.index_of b t)) (Fixed.time b) b.n >>= λ m.
        ok (merge_fixed_by a b m))

unfoldable pub merge_point : PointDt → PointDt → Outcome PointDt
unfolding can_merge_point
merge_point a b =
    if not (can_merge_point a b)
    then throw runtime_error
    else (compute_merge_info (Point.total_period a) (Point.total_period b)
          (λ t. Point.index_of b t none) (Point.time b) (Point.size b)
        >>= λ m. merge_point_by a b m)
