-- ===== src/Database/Merge.antt =====
-- `merge_ts` of core/dtss_db.h: a series that covers the old data in part, before, after or inside of
-- it, goes into the file of the old one.
use shyft.Prelude.{ℕ, zero, suc, ◌+◌, ◌&&◌, List, [], ◌∷◌, ◌++◌}
use shyft.Prelude.Tests.{◌==◌, if◌then◌else◌}
use shyft.Prelude.Lists.{length, take, drop}
use shyft.Prelude.Int.{ltb_ℤ, leb_ℤ}
use shyft.Prelude.Outcome.{Outcome, ok, throw, out_of_range, ◌>>=◌}
use shyft.Utc.{UtcTime, UtcPeriod, period}
use shyft.TimeAxis.Fixed.{FixedDt}
use shyft.TimeAxis.Calendar.{CalendarDt}
use shyft.TimeAxis.Point.{PointDt, lower_bound}
use shyft.TimeAxis.Generic
use shyft.TimeAxis.Generic.{GenericDt, GenericType, fixed, calendar, point}
use shyft.Database.{
  point_axis, write_start, TsDbFile, GenericTs, difference, as_uint32, read_values, write_values,
  fixed_steps, calendar_steps,
}

-- `std::lower_bound`, with the test `t < tx`. `std::upper_bound` is the `lower_bound` of `point_dt`.
unfoldable pub first_not_before : UtcTime → List UtcTime → ℕ
first_not_before tx [] = 0
first_not_before tx (t ∷ ts) =
    let rest = first_not_before tx ts in if ltb_ℤ t tx then suc rest else 0

abbrev pub repeat {ℓ} : {A : Type ℓ} → ℕ → A → List A
repeat zero x = []
repeat (suc n) x = x ∷ repeat n x

-- What is kept and filled: from the old values, gaps between the two, and the tail of old values.
pub record Layout : Type 0 where
  pub t0 : UtcTime
  pub tn : UtcTime
  pub keep_old_v : ℕ
  pub nan_v_before : ℕ
  pub nan_v_after : ℕ
  pub tail : ℕ

abbrev pub last_time : UtcPeriod → UtcPeriod → UtcTime
last_time old_p new_p = if leb_ℤ old_p.end new_p.end then new_p.end else old_p.end

module _ (steps : UtcTime → UtcTime → Outcome ℕ) (old_p new_p : UtcPeriod) where
  unfoldable pub old_first : Outcome Layout
  old_first =
      (if ltb_ℤ old_p.end new_p.start then steps old_p.end new_p.start else ok 0) >>= λ nan_v_after.
      steps old_p.start new_p.start >>= λ apart. difference apart nan_v_after >>= λ keep_old_v.
      ok (record {
        t0 = old_p.start;
        tn = last_time old_p new_p;
        keep_old_v = keep_old_v;
        nan_v_before = 0;
        nan_v_after = nan_v_after;
        tail = 0;
      })

  unfoldable pub new_first : Outcome Layout
  new_first =
      (if ltb_ℤ new_p.end old_p.start then steps new_p.end old_p.start else ok 0)
      >>= λ nan_v_before.
          (if ltb_ℤ new_p.end old_p.end
            then (steps new_p.end old_p.end >>= λ apart. difference apart nan_v_before)
            else ok 0)
          >>= λ tail. ok (record {
            t0 = new_p.start;
            tn = last_time old_p new_p;
            keep_old_v = 0;
            nan_v_before = nan_v_before;
            nan_v_after = 0;
            tail = tail;
          })

  unfoldable pub layout : Outcome Layout
  layout = if leb_ℤ old_p.start new_p.start then old_first else new_first

module _ {V : Type 0} (nan : V) where
  -- The cases of a fixed and of a calendar axis, by the number of steps between two times.
  unfoldable pub merge_steps :
      (UtcTime → UtcTime → Outcome ℕ) → UtcPeriod → TsDbFile V → List V → Outcome (TsDbFile V)
  merge_steps steps new_p file v = layout steps file.header.data_period new_p >>= λ l.
      difference file.header.n l.tail >>= λ tail_at.
      read_values tail_at l.tail file.values >>= λ old_tail. steps l.t0 l.tn >>= λ n.
      write_values l.keep_old_v
        (repeat l.nan_v_after nan ++ (v ++ (repeat l.nan_v_before nan ++ old_tail))) file.values
      >>= λ values. ok (record {
        header = record file.header { n = as_uint32 n; data_period = period l.t0 l.tn };
        axis = write_start l.t0 file.axis;
        values = values;
      })

  unfoldable pub merge_fixed : FixedDt → UtcPeriod → TsDbFile V → List V → Outcome (TsDbFile V)
  merge_fixed f = merge_steps (fixed_steps f.dt)

  unfoldable pub merge_calendar :
      CalendarDt → UtcPeriod → TsDbFile V → List V → Outcome (TsDbFile V)
  merge_calendar c = merge_steps (calendar_steps c.cal c.dt)

  -- Points with their values, and where the last of them ends.
  record Merged : Type 0 where
    merged_t : List UtcTime
    merged_v : List V

  abbrev old_part : UtcPeriod → UtcPeriod → PointDt → List V → Outcome Merged
  old_part old_p new_p old_ta values =
      let old_end = first_not_before new_p.start old_ta.t in
      if ltb_ℤ old_p.start new_p.start
      then (read_values 0 old_end values >>= λ kept.
          let apart = old_end == length old_ta.t && ltb_ℤ old_ta.t_end new_p.start in
          ok (record {
            merged_t = take old_end old_ta.t ++ (if apart then old_ta.t_end ∷ [] else []);
            merged_v = kept ++ (if apart then nan ∷ [] else []);
          }))
      else ok (record { merged_t = []; merged_v = [] })

  abbrev old_rest : UtcPeriod → UtcPeriod → PointDt → ℕ → UtcTime → List V → Outcome Merged
  old_rest old_p new_p old_ta n t_end values =
      let trailing = drop (lower_bound t_end old_ta.t) old_ta.t in
      let to_insert = length trailing + (if leb_ℤ old_p.start new_p.end then 1 else 0) in
      if ltb_ℤ new_p.end old_p.end
      then (difference n to_insert >>= λ at. read_values at to_insert values >>= λ rest.
          ok (record { merged_t = trailing ++ (old_ta.t_end ∷ []); merged_v = rest }))
      else ok (record { merged_t = []; merged_v = [] })

  abbrev end_of : UtcTime → List UtcTime → UtcTime
  end_of t [] = t
  end_of t (u ∷ ts) = end_of u ts

  abbrev all_but_last : UtcTime → List UtcTime → List UtcTime
  all_but_last t [] = []
  all_but_last t (u ∷ ts) = t ∷ all_but_last u ts

  -- The file with points; `merged_t.at(0)` throws where there are none. What
  -- is left of the old file after the values is not read again.
  unfoldable pub point_file : TsDbFile V → List UtcTime → List V → Outcome (TsDbFile V)
  point_file file [] v = throw out_of_range
  point_file file (t ∷ ts) v = ok (record {
    header = record file.header { n = as_uint32 (length ts); data_period = period t (end_of t ts) };
    axis = point_axis (end_of t ts) (all_but_last t ts);
    values = v;
  })

  unfoldable pub merge_point :
      PointDt → PointDt → UtcPeriod → TsDbFile V → List V → Outcome (TsDbFile V)
  merge_point old_ta new_ta new_p file v =
      let old_p = file.header.data_period in
      old_part old_p new_p old_ta file.values >>= λ before.
      old_rest old_p new_p old_ta file.header.n new_ta.t_end file.values >>= λ after.
      let gap = if ltb_ℤ new_p.end old_p.start then nan ∷ [] else [] in
      point_file file (before.merged_t ++ (new_ta.t ++ (new_ta.t_end ∷ after.merged_t)))
        (before.merged_v ++ (v ++ (gap ++ after.merged_v)))

  unfoldable pub do_merge : TsDbFile V → GenericDt → GenericTs V → Outcome (TsDbFile V)
  do_merge file old_ta new_ts = Generic.total_period new_ts.ta >>= λ new_p.
      elim file.header.ta_type [
        | fixed ↦ merge_fixed new_ts.ta.f new_p file new_ts.v
        | calendar ↦ merge_calendar new_ts.ta.c new_p file new_ts.v
        | point ↦ merge_point old_ta.p new_ts.ta.p new_p file new_ts.v
      ]
