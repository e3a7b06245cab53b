-- ===== src/Database/Read/RoundTrip.antt =====
-- A series that is written to a file of its own is read back as it was.
use shyft.Prelude.{ℕ, ◌+◌, ◌<◌, ◌^◌, ◌≡◌, refl, sym, arith, true, false, List, [], ◌∷◌, ◌||◌}
use shyft.Prelude.Lists.{length, take}
use shyft.Prelude.Tests.{leb}
use shyft.Prelude.Int.{◌<ℤ◌, ◌≤ℤ◌, leb_ℤ, eqb_ℤ}
use shyft.Prelude.Outcome.{ok, ◌>>=◌}
use shyft.Utc.{UtcTime, UtcPeriod, no_utctime}
use shyft.TimeAxis.Fixed.{FixedDt}
use shyft.TimeAxis.Calendar
use shyft.TimeAxis.Calendar.{CalendarDt}
use shyft.TimeAxis.Point
use shyft.TimeAxis.Point.{PointDt}
use shyft.TimeAxis.Fixed
use shyft.TimeAxis.Generic
use shyft.TimeAxis.Generic.{GenericDt, GenericType, calendar, of_fixed, of_calendar, of_point}
use shyft.Database.{
  TsDbHeader, GenericTs, as_uint32, read_values, file_axis, Regions, lookup_calendar,
}
use shyft.Database.Read.{write_ts, read_overlapping, read_time_axis, read_ts, around}

-- An axis that one of the constructors makes: the members that its tag does not tell are the default ones.
pub data IsMade : GenericDt → Type 0 where
  made_fixed : (f : FixedDt) → IsMade (of_fixed f)
  made_calendar : (c : CalendarDt) → IsMade (of_calendar c)
  made_point : (p : PointDt) → IsMade (of_point p)

take-length {ℓ} : {A : Type ℓ} (l : List A) → take (length l) l ≡ l
take-length [] = refl
take-length (x ∷ l) = rw (take-length l) refl

read_values-all : {V : Type 0} (l : List V) → read_values 0 (length l) l ≡ ok l
unfolding read_values
read_values-all l =
    let there : leb (0 + length l) (length l) ≡ true = ground arith in
    rw (there, take-length l) refl

mod-small : (n : ℕ) → n < 2 ^ 32 → as_uint32 n ≡ n
mod-small n few = omega (arith, few)

around-true :
    (tzdef : Regions) (h : TsDbHeader) (p : UtcPeriod)
    → p.start ≤ℤ h.data_period.start
    → h.data_period.end ≤ℤ p.end
    → around tzdef h p.start p.end ≡ true
around-true tzdef h p before after = ground arith

read_overlapping-all :
    (tzdef : Regions) (h : TsDbHeader) (s e : UtcTime) (a : GenericDt)
    → IsMade a
    → (a.gt ≡ calendar → lookup_calendar tzdef a.c.cal.tz.tz_name ≡ ok a.c.cal)
    → h.n ≡ Generic.size a
    → around tzdef h s e ≡ true
    → read_overlapping tzdef h s e (file_axis a) ≡ ok (a, 0)
unfolding read_overlapping file_axis Generic.size Fixed.size Calendar.size Point.size
read_overlapping-all tzdef h s e _ (made_fixed f) zone size fully = rw (fully, size) refl
read_overlapping-all tzdef h s e _ (made_calendar c) zone size fully =
    rw (zone refl, fully, size) refl
read_overlapping-all tzdef h s e _ (made_point p) zone size fully =
    rw (size, read_values-all p.t, fully) refl

read_time_axis-all :
    (tzdef : Regions) (h : TsDbHeader) (a : GenericDt) (p : UtcPeriod)
    → IsMade a
    → (a.gt ≡ calendar → lookup_calendar tzdef a.c.cal.tz.tz_name ≡ ok a.c.cal)
    → h.n ≡ Generic.size a
    → no_utctime <ℤ p.start
    → h.data_period.start <ℤ h.data_period.end
    → p.start ≤ℤ h.data_period.start
    → h.data_period.end ≤ℤ p.end
    → read_time_axis tzdef h (file_axis a) p ≡ ok (a, 0)
unfolding read_time_axis
read_time_axis-all tzdef h a p made zone size there some before after =
    let starts : eqb_ℤ p.start no_utctime ≡ false = ground arith in
    let ends : eqb_ℤ p.end no_utctime ≡ false = ground arith in
    let meets : (leb_ℤ h.data_period.end p.start || leb_ℤ p.end h.data_period.start) ≡ false =
      ground arith in
    rw (starts, ends, meets)
      (read_overlapping-all tzdef h p.start p.end a made zone size
        (around-true tzdef h p before after))

-- A series with as many values as periods, fewer than 2 ^ 32, whose axis is made by a constructor and has
-- a total period that is not empty, and whose time zone, if it has one, is the one that the lookup of its
-- name gives, is written to a file; a period that starts after the missing time and covers the series reads
-- it back as it was.
pub read_ts-write_ts :
    {V : Type 0} (tzdef : Regions) (ts : GenericTs V) (q p : UtcPeriod)
    → IsMade ts.ta
    → (ts.ta.gt ≡ calendar → lookup_calendar tzdef ts.ta.c.cal.tz.tz_name ≡ ok ts.ta.c.cal)
    → Generic.total_period ts.ta ≡ ok q
    → length ts.v ≡ Generic.size ts.ta
    → Generic.size ts.ta < 2 ^ 32
    → q.start <ℤ q.end
    → no_utctime <ℤ p.start
    → p.start ≤ℤ q.start
    → q.end ≤ℤ p.end
    → (write_ts ts >>= λ file. read_ts tzdef file p) ≡ ok ts
unfolding write_ts read_ts
read_ts-write_ts tzdef ts q p made zone total full few some there before after =
    let counted : as_uint32 (Generic.size ts.ta) ≡ Generic.size ts.ta =
      mod-small (Generic.size ts.ta) few in
    let axis =
      read_time_axis-all tzdef
        (record {
          point_fx = ts.fx_policy;
          ta_type = ts.ta.gt;
          n = as_uint32 (Generic.size ts.ta);
          data_period = q;
        })
        ts.ta p made zone counted there some before after in
    rw (total, axis) (rw (sym full, read_values-all ts.v) refl)
