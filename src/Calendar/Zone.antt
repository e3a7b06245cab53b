-- ===== src/Calendar/Zone.antt =====
-- Time zones: `tz_table`, `tz_info<tz_table>` and the static members of `calendar` that they use,
-- in core/utctime_utilities.h.
--
-- `undefined` also stands for the times before day 0 of the Julian calendar or beyond 64 bits.
pub mod Table
use shyft.Prelude.{
  ℕ, zero, suc, ◌+◌, ◌-◌, ◌*◌, ◌/◌, ◌%◌, ◌^◌, Bool, true, false, ◌&&◌, ◌||◌, not, Option, none,
  some, List, [], ◌∷◌,
}
use shyft.Prelude.Tests.{ltb, leb, ◌==◌, if◌then◌else◌}
use shyft.Prelude.Lists.{length, get_elem?}
use shyft.Prelude.Int.{ℤ, pos, negsuc, ◌+ℤ◌, ◌-ℤ◌, ltb_ℤ, leb_ℤ, eqb_ℤ, quot_ℤ, to_int}
use shyft.Prelude.Outcome.{Outcome, ok, throw, undefined, runtime_error, ◌>>=◌}
use shyft.Utc.{UtcTime, UtcTimespan, UtcPeriod, no_utctime, max_utctime, min_utctime}
use shyft.Calendar.Days.{YmdHms, year_max, year_min, from_day_number}

abbrev pub day_length : ℕ
day_length = 86400

abbrev pub unix_day : ℕ
unix_day = 2440588

-- UnixSecond + t
unfoldable pub julian_second : UtcTime → Outcome ℕ
julian_second t = elim (pos (day_length * unix_day) +ℤ t) [
  | pos s ↦ if ltb s (2 ^ 63) then ok s else undefined
  | negsuc _ ↦ undefined
]

-- `day_number(utctime)`
unfoldable pub day_number_at : UtcTime → Outcome ℕ
unfolding julian_second
day_number_at t = julian_second t >>= λ s. ok (s / day_length)

unfoldable pub utc_year : UtcTime → Outcome ℤ
utc_year t =
    if eqb_ℤ t no_utctime
    then throw runtime_error
    else if eqb_ℤ t max_utctime
    then ok year_max
    else if eqb_ℤ t min_utctime
    then ok year_min
    else (day_number_at t >>= from_day_number >>= λ c. ok c.year)

-- The name of a zone: the text `UTC%+02d` of a number of hours, or a region like Europe/Oslo.
pub data TzName : Type 0 where
  utc_hours : ℤ → TzName
  region : List ℕ → TzName

abbrev pub same_text : List ℕ → List ℕ → Bool
same_text [] [] = true
same_text (x ∷ s) (y ∷ t) = x == y && same_text s t
same_text s t = false

unfoldable pub same_name : TzName → TzName → Bool
same_name (utc_hours h) (utc_hours k) = eqb_ℤ h k
same_name (region s) (region t) = same_text s t
same_name m n = false

pub record TzTable : Type 0 where
  pub start_year : ℤ
  pub tz_name : TzName
  pub dst : List UtcPeriod
  pub dt : List UtcTimespan

-- The table without summer time, `tz_table(utctimespan)`: its name has the whole hours of the offset.
abbrev pub no_dst : UtcTimespan → TzTable
no_dst dt = record {
  start_year = pos 0;
  tz_name = utc_hours (to_int (quot_ℤ dt (pos 3600)));
  dst = [];
  dt = [];
}

-- The table over the years from `start_year` on, `n` of them, with what the zone provides.
abbrev pub table_rows {ℓ} : {A : Type ℓ} → (ℤ → A) → ℤ → ℕ → List A
table_rows provided year zero = []
table_rows provided year (suc n) = provided year ∷ table_rows provided (year +ℤ pos 1) n

unfoldable pub make_table :
    (ℤ → UtcTime) → (ℤ → UtcTime) → (ℤ → UtcTimespan) → TzName → ℤ → ℕ → TzTable
make_table start end offset name start_year n_years = record {
  start_year = start_year;
  tz_name = name;
  dst = table_rows (λ y. record { start = start y; end = end y }) start_year n_years;
  dt = table_rows offset start_year n_years;
}

unfoldable pub has_dst : TzTable → Bool
has_dst tz = ltb 0 (length tz.dst)

-- s<e ? (t>=s && t<e) : (t<e || t>=s): a zone of the south has its summer over the new year.
unfoldable pub in_summer : UtcPeriod → UtcTime → Bool
in_summer p t =
    if ltb_ℤ p.start p.end
    then leb_ℤ p.start t && ltb_ℤ t p.end
    else ltb_ℤ t p.end || leb_ℤ p.start t

-- An index outside of a vector is undefined behaviour.
unfoldable pub at {ℓ} : {A : Type ℓ} → List A → ℤ → Outcome A
at xs (pos i) = elim (get_elem? xs i) [ none ↦ undefined | some x ↦ ok x ]
at xs (negsuc i) = undefined

unfoldable pub dst_offset : TzTable → UtcTime → Outcome UtcTimespan
dst_offset tz t =
    if not (has_dst tz)
    then ok (pos 0)
    else (utc_year t >>= λ year.
        let row = year -ℤ tz.start_year in
        if leb_ℤ (pos (length tz.dst)) row
        then ok (pos 0)
        else (at tz.dst row >>= λ p. if in_summer p t then at tz.dt row else ok (pos 0)))

pub record TzInfo : Type 0 where
  pub base_tz : UtcTimespan
  pub tz : TzTable

-- The zone of a fixed offset, `tz_info(base_tz)`.
abbrev pub fixed_zone : UtcTimespan → TzInfo
fixed_zone base = record { base_tz = base; tz = no_dst base }

unfoldable pub utc_offset : TzInfo → UtcTime → Outcome UtcTimespan
utc_offset z t = dst_offset z.tz t >>= λ summer. ok (z.base_tz +ℤ summer)

-- `is_dst` of the zone
unfoldable pub is_dst : TzInfo → UtcTime → Outcome Bool
is_dst z t = dst_offset z.tz t >>= λ summer. ok (not (eqb_ℤ summer (pos 0)))
