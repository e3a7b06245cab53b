-- ===== src/Utc.antt =====
-- Times and periods, after core/utctime_utilities.h: `utctime`, its three special values, and the
-- members of `utcperiod` with `intersection`. A `utctime` is a signed 64-bit number of seconds,
-- here an integer; nothing in this file does arithmetic on it but `timespan`.
pub mod Period
use shyft.Prelude.{Bool, true, false, not, ◌&&◌, ◌||◌}
use shyft.Prelude.Tests.{if◌then◌else◌}
use shyft.Prelude.Int.{ℤ, pos, negsuc, ◌-ℤ◌, ltb_ℤ, leb_ℤ, eqb_ℤ, min_ℤ, max_ℤ}

abbrev pub UtcTime : Type 0
UtcTime = ℤ

abbrev pub UtcTimespan : Type 0
UtcTimespan = ℤ

abbrev pub max_utctime : UtcTime
max_utctime = pos 0x7FFFFFFFFFFFFFFF

abbrev pub min_utctime : UtcTime
min_utctime = negsuc 0x7FFFFFFFFFFFFFFE

abbrev pub no_utctime : UtcTime
no_utctime = negsuc 0x7FFFFFFFFFFFFFFF

abbrev pub is_valid : UtcTime → Bool
is_valid t = not (eqb_ℤ t no_utctime)

pub record UtcPeriod : Type 0 where
  pub start : UtcTime
  pub end : UtcTime

abbrev pub period : UtcTime → UtcTime → UtcPeriod
period s e = record { start = s; end = e }

-- the default constructor
abbrev pub null_period : UtcPeriod
null_period = period no_utctime no_utctime

unfoldable pub timespan : UtcPeriod → UtcTimespan
timespan p = p.end -ℤ p.start

unfoldable pub valid : UtcPeriod → Bool
valid p = is_valid p.start && is_valid p.end && leb_ℤ p.start p.end

unfoldable pub period_eq : UtcPeriod → UtcPeriod → Bool
period_eq p q = eqb_ℤ p.start q.start && eqb_ℤ p.end q.end

-- `contains(utctime)`
unfoldable pub contains : UtcPeriod → UtcTime → Bool
unfolding valid
contains p t = if is_valid t && valid p then leb_ℤ p.start t && ltb_ℤ t p.end else false

-- `contains(utcperiod)`
unfoldable pub contains_period : UtcPeriod → UtcPeriod → Bool
unfolding valid
contains_period p q = valid p && valid q && leb_ℤ p.start q.start && leb_ℤ q.end p.end

unfoldable pub overlaps : UtcPeriod → UtcPeriod → Bool
overlaps p q = if leb_ℤ p.end q.start || leb_ℤ q.end p.start then false else true

unfoldable pub intersection : UtcPeriod → UtcPeriod → UtcPeriod
intersection a b =
    let t0 = max_ℤ a.start b.start in
    let t1 = min_ℤ a.end b.end in if leb_ℤ t0 t1 then period t0 t1 else null_period

-- From the earlier start to the later end, as `merge` of two time-axes computes it.
abbrev pub hull : UtcPeriod → UtcPeriod → UtcPeriod
hull p q = period (min_ℤ p.start q.start) (max_ℤ p.end q.end)
