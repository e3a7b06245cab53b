-- ===== src/Database/Zones.antt =====
-- The zones of whole hours are found by their names.
use shyft.Prelude.{
  ℕ, zero, suc, ◌≡◌, refl, sym, ap, ◌∙◌, arith, inl, inr, true, false, some, List, ◌∷◌,
}
use shyft.Prelude.Tests.{Bool-cases}
use shyft.Prelude.Int.{
  ℤ, pos, negsuc, ◌≤ℤ◌, ◌<ℤ◌, ◌+ℤ◌, ◌*ℤ◌, eqb_ℤ, quot_ℤ, div_ℤ, to_int, eq_of_parts, +ℤ_parts,
}
use shyft.Prelude.Outcome.{ok}
use shyft.Calendar.Zone.{TzName, TzInfo, fixed_zone, utc_hours, same_name}
use shyft.Database.{Regions, make_calendar_lookups, find_calendar, lookup_calendar}

-- The name of the zone of `h` hours has the number `h`.
whole_hours :
    (h : ℤ) → negsuc 10 ≤ℤ h → h ≤ℤ pos 11 → to_int (quot_ℤ (h *ℤ pos 3600) (pos 3600)) ≡ h
unfolding to_int quot_ℤ div_ℤ ◌*ℤ◌
whole_hours (pos h) low high = ground (arith, low, high)
whole_hours (negsuc h) low high = ground (arith, low, high)

same_hours : (h k : ℤ) → same_name (utc_hours h) (utc_hours k) ≡ eqb_ℤ h k
unfolding same_name
same_hours h k = refl

find_calendar-first :
    (name : TzName) (z : TzInfo) (calendars : List TzInfo)
    → same_name z.tz.tz_name name ≡ true
    → find_calendar name (z ∷ calendars) ≡ some z
unfolding find_calendar
find_calendar-first name z calendars same = rw same refl

find_calendar-next :
    (name : TzName) (z : TzInfo) (calendars : List TzInfo)
    → same_name z.tz.tz_name name ≡ false
    → find_calendar name (z ∷ calendars) ≡ find_calendar name calendars
unfolding find_calendar
find_calendar-next name z calendars other = rw other refl

lookup_calendar-found :
    (tzdef : Regions) (name : TzName) (z : TzInfo)
    → find_calendar name (make_calendar_lookups (negsuc 10) 23) ≡ some z
    → lookup_calendar tzdef name ≡ ok z
unfolding lookup_calendar find_calendar make_calendar_lookups same_name
lookup_calendar-found tzdef name z found = rw found refl

find_calendar-hour :
    (h start : ℤ) (n : ℕ)
    → negsuc 10 ≤ℤ start
    → start +ℤ pos n ≤ℤ pos 12
    → start ≤ℤ h
    → h <ℤ start +ℤ pos n
    → find_calendar (utc_hours h) (make_calendar_lookups start n)
      ≡ some (fixed_zone (h *ℤ pos 3600))
unfolding make_calendar_lookups
find_calendar-hour h start zero low high from to =
    absurd (omega (arith, +ℤ_parts start (pos 0), from, to))
find_calendar-hour h start (suc n) low high from to =
    let bound : start ≤ℤ pos 11 = omega (arith, +ℤ_parts start (pos (suc n)), high) in
    let named : same_name (fixed_zone (start *ℤ pos 3600)).tz.tz_name (utc_hours h)
        ≡ eqb_ℤ start h =
      ap (λ k. same_name (utc_hours k) (utc_hours h)) (whole_hours start low bound)
      ∙ same_hours start h in
    let hour = fixed_zone (start *ℤ pos 3600) in
    let later = make_calendar_lookups (start +ℤ pos 1) n in
    elim (Bool-cases (eqb_ℤ start h)) [
      | inl same ↦
          let equal : h ≡ start = eq_of_parts h start (ground (arith, same)) in
          find_calendar-first (utc_hours h) hour later (named ∙ same)
          ∙ ap (λ k. some (fixed_zone (k *ℤ pos 3600))) (sym equal)
      | inr other ↦
          let one_on = +ℤ_parts start (pos 1) in
          find_calendar-next (utc_hours h) hour later (named ∙ other)
          ∙ find_calendar-hour h (start +ℤ pos 1) n (omega (arith, low, one_on))
              (omega (
                arith,
                high,
                one_on,
                +ℤ_parts start (pos (suc n)),
                +ℤ_parts (start +ℤ pos 1) (pos n),
              ))
              (ground (arith, other, from, one_on))
              (omega (
                arith,
                to,
                one_on,
                +ℤ_parts start (pos (suc n)),
                +ℤ_parts (start +ℤ pos 1) (pos n),
              ))
    ]

-- The zone of a whole number of hours, from -11 to 11, is the one that the lookup of its name gives.
pub lookup_calendar-whole_hours :
    (tzdef : Regions) (h : ℤ)
    → negsuc 10 ≤ℤ h
    → h ≤ℤ pos 11
    → lookup_calendar tzdef (fixed_zone (h *ℤ pos 3600)).tz.tz_name
      ≡ ok (fixed_zone (h *ℤ pos 3600))
lookup_calendar-whole_hours tzdef h low high =
    let found : find_calendar (fixed_zone (h *ℤ pos 3600)).tz.tz_name
          (make_calendar_lookups (negsuc 10) 23)
        ≡ some (fixed_zone (h *ℤ pos 3600)) =
      ap (λ k. find_calendar (utc_hours k) (make_calendar_lookups (negsuc 10) 23))
        (whole_hours h low high)
      ∙ find_calendar-hour h (negsuc 10) 23 (omega arith) limit low up in
    lookup_calendar-found tzdef (fixed_zone (h *ℤ pos 3600)).tz.tz_name (fixed_zone (h *ℤ pos 3600))
      found
  where
    limit : negsuc 10 +ℤ pos 23 ≤ℤ pos 12
    limit = omega (arith, +ℤ_parts (negsuc 10) (pos 23))

    up : h <ℤ negsuc 10 +ℤ pos 23
    up = omega (arith, +ℤ_parts (negsuc 10) (pos 23), high)
