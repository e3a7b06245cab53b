-- ===== src/Calendar/Steps/Spans.antt =====
-- Differences in units, against `add`.
use mathlib.Core.Path.{subst}
use shyft.Prelude.{◌≡◌, inl, inr, sym, ap, ◌∙◌, arith, true, false}
use shyft.Prelude.Tests.{Bool-cases, if◌then◌else◌}
use shyft.Prelude.Int.{
  ℤ, pos, ◌+ℤ◌, ◌-ℤ◌, ◌*ℤ◌, ◌≤ℤ◌, ◌<ℤ◌, ltb_ℤ, eqb_ℤ, quot_ℤ, -ℤ_parts, eq_of_parts,
}
use shyft.Prelude.Outcome.{ok, >>=-eq-ok, ok-injective}
use shyft.Utc.{UtcTime, UtcTimespan, no_utctime}
use shyft.Calendar.Zone.{TzInfo, day_length, utc_offset}
use shyft.Calendar.Steps.{
  add, diff_units, diff_ordered, diff_below_day, diff_from_day, estimate_units, hour_length,
}

-- The remainder is what is left after the units.
abbrev pub IsDifference : TzInfo → UtcTime → UtcTime → UtcTimespan → ℤ × UtcTimespan → Type 0
IsDifference z t1 t2 delta_t d = add z t1 delta_t d.0 ≡ ok (t2 -ℤ d.1)

left_over : (a b : ℤ) → a -ℤ (a -ℤ b) ≡ b
left_over a b = eq_of_parts (a -ℤ (a -ℤ b)) b (omega (arith, -ℤ_parts a b, -ℤ_parts a (a -ℤ b)))

times_one : (a : ℤ) → a *ℤ pos 1 ≡ a
unfolding ◌*ℤ◌
times_one a = ground arith

-- What is left after `n` units is the rest up to the time that `add` gives.
rest_of :
    (z : TzInfo) (t1 t2 t : UtcTime) (delta_t : UtcTimespan) (n : ℤ) (d : ℤ × UtcTimespan)
    → add z t1 delta_t n ≡ ok t
    → ok (n, t2 -ℤ t) ≡ ok d
    → IsDifference z t1 t2 delta_t d
rest_of z t1 t2 t delta_t n d added e =
    subst (λ d. IsDifference z t1 t2 delta_t d) (ok-injective e)
      (added ∙ ap ok (sym (left_over t2 t)))

one_more :
    (z : TzInfo) (t1 t2 t2x t2xx : UtcTime) (delta_t : UtcTimespan) (n : ℤ) (d : ℤ × UtcTimespan)
    → add z t1 delta_t n ≡ ok t2x
    → add z t1 delta_t (n +ℤ pos 1) ≡ ok t2xx
    → ok (if ltb_ℤ t2 t2xx then (n, t2 -ℤ t2x) else (n +ℤ pos 1, t2 -ℤ t2xx)) ≡ ok d
    → IsDifference z t1 t2 delta_t d
one_more z t1 t2 t2x t2xx delta_t n d added more e = elim (Bool-cases (ltb_ℤ t2 t2xx)) [
  | inl far ↦ rest_of z t1 t2 t2x delta_t n d added (rw far at e)
  | inr not_far ↦ rest_of z t1 t2 t2xx delta_t (n +ℤ pos 1) d more (rw not_far at e)
]

diff_from_day-IsDifference :
    (z : TzInfo) (t1 t2 : UtcTime) (delta_t : UtcTimespan) (d : ℤ × UtcTimespan)
    → diff_from_day z t1 t2 delta_t ≡ ok d
    → IsDifference z t1 t2 delta_t d
unfolding diff_from_day
diff_from_day-IsDifference z t1 t2 delta_t d returns =
    let n = estimate_units t1 t2 delta_t in
    let (t2x, added, next) = >>=-eq-ok (add z t1 delta_t n) _ returns in
    elim (Bool-cases (ltb_ℤ t2 t2x)) [
      | inl far ↦
          let (t, less, e) = >>=-eq-ok (add z t1 delta_t (n -ℤ pos 1)) _ (rw far at next) in
          rest_of z t1 t2 t delta_t (n -ℤ pos 1) d less e
      | inr not_far ↦ elim (Bool-cases (ltb_ℤ t2x t2)) [
        | inl short ↦
            let (t, more, e) =
              >>=-eq-ok (add z t1 delta_t (n +ℤ pos 1)) _ (rw (not_far, short) at next) in
            one_more z t1 t2 t2x t delta_t n d added more e
        | inr hit ↦
            let none_left : t2 -ℤ t2x ≡ pos 0 =
              eq_of_parts (t2 -ℤ t2x) (pos 0) (ground (arith, -ℤ_parts t2 t2x, not_far, hit)) in
            let e : ok (n, pos 0) ≡ ok d = rw (not_far, hit) at next in
            rest_of z t1 t2 t2x delta_t n d added (ap (λ r. ok (n, r)) none_left ∙ e)
      ]
    ]

diff_below_day-IsDifference :
    (z : TzInfo) (t1 t2 : UtcTime) (delta_t : UtcTimespan) (d : ℤ × UtcTimespan)
    → pos hour_length <ℤ delta_t
    → diff_below_day z t1 t2 delta_t ≡ ok d
    → IsDifference z t1 t2 delta_t d
unfolding diff_below_day
diff_below_day-IsDifference z t1 t2 delta_t d long returns =
    let over : ltb_ℤ (pos hour_length) delta_t ≡ true = ground (arith, long) in
    let (diff_1, _, next) = >>=-eq-ok (utc_offset z t1) _ (rw over at returns) in
    let (diff_2, _, last) = >>=-eq-ok (utc_offset z t2) _ next in
    let n = quot_ℤ (t2 -ℤ t1 -ℤ (diff_1 -ℤ diff_2)) delta_t in
    let (t, added, e) = >>=-eq-ok (add z t1 delta_t n) _ last in
    rest_of z t1 t2 t delta_t n d added e

diff_ordered-IsDifference :
    (z : TzInfo) (t1 t2 : UtcTime) (delta_t : UtcTimespan) (d : ℤ × UtcTimespan)
    → pos hour_length <ℤ delta_t
    → diff_ordered z t1 t2 delta_t ≡ ok d
    → IsDifference z t1 t2 delta_t d
unfolding diff_ordered
diff_ordered-IsDifference z t1 t2 delta_t d long returns =
    elim (Bool-cases (ltb_ℤ delta_t (pos day_length))) [
      | inl short ↦ diff_below_day-IsDifference z t1 t2 delta_t d long (rw short at returns)
      | inr not_short ↦ diff_from_day-IsDifference z t1 t2 delta_t d (rw not_short at returns)
    ]

-- `diff_units` undoes `add` in every zone, whatever its summer time, for steps above an hour, days,
-- months, quarters and years included: where it returns `n` units and a remainder for two times in
-- order, neither of them missing, `n` units added to the first time leave exactly the remainder.
pub diff_units-add :
    (z : TzInfo) (t1 t2 : UtcTime) (delta_t : UtcTimespan) (n : ℤ) (remainder : UtcTimespan)
    → eqb_ℤ t1 no_utctime ≡ false
    → eqb_ℤ t2 no_utctime ≡ false
    → t1 ≤ℤ t2
    → pos hour_length <ℤ delta_t
    → diff_units z t1 t2 delta_t ≡ ok (n, remainder)
    → add z t1 delta_t n ≡ ok (t2 -ℤ remainder)
unfolding diff_units
diff_units-add z t1 t2 delta_t n remainder valid_1 valid_2 ordered long returns =
    let some_step : eqb_ℤ delta_t (pos 0) ≡ false = ground (arith, long) in
    let forward : ltb_ℤ t2 t1 ≡ false = ground (arith, ordered) in
    let (d, difference, e) =
      >>=-eq-ok (diff_ordered z t1 t2 delta_t) _
        (rw (valid_1, valid_2, some_step, forward) at returns) in
    subst (λ d. IsDifference z t1 t2 delta_t d)
      (ok-injective (ap (λ a. ok (a, d.1)) (sym (times_one d.0)) ∙ e))
      (diff_ordered-IsDifference z t1 t2 delta_t d long difference)
