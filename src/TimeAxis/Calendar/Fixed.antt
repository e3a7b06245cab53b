-- ===== src/TimeAxis/Calendar/Fixed.antt =====
-- In a zone of a fixed offset an axis of calendar steps is one of fixed steps.
use shyft.Prelude.{ℕ, ◌+◌, ◌*◌, ◌/◌, ◌≤◌, ◌<◌, ◌≡◌, inl, inr, refl, ap, ◌∙◌, arith, true, false}
use mathlib.Core.Path.{subst}
use native.Mathlib.Nat.{div-lt_iff_lt-mul, le-div_iff_mul-le}
use shyft.Prelude.Tests.{Bool-cases, ltb, leb, ◌==◌}
use shyft.Prelude.Int.{
  pos, pos_part, ◌+ℤ◌, ◌-ℤ◌, ◌<ℤ◌, ltb_ℤ, eqb_ℤ, +ℤ_parts, -ℤ_parts, eq_of_parts,
}
use shyft.Prelude.Outcome.{ok}
use shyft.Utc.{UtcTime, UtcTimespan, no_utctime, contains, valid}
use shyft.Calendar.Zone.{fixed_zone}
use shyft.Calendar.Steps.Fixed.{IsSpan, *ℤ_pos, add-fixed_zone, diff_units-fixed_zone}
use shyft.TimeAxis.Fixed
use shyft.TimeAxis.Fixed.{FixedDt}
use shyft.TimeAxis.Calendar.{CalendarDt, time_at, total_period, time, period_at, index_of, dt_h}

module _ (base : UtcTimespan) (t : UtcTime) (dt n : ℕ) (S : IsSpan dt) where
  abbrev pub calendar_axis : CalendarDt
  calendar_axis = record { cal = fixed_zone base; t = t; dt = dt; n = n }

  abbrev pub fixed_axis : FixedDt
  fixed_axis = record { t = t; dt = dt; n = n }

  time_at-fixed : (i : ℕ) → time_at calendar_axis i ≡ ok (Fixed.time_at fixed_axis i)
  unfolding time_at Fixed.time_at
  time_at-fixed i = elim (Bool-cases (leb dt dt_h)) [
    | inl short ↦ rw short refl
    | inr long ↦ rw long (add-fixed_zone base t dt (pos i) S ∙ ap (λ a. ok (t +ℤ a)) (*ℤ_pos i dt))
  ]

  total_period-fixed : total_period calendar_axis ≡ ok (Fixed.total_period fixed_axis)
  unfolding total_period Fixed.total_period
  total_period-fixed = elim (Bool-cases (n == 0)) [
    | inl nothing ↦ rw nothing refl
    | inr some_steps ↦ rw (some_steps, time_at-fixed n) refl
  ]

  time-fixed : (i : ℕ) → time calendar_axis i ≡ Fixed.time fixed_axis i
  unfolding time Fixed.time
  time-fixed i = elim (Bool-cases (ltb i n)) [
    | inl inside ↦ rw (inside, time_at-fixed i) refl
    | inr outside ↦ rw outside refl
  ]

  period_at-fixed : (i : ℕ) → period_at calendar_axis i ≡ Fixed.period_at fixed_axis i
  unfolding period_at Fixed.period_at
  period_at-fixed i = elim (Bool-cases (ltb i n)) [
    | inl inside ↦ rw (inside, time_at-fixed i, time_at-fixed (i + 1)) refl
    | inr outside ↦ rw outside refl
  ]

  -- A time `d` seconds after the start lies in the axis if the step that it falls in is one of the
  -- axis.
  contains-late :
      (d : ℕ)
      → no_utctime <ℤ t
      → contains (Fixed.total_period fixed_axis) (t +ℤ pos d) ≡ ltb (d / dt) n
  unfolding Fixed.total_period Fixed.time_at contains valid
  contains-late d after = elim (Bool-cases (ltb (d / dt) n)) [
    | inl inside ↦
        let some_steps : (n == 0) ≡ false = ground (arith, inside) in
        let short : d < n * dt = (div-lt_iff_lt-mul S.positive).0 (ground (arith, inside)) in
        rw (some_steps, inside)
          (ground (arith, short, after, +ℤ_parts t (pos d), +ℤ_parts t (pos (n * dt))))
    | inr outside ↦ elim (Bool-cases (n == 0)) [
      | inl nothing ↦ rw (nothing, outside) (ground (arith, after, +ℤ_parts t (pos d)))
      | inr some_steps ↦
          let long : n * dt ≤ d = (le-div_iff_mul-le S.positive).0 (ground (arith, outside)) in
          rw (some_steps, outside)
            (ground (arith, long, after, +ℤ_parts t (pos d), +ℤ_parts t (pos (n * dt))))
    ]
  ]

  contains-early :
      (tx : UtcTime)
      → no_utctime <ℤ t
      → ltb_ℤ tx t ≡ true
      → contains (Fixed.total_period fixed_axis) tx ≡ false
  unfolding Fixed.total_period Fixed.time_at contains valid
  contains-early tx after early = ground (arith, after, early, +ℤ_parts t (pos (n * dt)))

  index_of-late :
      (d : ℕ)
      → no_utctime <ℤ t
      → index_of calendar_axis (t +ℤ pos d) ≡ ok (Fixed.index_of fixed_axis (t +ℤ pos d))
  unfolding index_of Fixed.index_of
  index_of-late d after =
      let offset : t +ℤ pos d -ℤ t ≡ pos d =
        eq_of_parts (t +ℤ pos d -ℤ t) (pos d)
          (omega (arith, +ℤ_parts t (pos d), -ℤ_parts (t +ℤ pos d) t)) in
      let not_early : ltb_ℤ (t +ℤ pos d) t ≡ false = ground (arith, +ℤ_parts t (pos d)) in
      let some_step : (dt == 0) ≡ false = ground (arith, S.positive) in
      let start_valid : eqb_ℤ t no_utctime ≡ false = ground (arith, after) in
      let time_valid : eqb_ℤ (t +ℤ pos d) no_utctime ≡ false =
        ground (arith, after, +ℤ_parts t (pos d)) in
      elim (Bool-cases (ltb (d / dt) n)) [
        | inr outside ↦
            rw (total_period-fixed, contains-late d after, not_early, some_step, offset, outside)
              refl
        | inl inside ↦ elim (Bool-cases (leb dt dt_h)) [
          | inl short ↦
              rw
                (
                  total_period-fixed,
                  contains-late d after,
                  not_early,
                  some_step,
                  offset,
                  inside,
                  short,
                )
                refl
          | inr long ↦
              rw
                (
                  total_period-fixed,
                  contains-late d after,
                  not_early,
                  some_step,
                  offset,
                  inside,
                  long,
                  diff_units-fixed_zone base t d dt S start_valid time_valid,
                )
                refl
        ]
      ]

  index_of-early :
      (tx : UtcTime)
      → no_utctime <ℤ t
      → ltb_ℤ tx t ≡ true
      → index_of calendar_axis tx ≡ ok (Fixed.index_of fixed_axis tx)
  unfolding index_of Fixed.index_of
  index_of-early tx after early = rw (total_period-fixed, contains-early tx after early, early) refl

  -- In a zone of a fixed offset, with a step that is no month, quarter or year and a start that is
  -- not missing, the total period, the times, the periods and the index of a time of an axis of
  -- calendar steps are those of the axis of fixed steps.
  pub calendar_axis-fixed_axis :
      (i : ℕ) (tx : UtcTime)
      → no_utctime <ℤ t
      → (total_period calendar_axis ≡ ok (Fixed.total_period fixed_axis))
        × (time calendar_axis i ≡ Fixed.time fixed_axis i)
        × (period_at calendar_axis i ≡ Fixed.period_at fixed_axis i)
        × (index_of calendar_axis tx ≡ ok (Fixed.index_of fixed_axis tx))
  calendar_axis-fixed_axis i tx after =
      (total_period-fixed, time-fixed i, period_at-fixed i, same_index)
    where
      same_index : index_of calendar_axis tx ≡ ok (Fixed.index_of fixed_axis tx)
      same_index = elim (Bool-cases (ltb_ℤ tx t)) [
        | inl early ↦ index_of-early tx after early
        | inr late ↦
            let d = pos_part (tx -ℤ t) in
            let tx_is : t +ℤ pos d ≡ tx =
              eq_of_parts (t +ℤ pos d) tx
                (ground (arith, late, +ℤ_parts t (pos d), -ℤ_parts tx t)) in
            subst (λ a. index_of calendar_axis a ≡ ok (Fixed.index_of fixed_axis a)) tx_is
              (index_of-late d after)
      ]
