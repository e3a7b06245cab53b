-- ===== src/Calendar/Steps/Fixed.antt =====
-- The zones of a fixed offset: steps of any length that is no calendar unit.
use native.Mathlib.Omega.{div_any}
use native.Mathlib.Nat.{mod-lt}
use shyft.Prelude.{
  ℕ, ◌+◌, ◌*◌, ◌/◌, ◌%◌, ◌<◌, ◌≡◌, ◌≢◌, inl, inr, refl, sym, ap, ◌∙◌, arith, true, false,
}
use shyft.Prelude.Tests.{Bool-cases}
use shyft.Prelude.Int.{
  ℤ, pos, ◌+ℤ◌, ◌-ℤ◌, ◌*ℤ◌, ltb_ℤ, eqb_ℤ, quot_ℤ, div_ℤ, +ℤ_pos, +ℤ_parts, -ℤ_parts, eq_of_parts,
}
use shyft.Prelude.Outcome.{ok}
use shyft.Utc.{UtcTime, UtcTimespan, no_utctime}
use shyft.Calendar.Zone.{day_length, utc_offset, dst_offset, has_dst, fixed_zone}
use shyft.Calendar.Steps.{
  add, add_span, diff_units, diff_ordered, diff_below_day, diff_from_day, estimate_units,
  hour_length, month_length, quarter_length, year_length,
}

pub utc_offset-fixed_zone :
    (base : UtcTimespan) (t : UtcTime) → utc_offset (fixed_zone base) t ≡ ok base
unfolding utc_offset dst_offset has_dst
utc_offset-fixed_zone base t =
    ap ok (eq_of_parts (base +ℤ pos 0) base (omega (arith, +ℤ_parts base (pos 0))))

-- A step that is neither a month, a quarter nor a year.
pub record IsSpan (k : ℕ) : Type 0 where
  pub positive : 0 < k
  pub no_month : k ≢ month_length
  pub no_quarter : k ≢ quarter_length
  pub no_year : k ≢ year_length

pub pos-eqb : (a b : ℕ) → a ≢ b → eqb_ℤ (pos a) (pos b) ≡ false
pos-eqb a b h = ground (arith, h)

pub *ℤ_pos : (a b : ℕ) → pos a *ℤ pos b ≡ pos (a * b)
unfolding ◌*ℤ◌
*ℤ_pos a b = ground arith

same_difference : (a b : ℤ) → a +ℤ (b -ℤ b) ≡ a
same_difference a b =
    eq_of_parts (a +ℤ (b -ℤ b)) a (omega (arith, -ℤ_parts b b, +ℤ_parts a (b -ℤ b)))

pub add-fixed_zone :
    (base : UtcTimespan) (t : UtcTime) (k : ℕ) (n : ℤ)
    → IsSpan k
    → add (fixed_zone base) t (pos k) n ≡ ok (t +ℤ n *ℤ pos k)
unfolding add add_span
add-fixed_zone base t k n S =
    rw
      (
        pos-eqb k year_length S.no_year,
        pos-eqb k quarter_length S.no_quarter,
        pos-eqb k month_length S.no_month,
        utc_offset-fixed_zone base t,
        utc_offset-fixed_zone base (t +ℤ n *ℤ pos k),
        same_difference (t +ℤ n *ℤ pos k) base,
      )
      refl

module _ (base : UtcTimespan) (t : UtcTime) (d k : ℕ) (S : IsSpan k) where
  quotient : quot_ℤ (t +ℤ pos d -ℤ t) (pos k) ≡ pos (d / k)
  unfolding quot_ℤ div_ℤ
  quotient =
      let whole : t +ℤ pos d -ℤ t ≡ pos d =
        eq_of_parts (t +ℤ pos d -ℤ t) (pos d)
          (omega (arith, +ℤ_parts t (pos d), -ℤ_parts (t +ℤ pos d) t)) in
      rw whole refl

  remainder_of : t +ℤ pos d -ℤ (t +ℤ pos (d / k) *ℤ pos k) ≡ pos (d % k)
  remainder_of = rw (*ℤ_pos (d / k) k) (
      eq_of_parts (t +ℤ pos d -ℤ (t +ℤ pos (d / k * k))) (pos (d % k)) (
        grind (
          arith,
          +ℤ_parts t (pos d),
          +ℤ_parts t (pos (d / k * k)),
          -ℤ_parts (t +ℤ pos d) (t +ℤ pos (d / k * k)),
          div_any d k,
        )))

  -- Whichever way the units are counted, the estimate is exact.
  diff_below_day-fixed_zone :
      diff_below_day (fixed_zone base) t (t +ℤ pos d) (pos k) ≡ ok (pos (d / k), pos (d % k))
  unfolding diff_below_day
  diff_below_day-fixed_zone = elim (Bool-cases (ltb_ℤ (pos hour_length) (pos k))) [
    | inl long ↦
        let same : t +ℤ pos d -ℤ t -ℤ (base -ℤ base) ≡ t +ℤ pos d -ℤ t =
          eq_of_parts (t +ℤ pos d -ℤ t -ℤ (base -ℤ base)) (t +ℤ pos d -ℤ t)
            (omega (arith, -ℤ_parts base base, -ℤ_parts (t +ℤ pos d -ℤ t) (base -ℤ base))) in
        rw
          (
            long,
            utc_offset-fixed_zone base t,
            utc_offset-fixed_zone base (t +ℤ pos d),
            same,
            quotient,
            add-fixed_zone base t k (pos (d / k)) S,
            remainder_of,
          )
          refl
    | inr short ↦ rw (short, quotient, remainder_of) refl
  ]

  estimate_units-span : estimate_units t (t +ℤ pos d) (pos k) ≡ pos (d / k)
  unfolding estimate_units
  estimate_units-span =
      rw
        (
          pos-eqb k month_length S.no_month,
          pos-eqb k quarter_length S.no_quarter,
          pos-eqb k year_length S.no_year,
        )
        quotient

  diff_from_day-fixed_zone :
      diff_from_day (fixed_zone base) t (t +ℤ pos d) (pos k) ≡ ok (pos (d / k), pos (d % k))
  unfolding diff_from_day
  diff_from_day-fixed_zone =
      let whole : d / k * k + d % k ≡ d = grind (arith, div_any d k) in
      let next : (d / k + 1) * k ≡ d / k * k + k = grind arith in
      let rest_in : d % k < k = mod-lt d S.positive in
      let here = +ℤ_parts t (pos (d / k * k)) in
      let there = +ℤ_parts t (pos d) in
      let beyond = +ℤ_parts t (pos ((d / k + 1) * k)) in
      let not_far : ltb_ℤ (t +ℤ pos d) (t +ℤ pos (d / k * k)) ≡ false =
        ground (arith, whole, here, there) in
      let added : add (fixed_zone base) t (pos k) (pos (d / k)) ≡ ok (t +ℤ pos (d / k * k)) =
        add-fixed_zone base t k (pos (d / k)) S ∙ ap (λ a. ok (t +ℤ a)) (*ℤ_pos (d / k) k) in
      let one_more : add (fixed_zone base) t (pos k) (pos (d / k) +ℤ pos 1)
          ≡ ok (t +ℤ pos ((d / k + 1) * k)) =
        add-fixed_zone base t k (pos (d / k) +ℤ pos 1) S
        ∙ ap (λ a. ok (t +ℤ a)) (ap (λ a. a *ℤ pos k) (+ℤ_pos (d / k) 1) ∙ *ℤ_pos (d / k + 1) k) in
      let left : t +ℤ pos d -ℤ (t +ℤ pos (d / k * k)) ≡ pos (d % k) =
        ap (λ a. t +ℤ pos d -ℤ (t +ℤ a)) (sym (*ℤ_pos (d / k) k)) ∙ remainder_of in
      elim (Bool-cases (ltb_ℤ (t +ℤ pos (d / k * k)) (t +ℤ pos d))) [
        | inl short ↦
            let too_much : ltb_ℤ (t +ℤ pos d) (t +ℤ pos ((d / k + 1) * k)) ≡ true =
              ground (arith, beyond, there, whole, next, rest_in) in
            rw (estimate_units-span, added, not_far, short, one_more, too_much, left) refl
        | inr hit ↦
            let none_left : d % k ≡ 0 = ground (arith, hit, whole, here, there) in
            rw (estimate_units-span, added, not_far, hit, none_left) refl
      ]

  -- In a zone of a fixed offset a step that is no month, quarter or year is counted as a division:
  -- from a time to one `d` seconds later there are `d / k` steps of `k` seconds, and `d % k` seconds
  -- remain. Neither time is the missing one.
  pub diff_units-fixed_zone :
      eqb_ℤ t no_utctime ≡ false
      → eqb_ℤ (t +ℤ pos d) no_utctime ≡ false
      → diff_units (fixed_zone base) t (t +ℤ pos d) (pos k) ≡ ok (pos (d / k), pos (d % k))
  unfolding diff_units diff_ordered
  diff_units-fixed_zone valid_1 valid_2 =
      let some_step : eqb_ℤ (pos k) (pos 0) ≡ false = ground (arith, S.positive) in
      let forward : ltb_ℤ (t +ℤ pos d) t ≡ false = ground (arith, +ℤ_parts t (pos d)) in
      let once : pos (d / k) *ℤ pos 1 ≡ pos (d / k) = *ℤ_pos (d / k) 1 ∙ ap pos (omega arith) in
      elim (Bool-cases (ltb_ℤ (pos k) (pos day_length))) [
        | inl short ↦
            rw (valid_1, valid_2, some_step, forward, short, diff_below_day-fixed_zone, once) refl
        | inr long ↦
            rw (valid_1, valid_2, some_step, forward, long, diff_from_day-fixed_zone, once) refl
      ]
