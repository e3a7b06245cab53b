-- ===== src/Calendar/Steps/Months.antt =====
-- Steps of months and years.
use shyft.Prelude.{ℕ, suc, ◌+◌, ◌*◌, ◌/◌, ◌%◌, ◌^◌, ◌≤◌, ◌<◌, ◌≡◌, inl, inr, sym, arith}
use mathlib.Core.Path.{subst}
use shyft.Prelude.Tests.{Bool-cases}
use shyft.Prelude.Int.{
  ℤ, pos, negsuc, pos_part, neg_part, ◌+ℤ◌, ◌-ℤ◌, ◌*ℤ◌, sub_ℕ, ltb_ℤ, to_int, quot_ℤ, div_ℤ,
  +ℤ_parts, -ℤ_parts,
}
use shyft.Calendar.Days.{YmdHms}
use shyft.Calendar.Steps.{carry_months, add_months, month_length}

-- The months of a count of `n`, as the source divides them: whole years, and a rest with the sign
-- of `n`.
abbrev pub years_of : ℤ → ℤ
years_of n = to_int (quot_ℤ (quot_ℤ (n *ℤ pos month_length) (pos month_length)) (pos 12))

abbrev pub months_of : ℤ → ℤ
months_of n = to_int (n -ℤ years_of n *ℤ pos 12)

to_int-pos : (a : ℕ) → a < 12 → to_int (pos a) ≡ pos a
unfolding to_int
to_int-pos a h = ground (arith, h)

to_int-neg : (a : ℕ) → a < 12 → to_int (sub_ℕ 0 a) ≡ sub_ℕ 0 a
unfolding to_int
to_int-neg a h = ground (arith, h)

years_of-pos : (a : ℕ) → a < 2 ^ 31 → years_of (pos a) ≡ pos (a / 12)
unfolding to_int quot_ℤ div_ℤ ◌*ℤ◌
years_of-pos a h = ground (arith, h)

years_of-negsuc : (a : ℕ) → suc a < 2 ^ 31 → years_of (negsuc a) ≡ sub_ℕ 0 (suc a / 12)
unfolding to_int quot_ℤ div_ℤ ◌*ℤ◌
years_of-negsuc a h = ground (arith, h)

months_of-pos : (a : ℕ) → a < 2 ^ 31 → months_of (pos a) ≡ pos (a % 12)
unfolding ◌*ℤ◌ ◌-ℤ◌
months_of-pos a h =
    let rest : pos a -ℤ pos (a / 12) *ℤ pos 12 ≡ pos (a % 12) = ground arith in
    rw (years_of-pos a h, rest) (to_int-pos (a % 12) (omega arith))

months_of-negsuc : (a : ℕ) → suc a < 2 ^ 31 → months_of (negsuc a) ≡ sub_ℕ 0 (suc a % 12)
unfolding ◌*ℤ◌ ◌-ℤ◌
months_of-negsuc a h =
    let rest : negsuc a -ℤ sub_ℕ 0 (suc a / 12) *ℤ pos 12 ≡ sub_ℕ 0 (suc a % 12) = ground arith in
    rw (years_of-negsuc a h, rest) (to_int-neg (suc a % 12) (omega arith))

-- What a sum of months is to be.
abbrev pub IsMonthSum : YmdHms → ℤ → YmdHms → Type 0
IsMonthSum c n r =
    (12 * pos_part r.year + r.month + 12 * neg_part c.year + neg_part n
      ≡ 12 * pos_part c.year + c.month + pos_part n + 12 * neg_part r.year)
    × (1 ≤ r.month)
    × (r.month ≤ 12)

carry_months_lem :
    (c : YmdHms) (n years months : ℤ)
    → 1 ≤ c.month
    → c.month ≤ 12
    → 12 * pos_part years + pos_part months + neg_part n
      ≡ pos_part n + 12 * neg_part years + neg_part months
    → pos_part months < 12
    → neg_part months < 12
    → IsMonthSum c n (carry_months c years months)
unfolding carry_months
carry_months_lem c n years months low high sum p q =
    let year = c.year +ℤ years in
    let month = pos c.month +ℤ months in
    let month_is = +ℤ_parts (pos c.month) months in
    let year_is = +ℤ_parts c.year years in
    elim (Bool-cases (ltb_ℤ month (pos 1))) [
      | inl under ↦ rw under (
          ground (
            arith,
            under,
            month_is,
            year_is,
            -ℤ_parts year (pos 1),
            +ℤ_parts month (pos 12),
            sum,
            p,
            q,
            low,
            high,
          ))
      | inr not_under ↦ elim (Bool-cases (ltb_ℤ (pos 12) month)) [
        | inl over ↦
            rw (not_under, over)
              (ground (
                arith,
                over,
                month_is,
                year_is,
                +ℤ_parts year (pos 1),
                -ℤ_parts month (pos 12),
                sum,
                p,
                q,
                low,
                high,
              ))
        | inr within ↦
            rw (not_under, within)
              (ground (arith, not_under, within, month_is, year_is, sum, p, q, low, high))
      ]
    ]

add_months-parts :
    (c : YmdHms) (n years months : ℤ)
    → years_of n ≡ years
    → months_of n ≡ months
    → IsMonthSum c n (carry_months c years months)
    → IsMonthSum c n (add_months c n (n *ℤ pos month_length))
unfolding add_months
add_months-parts c n years months y m sum =
    subst (λ a. IsMonthSum c n (carry_months c a (months_of n))) (sym y)
      (subst (λ b. IsMonthSum c n (carry_months c years b)) (sym m) sum)

-- Months add up: twelve to a year, and the month stays one of the twelve.
pub add_months_lem :
    (c : YmdHms) (n : ℤ)
    → 1 ≤ c.month
    → c.month ≤ 12
    → pos_part n < 2 ^ 31
    → neg_part n < 2 ^ 31
    → IsMonthSum c n (add_months c n (n *ℤ pos month_length))
add_months_lem c (pos a) low high h k =
    add_months-parts c (pos a) (pos (a / 12)) (pos (a % 12)) (years_of-pos a h) (months_of-pos a h)
      (carry_months_lem c (pos a) (pos (a / 12)) (pos (a % 12)) low high (omega arith) (omega arith)
        (omega arith))
add_months_lem c (negsuc a) low high h k =
    add_months-parts c (negsuc a) (sub_ℕ 0 (suc a / 12)) (sub_ℕ 0 (suc a % 12))
      (years_of-negsuc a k) (months_of-negsuc a k)
      (carry_months_lem c (negsuc a) (sub_ℕ 0 (suc a / 12)) (sub_ℕ 0 (suc a % 12)) low high
        (ground arith) (ground arith) (ground arith))
