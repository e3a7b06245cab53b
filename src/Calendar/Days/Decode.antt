-- ===== src/Calendar/Days/Decode.antt =====
-- The arithmetic of `from_day_number`: it undoes that of `day_number`.
use shyft.Prelude.{
  ℕ, ◌+◌, ◌-◌, ◌*◌, ◌/◌, ◌%◌, ◌≤◌, ◌<◌, ◌≡◌, ◌⊎◌, inl, inr, ap, ◌∙◌, refl, ◌^◌, true, arith,
}
use shyft.Prelude.Tests.{ltb}
use shyft.Prelude.Int.{pos, ◌-ℤ◌}
use shyft.Calendar.Days.{from_day_number, make_ymd, to_u16}

-- Year `100 * c + r` from March on, and `f` days into it. Only a year before a leap day has 366.
century :
    (c r f : ℕ)
    → r < 100
    → f ≤ 365
    → ((f ≤ 364) ⊎ ((r % 4 ≡ 3) × ((r < 99) ⊎ (c % 4 ≡ 3))))
    → (4 * (36524 * c + c / 4 + 365 * r + r / 4 + f) + 3) / 146097 ≡ c
century c r f h k l = ground arith

year_of_century :
    (r f : ℕ)
    → r < 100
    → f ≤ 365
    → ((f ≤ 364) ⊎ (r % 4 ≡ 3))
    → (4 * (365 * r + r / 4 + f) + 3) / 1461 ≡ r
year_of_century r f h k l = ground arith

-- The months that have 31 days, counted from March.
abbrev pub IsLong : ℕ → Type 0
IsLong m = (m ≡ 0) ⊎ (m ≡ 2) ⊎ (m ≡ 4) ⊎ (m ≡ 5) ⊎ (m ≡ 7) ⊎ (m ≡ 9) ⊎ (m ≡ 10)

month_of_year :
    (m d : ℕ)
    → m < 12
    → d < 31
    → ((d < 30) ⊎ IsLong m)
    → (5 * ((153 * m + 2) / 5 + d) + 2) / 153 ≡ m
month_of_year m d h k l = ground arith

-- The day of the year in the terms of a month and a day in it.
abbrev pub year_day : ℕ → ℕ → ℕ
year_day m d = (153 * m + 2) / 5 + d

-- The days before the year `100 * c + r`.
abbrev pub days_before : ℕ → ℕ → ℕ
days_before c r = 36524 * c + c / 4 + 365 * r + r / 4

-- The first of March is day 0, and a day 29 of February needs a leap year.
pub record IsDay (c r m d : ℕ) : Type 0 where
  pub r_in : r < 100
  pub m_in : m < 12
  pub d_in : d < 31
  pub long : (d < 30) ⊎ IsLong m
  pub in_year : year_day m d ≤ 365
  pub leap : (year_day m d ≤ 364) ⊎ ((r % 4 ≡ 3) × ((r < 99) ⊎ (c % 4 ≡ 3)))

pub from_day_number-parts :
    (n c r m d : ℕ)
    → IsDay c r m d
    → n + 32044 ≡ days_before c r + year_day m d
    → n < 2 ^ 29 - 32044
    → from_day_number n
      ≡ make_ymd
          (pos (to_u16 (pos (100 * c + r + m / 10) -ℤ pos 4800)))
          (m + 3 - 12 * (m / 10))
          (d + 1)
          0
          0
          0
unfolding from_day_number
from_day_number-parts n c r m d D e small =
    let f = year_day m d in
    let in_range : ltb n (2 ^ 29 - 32044) ≡ true = ground (arith, small) in
    let b_is : (4 * (n + 32044) + 3) / 146097 ≡ c =
      ap (λ (k : ℕ). (4 * k + 3) / 146097) e ∙ century c r f D.r_in D.in_year D.leap in
    let c_is : n + 32044 - 146097 * c / 4 ≡ 365 * r + r / 4 + f = omega (arith, e) in
    let d_is : (4 * (365 * r + r / 4 + f) + 3) / 1461 ≡ r =
      year_of_century r f D.r_in D.in_year (leap_r D.leap) in
    let e_is : 365 * r + r / 4 + f - 1461 * r / 4 ≡ f = omega arith in
    let m_is = month_of_year m d D.m_in D.d_in D.long in
    let f_is : f - (153 * m + 2) / 5 ≡ d = omega arith in
    rw (in_range, b_is, c_is, d_is, e_is, m_is, f_is) refl
  where
    leap_r :
        (year_day m d ≤ 364) ⊎ ((r % 4 ≡ 3) × ((r < 99) ⊎ (c % 4 ≡ 3)))
        → (year_day m d ≤ 364) ⊎ (r % 4 ≡ 3)
    leap_r (inl h) = inl h
    leap_r (inr h) = inr h.0
