-- ===== src/Utc/Period.antt =====
-- Periods as sets of times.
use shyft.Prelude.{◌≡◌, ◌↔◌, inl, inr, true, false, arith}
use shyft.Prelude.Tests.{Bool-cases}
use shyft.Prelude.Int.{◌≤ℤ◌, ◌<ℤ◌, ltb_ℤ}
use shyft.Utc.{
  UtcTime, UtcPeriod, hull, is_valid, valid, contains, contains_period, overlaps, intersection,
}

-- A valid period is the half-open interval from its start to its end.
pub contains_iff :
    (p : UtcPeriod) (t : UtcTime)
    → valid p ≡ true
    → (contains p t ≡ true) ↔ ((p.start ≤ℤ t) × (t <ℤ p.end) × (is_valid t ≡ true))
unfolding contains valid
contains_iff p t v = ground arith

module _ (a b : UtcPeriod) (t : UtcTime) (va : valid a ≡ true) (vb : valid b ≡ true) where
  meet-below_left : contains (intersection a b) t ≡ true → contains a t ≡ true
  unfolding intersection contains
  meet-below_left h = elim (Bool-cases (ltb_ℤ a.start b.start)) [
    | inl l ↦ elim (Bool-cases (ltb_ℤ b.end a.end)) [ inl k ↦ ground arith | inr k ↦ ground arith ]
    | inr l ↦ elim (Bool-cases (ltb_ℤ b.end a.end)) [ inl k ↦ ground arith | inr k ↦ ground arith ]
  ]

  meet-below_right : contains (intersection a b) t ≡ true → contains b t ≡ true
  unfolding intersection contains
  meet-below_right h = elim (Bool-cases (ltb_ℤ a.start b.start)) [
    | inl l ↦ elim (Bool-cases (ltb_ℤ b.end a.end)) [ inl k ↦ ground arith | inr k ↦ ground arith ]
    | inr l ↦ elim (Bool-cases (ltb_ℤ b.end a.end)) [ inl k ↦ ground arith | inr k ↦ ground arith ]
  ]

  meet-above : contains a t ≡ true → contains b t ≡ true → contains (intersection a b) t ≡ true
  unfolding intersection contains
  meet-above h k' = elim (Bool-cases (ltb_ℤ a.start b.start)) [
    | inl l ↦ elim (Bool-cases (ltb_ℤ b.end a.end)) [ inl k ↦ ground arith | inr k ↦ ground arith ]
    | inr l ↦ elim (Bool-cases (ltb_ℤ b.end a.end)) [ inl k ↦ ground arith | inr k ↦ ground arith ]
  ]

-- The intersection of two valid periods holds the times that both hold, and no other.
pub contains-intersection_iff :
    (a b : UtcPeriod) (t : UtcTime)
    → valid a ≡ true
    → valid b ≡ true
    → (contains (intersection a b) t ≡ true) ↔ ((contains a t ≡ true) × (contains b t ≡ true))
contains-intersection_iff a b t va vb = (
  λ h. (meet-below_left a b t va vb h, meet-below_right a b t va vb h),
  λ h. meet-above a b t va vb h.0 h.1,
)

pub overlaps_comm : (a b : UtcPeriod) → overlaps a b ≡ overlaps b a
unfolding overlaps
overlaps_comm a b = ground arith

pub contains-of_contains_period :
    (p q : UtcPeriod) (t : UtcTime)
    → contains_period p q ≡ true
    → contains q t ≡ true
    → contains p t ≡ true
unfolding contains contains_period
contains-of_contains_period p q t h k = ground arith

-- Two periods that overlap or touch leave no gap in their hull.
pub contains-hull :
    (a b : UtcPeriod) (t : UtcTime)
    → valid a ≡ true
    → valid b ≡ true
    → a.start ≤ℤ b.end
    → b.start ≤ℤ a.end
    → contains a t ≡ false
    → contains (hull a b) t ≡ contains b t
unfolding contains
contains-hull a b t va vb h k o = elim (Bool-cases (ltb_ℤ b.start a.start)) [
  | inl l ↦ elim (Bool-cases (ltb_ℤ a.end b.end)) [ inl m ↦ ground arith | inr m ↦ ground arith ]
  | inr l ↦ elim (Bool-cases (ltb_ℤ a.end b.end)) [ inl m ↦ ground arith | inr m ↦ ground arith ]
]

-- The hull holds what its first part holds.
pub contains-hull_left :
    (a b : UtcPeriod) (t : UtcTime)
    → valid a ≡ true
    → valid b ≡ true
    → contains a t ≡ true
    → contains (hull a b) t ≡ true
unfolding contains
contains-hull_left a b t va vb o = elim (Bool-cases (ltb_ℤ b.start a.start)) [
  | inl l ↦ elim (Bool-cases (ltb_ℤ a.end b.end)) [ inl m ↦ ground arith | inr m ↦ ground arith ]
  | inr l ↦ elim (Bool-cases (ltb_ℤ a.end b.end)) [ inl m ↦ ground arith | inr m ↦ ground arith ]
]

-- A period that lies in another holds nothing that the other does not.
pub contains-of_within :
    (a b : UtcPeriod) (t : UtcTime)
    → valid a ≡ true
    → valid b ≡ true
    → a.start ≤ℤ b.start
    → b.end ≤ℤ a.end
    → contains a t ≡ false
    → contains b t ≡ false
unfolding contains
contains-of_within a b t va vb h k o = ground arith

-- A time of one period is no time of a later one.
pub contains-of_before :
    (a b : UtcPeriod) (t : UtcTime) → a.end ≤ℤ b.start → contains a t ≡ true → contains b t ≡ false
unfolding contains
contains-of_before a b t h o = ground arith

pub contains_period_wider :
    (a b p : UtcPeriod)
    → valid b ≡ true
    → b.start ≤ℤ a.start
    → a.end ≤ℤ b.end
    → contains_period a p ≡ true
    → contains_period b p ≡ true
unfolding contains_period
contains_period_wider a b p v h k c = ground arith
