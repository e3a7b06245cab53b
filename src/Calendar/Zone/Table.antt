-- ===== src/Calendar/Zone/Table.antt =====
-- The offset of summer time, inside and outside of the years of the table.
use shyft.Prelude.{
  ℕ, zero, suc, ◌≤◌, ◌<◌, ◌≡◌, ◌⊎◌, inl, inr, refl, ◌∙◌, arith, true, false, some, List, [], ◌∷◌,
}
use shyft.Prelude.Tests.{Bool-cases, if◌then◌else◌}
use shyft.Prelude.Lists.{length, get_elem?}
use shyft.Prelude.Int.{ℤ, pos, negsuc, pos_part, neg_part, ◌-ℤ◌, ◌<ℤ◌, ◌≤ℤ◌, leb_ℤ, -ℤ_parts}
use shyft.Prelude.Outcome.{ok, undefined, ◌>>=◌}
use shyft.Utc.{UtcTime, UtcTimespan, UtcPeriod}
use shyft.Calendar.Zone.{TzTable, dst_offset, utc_year, has_dst, in_summer, at}

at-some {ℓ} :
    {A : Type ℓ} (xs : List A) (i : ℕ) → i < length xs → (x : A) × (get_elem? xs i ≡ some x)
at-some [] i h = absurd (omega (arith, h))
at-some (x ∷ xs) zero h = (x, refl)
at-some (x ∷ xs) (suc i) h = at-some xs i (omega (arith, h))

module _ (tz : TzTable) (t : UtcTime) (year : ℤ) (some_years : 0 < length tz.dst)
    (in_year : utc_year t ≡ ok year) where
  has_table : has_dst tz ≡ true
  unfolding has_dst
  has_table = ground (arith, some_years)

  -- The row of the year decides.
  by_row :
      (row : ℤ)
      → year -ℤ tz.start_year ≡ row
      → dst_offset tz t ≡ (
          if leb_ℤ (pos (length tz.dst)) row
          then ok (pos 0)
          else (at tz.dst row >>= λ p. if in_summer p t then at tz.dt row else ok (pos 0)))
  unfolding dst_offset
  by_row row e = rw (has_table, in_year, e) refl

  -- A zone with summer time reads outside of its table for every time in a year before the first of
  -- the table.
  pub dst_offset-before_table : year <ℤ tz.start_year → dst_offset tz t ≡ undefined
  unfolding at
  dst_offset-before_table early =
      let (i, e) =
        negative (year -ℤ tz.start_year) (omega (arith, early, -ℤ_parts year tz.start_year)) in
      by_row (negsuc i) e ∙ rw (below (length tz.dst) i) refl
    where
      negative : (a : ℤ) → pos_part a < neg_part a → (i : ℕ) × (a ≡ negsuc i)
      negative (pos i) h = absurd (omega (arith, h))
      negative (negsuc i) h = (i, refl)

      below : (n i : ℕ) → leb_ℤ (pos n) (negsuc i) ≡ false
      below n i = ground arith

  -- An offset of the table, or none.
  abbrev pub IsTableOffset : Type 0
  IsTableOffset =
      (o : UtcTimespan) × (dst_offset tz t ≡ ok o)
      × ((o ≡ pos 0) ⊎ ((i : ℕ) × (get_elem? tz.dt i ≡ some o)))

  in_table :
      (i : ℕ) (p : UtcPeriod) (o : UtcTimespan)
      → year -ℤ tz.start_year ≡ pos i
      → leb_ℤ (pos (length tz.dst)) (pos i) ≡ false
      → get_elem? tz.dst i ≡ some p
      → get_elem? tz.dt i ≡ some o
      → IsTableOffset
  unfolding at
  in_table i p o e within row offset = elim (Bool-cases (in_summer p t)) [
    | inl summer ↦
        (o, by_row (pos i) e ∙ rw (within, row, at, summer, offset, at) refl, inr (i, offset))
    | inr winter ↦ (pos 0, by_row (pos i) e ∙ rw (within, row, at, winter) refl, inl refl)
  ]

  at_row : length tz.dt ≡ length tz.dst → (i : ℕ) → year -ℤ tz.start_year ≡ pos i → IsTableOffset
  at_row paired i e = elim (Bool-cases (leb_ℤ (pos (length tz.dst)) (pos i))) [
    | inl past ↦ (pos 0, by_row (pos i) e ∙ rw past refl, inl refl)
    | inr within ↦
        let (p, row) = at-some tz.dst i (ground (arith, within)) in
        let (o, offset) = at-some tz.dt i (ground (arith, within, paired)) in
        in_table i p o e within row offset
  ]

  -- From the first year of the table on the offset is defined: it is 0 or an offset of the table,
  -- which has one for each of its years.
  pub dst_offset-from_table : length tz.dt ≡ length tz.dst → tz.start_year ≤ℤ year → IsTableOffset
  dst_offset-from_table paired late =
      let (i, e) =
        positive (year -ℤ tz.start_year) (omega (arith, late, -ℤ_parts year tz.start_year)) in
      at_row paired i e
    where
      positive : (a : ℤ) → neg_part a ≤ pos_part a → (i : ℕ) × (a ≡ pos i)
      positive (pos i) h = (i, refl)
      positive (negsuc i) h = absurd (omega (arith, h))
