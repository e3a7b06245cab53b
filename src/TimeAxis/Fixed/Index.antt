-- ===== src/TimeAxis/Fixed/Index.antt =====
-- `index_of` of `fixed_dt` against the periods of the axis.
use shyft.Prelude.{ℕ, ◌+◌, ◌*◌, ◌/◌, ◌≤◌, ◌<◌, ◌≡◌, ◌↔◌, true, false, some, arith}
use shyft.Prelude.Tests.{ltb, ◌==◌}
use shyft.Prelude.Int.{◌≤ℤ◌, ◌<ℤ◌, +ℤ_parts, -ℤ_parts, pos, pos_part, ◌-ℤ◌, ltb_ℤ}
use shyft.Utc.{UtcTime}
use shyft.TimeAxis.Fixed.{FixedDt, time_at, index_of}

div-eq : (x d i : ℕ) → i * d ≤ x → x < (i + 1) * d → x / d ≡ i
div-eq x d i h k = grind arith

-- The offset of a time from the start of the axis.
offset_parts :
    (a : FixedDt) (tx : UtcTime) (i : ℕ)
    → time_at a i ≤ℤ tx
    → tx <ℤ time_at a (i + 1)
    → (i * a.dt ≤ pos_part (tx -ℤ a.t))
      × (pos_part (tx -ℤ a.t) < (i + 1) * a.dt)
      × (ltb_ℤ tx a.t ≡ false)
unfolding time_at
offset_parts a tx i h k =
    ground
      (arith, +ℤ_parts a.t (pos (i * a.dt)), +ℤ_parts a.t (pos ((i + 1) * a.dt)), -ℤ_parts tx a.t)

-- With a step above 0, `index_of` is the index `i` exactly if `i` is one of the periods
-- of the axis and that period holds the time: it finds the one period of the axis that holds the time.
pub index_of_iff :
    (a : FixedDt) (tx : UtcTime) (i : ℕ)
    → 0 < a.dt
    → (index_of a tx ≡ some i) ↔ ((i < a.n) × (time_at a i ≤ℤ tx) × (tx <ℤ time_at a (i + 1)))
unfolding index_of time_at
index_of_iff a tx i p = (
  λ h. grind (arith, +ℤ_parts, -ℤ_parts),
  λ h.
      let (low, high, after) = offset_parts a tx i h.1 h.2 in
      let quotient : pos_part (tx -ℤ a.t) / a.dt ≡ i = div-eq _ a.dt i low high in
      let some_dt : (a.dt == 0) ≡ false = ground arith in
      let inside : ltb i a.n ≡ true = ground (arith, h.0) in rw (after, some_dt, quotient, inside),
)
