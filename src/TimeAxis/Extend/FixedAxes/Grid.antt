-- ===== src/TimeAxis/Extend/FixedAxes/Grid.antt =====
-- The grid of a fixed axis, and the spans that `extend` keeps.
use shyft.Prelude.{ℕ, zero, suc, ◌-◌, ◌*◌, ◌/◌, ◌<◌, ◌≡◌, ap, ◌∙◌, arith}
use native.Mathlib.Nat.{div-mul-le_self, zero-mul, suc-mul}
use shyft.Prelude.Int.{
  ℤ, pos, negsuc, pos_part, sub_ℕ, ◌+ℤ◌, ◌-ℤ◌, ◌*ℤ◌, ◌≤ℤ◌, div_ℤ, +ℤ_parts, -ℤ_parts, eq_of_parts,
}
use shyft.Utc.{UtcTime}
use shyft.Calendar.Steps.Fixed.{*ℤ_pos}
use shyft.TimeAxis.Extend.FixedAxes.{on_grid}

pub mul-div : (n d : ℕ) → 0 < d → n * d / d ≡ n
mul-div n d h = grind arith

-ℤ-nonpos : (a b : ℤ) → a ≤ℤ b → pos_part (a -ℤ b) ≡ 0
unfolding ◌-ℤ◌
-ℤ-nonpos a b h = ground arith

sub-times : (q d : ℕ) → pos_part (sub_ℕ 0 q *ℤ pos d) ≡ 0
unfolding ◌*ℤ◌
sub-times zero d = ground arith
sub-times (suc q) d = ground arith

div_ℤ-nonpos : (x : ℤ) (d : ℕ) → pos_part x ≡ 0 → pos_part (div_ℤ x d *ℤ pos d) ≡ 0
unfolding div_ℤ
div_ℤ-nonpos (pos n) d h = rw (*ℤ_pos (n / d) d) (omega (arith, div-mul-le_self n d))
div_ℤ-nonpos (negsuc n) d h = sub-times (suc n / d) d

div_ℤ-negative : (m q d : ℕ) → 0 < m → m / d ≡ suc q → div_ℤ (sub_ℕ 0 m) d ≡ negsuc q
unfolding div_ℤ
div_ℤ-negative m q d h e =
    let negative : sub_ℕ 0 m ≡ negsuc (m - 1) = ground arith in
    let back : suc (m - 1) ≡ m = omega arith in rw (negative, back, e) (ground arith)

negsuc-times : (q d : ℕ) → negsuc q *ℤ pos d ≡ sub_ℕ 0 (suc q * d)
unfolding ◌*ℤ◌
negsuc-times q d = ground arith

div_ℤ-back : (n d : ℕ) → 0 < d → div_ℤ (sub_ℕ 0 (n * d)) d *ℤ pos d ≡ sub_ℕ 0 (n * d)
unfolding div_ℤ
div_ℤ-back zero d h =
    rw (zero-mul d) (*ℤ_pos (0 / d) d ∙ ap pos (omega (arith, div-mul-le_self 0 d)))
div_ℤ-back (suc n) d h =
    let positive : 0 < suc n * d = grind (arith, suc-mul) in
    rw (div_ℤ-negative (suc n * d) n d positive (mul-div (suc n) d h)) (negsuc-times n d)

-- A time before the start is taken to a time of the grid that is not after the start.
pub on_grid-le : (start t : UtcTime) (d : ℕ) → t ≤ℤ start → on_grid start t d ≤ℤ start
unfolding on_grid
on_grid-le start t d h = omega (
  arith,
  div_ℤ-nonpos (t -ℤ start) d (-ℤ-nonpos t start h),
  +ℤ_parts start (div_ℤ (t -ℤ start) d *ℤ pos d),
)

-- A time on the grid stays.
pub on_grid_self :
    (start : UtcTime) (n d : ℕ)
    → 0 < d
    → on_grid start (start +ℤ pos (n * d)) d ≡ start +ℤ pos (n * d)
unfolding on_grid div_ℤ
on_grid_self start n d h =
    let offset : start +ℤ pos (n * d) -ℤ start ≡ pos (n * d) =
      eq_of_parts (start +ℤ pos (n * d) -ℤ start) (pos (n * d))
        (omega (arith, +ℤ_parts start (pos (n * d)), -ℤ_parts (start +ℤ pos (n * d)) start)) in
    rw offset (ap (λ z. start +ℤ z) (*ℤ_pos (n * d / d) d ∙ ap (λ k. pos (k * d)) (mul-div n d h)))

-- The start of an axis is on the grid of one that starts a number of steps later.
pub on_grid-back :
    (start : UtcTime) (n d : ℕ) → 0 < d → on_grid (start +ℤ pos (n * d)) start d ≡ start
unfolding on_grid
on_grid-back start n d h =
    let offset : start -ℤ (start +ℤ pos (n * d)) ≡ sub_ℕ 0 (n * d) =
      eq_of_parts (start -ℤ (start +ℤ pos (n * d))) (sub_ℕ 0 (n * d))
        (ground (arith, +ℤ_parts start (pos (n * d)), -ℤ_parts start (start +ℤ pos (n * d)))) in
    rw (offset, div_ℤ-back n d h)
      (eq_of_parts (start +ℤ pos (n * d) +ℤ sub_ℕ 0 (n * d)) start (
        ground
          (arith, +ℤ_parts start (pos (n * d)), +ℤ_parts (start +ℤ pos (n * d)) (sub_ℕ 0 (n * d)))))
