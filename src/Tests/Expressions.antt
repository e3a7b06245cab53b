-- ===== src/Tests/Expressions.antt =====
-- Expressions at concrete inputs, with natural numbers for the values and for the identifiers.
use shyft.Prelude.{
  ℕ, zero, suc, ◌+◌, ◌-◌, ◌*◌, ◌/◌, ◌≡◌, ◌↔◌, ◌||◌, refl, arith, true, false, Option, some, none,
  List, [], ◌∷◌,
}
use shyft.Prelude.Tests.{ltb, ◌==◌, if◌then◌else◌}
use shyft.Prelude.Lists.{All}
use shyft.Prelude.Outcome.{ok, undefined}
use shyft.Expressions.Tree.{
  Ts, empty, gpoint_ts, aref_ts, average_ts, qac_ts, convolve_w_ts, abin_op_ts, abin_op_scalar_ts,
  rating_curve_ts, op_add, op_sub, op_max, op_min, sts, is_set, needs_bind, time_axis,
  point_interpretation, read_child, bind_check, do_bind, find_ts_bind_info,
}
use shyft.Expressions.Binding.{IsBound, AllBound, IsResolved, bind, bind_found}
use shyft.Expressions.Operators.Ordered.{IsComparable, abin_op_scalar_values-each_iff}
use shyft.Expressions.Binding.Found.{bind_found-IsBound}
use shyft.Expressions.Operators.{
  Floats, do_op, aligned_values, abin_op_scalar_values, abin_op_values_scalar, scalar_op_in_place,
}
use shyft.Expressions.Operators.Pointwise.{
  IsCommutative, pointwise, each, aligned_values-pointwise, abin_op_values_scalar-each,
  abin_op_scalar_values-each,
}

abbrev Series : Type 0
Series = Ts (List ℕ) ℕ ℕ (Unit {0}) (Unit {0})

-- average(ts 1 + 2 * ts 2), and a rating curve of ts 1
abbrev sum : Series
sum =
    abin_op_ts false
      (average_ts tt (
        abin_op_ts false (aref_ts 1 none) op_add
          (abin_op_scalar_ts false 2 op_sub (aref_ts 2 none))))
      op_max (rating_curve_ts tt false (aref_ts 1 none))

abbrev read : ℕ → Option (List ℕ)
read zero = none
read (suc zero) = some (3 ∷ 4 ∷ [])
read (suc (suc n)) = some (5 ∷ 6 ∷ [])

program : Unit {0}
unfolding sts is_set needs_bind time_axis point_interpretation read_child bind_check do_bind
    find_ts_bind_info bind bind_found
program = tt

found : find_ts_bind_info sum ≡ 1 ∷ 2 ∷ 1 ∷ []
unfolding program
found = refl

found-IsResolved : IsResolved read (find_ts_bind_info sum)
unfolding program
found-IsResolved = ((3 ∷ 4 ∷ [], refl), ((5 ∷ 6 ∷ [], refl), ((3 ∷ 4 ∷ [], refl), tt)))

sum-IsBound : (t : Series) × (do_bind (bind_found read sum) ≡ ok t) × IsBound t
sum-IsBound = bind_found-IsBound read sum ((tt, tt), (refl, tt)) found-IsResolved

-- A reference below a quality control needs to be bound, and the search does not see it.
abbrev hidden : Series
hidden = qac_ts tt (aref_ts 1 none) empty

hidden_reference : (needs_bind hidden ≡ ok true) × (find_ts_bind_info hidden ≡ [])
unfolding program
hidden_reference = (refl, refl)

-- Neither does it see one below a convolution, whose `do_bind` then reads an unbound reference.
hidden_in_convolution :
    (find_ts_bind_info {R = List ℕ} {I = ℕ} {D = ℕ} {A = Unit {0}} {P = Unit {0}}
        (convolve_w_ts tt false (aref_ts 1 none))
      ≡ [])
    × (do_bind {R = List ℕ} {I = ℕ} {D = ℕ} {A = Unit {0}} {P = Unit {0}}
          (convolve_w_ts tt false (aref_ts 1 none))
        ≡ undefined)
unfolding program
hidden_in_convolution = (refl, refl)

abbrev floats : Floats ℕ
floats = record {
  plus = λ a b. a + b;
  minus = λ a b. a - b;
  times = λ a b. a * b;
  divide = λ a b. a / b;
  less = λ a b. ltb a b;
  nan = 0;
}

floats-IsCommutative : IsCommutative floats
floats-IsCommutative = record { plus_comm = λ a b. omega arith; times_comm = λ a b. grind arith }

aligned_values-pointwise_example :
    aligned_values floats (some (7 ∷ 8 ∷ [])) (ok (7 ∷ 8 ∷ [])) op_sub none (ok (2 ∷ 3 ∷ []))
    ≡ pointwise floats (7 ∷ 8 ∷ []) op_sub (2 ∷ 3 ∷ [])
aligned_values-pointwise_example =
    aligned_values-pointwise floats floats-IsCommutative (some (7 ∷ 8 ∷ [])) none (7 ∷ 8 ∷ [])
      (2 ∷ 3 ∷ []) op_sub refl tt (λ same. cc same) refl

number_on_the_right :
    abin_op_values_scalar floats (ok tt) none (ok (7 ∷ 8 ∷ [])) op_sub 3
    ≡ each floats (λ v. do_op floats v op_sub 3) (7 ∷ 8 ∷ [])
number_on_the_right =
    abin_op_values_scalar-each floats none (7 ∷ 8 ∷ []) op_sub 3 tt (λ same. cc same)

number_with_each :
    abin_op_scalar_values floats (ok tt) 9 op_max none (ok (7 ∷ 8 ∷ []))
    ≡ each floats (λ v. do_op floats 9 op_max v) (7 ∷ 8 ∷ [])
number_with_each =
    abin_op_scalar_values-each floats floats-IsCommutative 9 op_max none (7 ∷ 8 ∷ []) tt
      (λ same. cc same) ((refl, refl), ((refl, refl), tt))

abin_op_scalar_values-each_iff_example :
    ((abin_op_scalar_values floats (ok tt) 8 op_max none (ok (7 ∷ 8 ∷ []))
        ≡ each floats (λ v. do_op floats 8 op_max v) (7 ∷ 8 ∷ []))
      ↔ All (IsComparable floats 8) (7 ∷ 8 ∷ []))
    × ((abin_op_scalar_values floats (ok tt) 8 op_min none (ok (7 ∷ 8 ∷ []))
          ≡ each floats (λ v. do_op floats 8 op_min v) (7 ∷ 8 ∷ []))
        ↔ All (IsComparable floats 8) (7 ∷ 8 ∷ []))
abin_op_scalar_values-each_iff_example =
    abin_op_scalar_values-each_iff floats 8 none (7 ∷ 8 ∷ []) tt

-- 7 stands for a nan, with which no number is ordered.
abbrev with_nan : Floats ℕ
with_nan = record floats { less = λ a b. if a == 7 || b == 7 then false else floats.less a b }

max_of_nan :
    (abin_op_scalar_values with_nan (ok tt) 9 op_max none (ok (7 ∷ 10 ∷ [])) ≡ ok (7 ∷ 10 ∷ []))
    × (each with_nan (λ v. do_op with_nan 9 op_max v) (7 ∷ 10 ∷ []) ≡ ok (9 ∷ 10 ∷ []))
unfolding abin_op_scalar_values scalar_op_in_place do_op
max_of_nan = (refl, refl)

-- A node that is not bound, below one that does not ask: the whole is not bound.
abbrev unbound_below : Series
unbound_below = average_ts tt (abin_op_ts false (gpoint_ts (1 ∷ [])) op_add (gpoint_ts (2 ∷ [])))

unbound_below-AllBound : ¬ AllBound unbound_below
unfolding bind_check
unbound_below-AllBound bound = cc bound.0
