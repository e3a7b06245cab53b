-- ===== src/Expressions/Binding.antt =====
-- Binding: `apoint_ts::bind`, and that the references found in a tree are those to bind before
-- `do_bind`.
pub mod Pointers
pub mod Ready
pub mod Found
use shyft.Prelude.{
  ◌≡◌, ◌⊎◌, inl, inr, refl, sym, ap, ◌∙◌, Bool, true, false, not, Option, none, some, List, [], ◌∷◌,
  ◌++◌,
}
use shyft.Prelude.Tests.{Bool-cases, if◌then◌else◌}
use shyft.Prelude.Lists.{All, All-split}
use shyft.Prelude.Outcome.{Outcome, ok, throw, undefined, runtime_error, ◌>>=◌}
use shyft.Expressions.Tree.{
  Ts, empty, gpoint_ts, aref_ts, average_ts, integral_ts, accumulate_ts, time_shift_ts, abs_ts,
  periodic_ts, convolve_w_ts, extend_ts, rating_curve_ts, krls_interpolation_ts, qac_ts,
  aglacier_melt_ts, abin_op_ts, abin_op_scalar_ts, abin_op_ts_scalar, Call, sts, is_set, or_else,
  needs_bind, bind_check, time_axis, point_interpretation, unless_bound, read_child, do_bind,
  find_ts_bind_info,
}

-- `bind` of a reference to a series; `resolve` gives the points of an expression that is bound.
unfoldable pub bind :
    {R I D A P : Type 0}
    → (Ts R I D A P → Outcome R)
    → Ts R I D A P
    → Ts R I D A P
    → Outcome (Ts R I D A P)
bind resolve (aref_ts id rep) (gpoint_ts r) = ok (aref_ts id (some r))
bind resolve (aref_ts id rep) bts = sts bts >>= λ _. needs_bind bts >>= λ unbound.
    if unbound then throw runtime_error else (resolve bts >>= λ r. ok (aref_ts id (some r)))
bind resolve _ bts = throw runtime_error

-- Each of the references has a series.
abbrev pub IsResolved : {R I : Type 0} → (I → Option R) → List I → Type 0
IsResolved {R} lookup ids = All (λ id. (r : R) × (lookup id ≡ some r)) ids

module _ {R I D A P : Type 0} where
  -- The node of `find_ts_bind_info` that has the reference `id`, bound to what `lookup` has for it;
  -- the nodes that it does not visit stay.
  unfoldable pub bind_found : (I → Option R) → Ts R I D A P → Ts R I D A P
  bind_found lookup (aref_ts id rep) =
      aref_ts id (elim (lookup id) [ none ↦ rep | some r ↦ some r ])
  bind_found lookup (average_ts ta t) = average_ts ta (bind_found lookup t)
  bind_found lookup (integral_ts ta t) = integral_ts ta (bind_found lookup t)
  bind_found lookup (accumulate_ts ta t) = accumulate_ts ta (bind_found lookup t)
  bind_found lookup (time_shift_ts p bound t) = time_shift_ts p bound (bind_found lookup t)
  bind_found lookup (abs_ts bound t) = abs_ts bound (bind_found lookup t)
  bind_found lookup (extend_ts p bound l r) =
      extend_ts p bound (bind_found lookup l) (bind_found lookup r)
  bind_found lookup (rating_curve_ts p bound t) = rating_curve_ts p bound (bind_found lookup t)
  bind_found lookup (krls_interpolation_ts p bound t) =
      krls_interpolation_ts p bound (bind_found lookup t)
  bind_found lookup (abin_op_ts bound l op r) =
      abin_op_ts bound (bind_found lookup l) op (bind_found lookup r)
  bind_found lookup (abin_op_scalar_ts bound x op t) =
      abin_op_scalar_ts bound x op (bind_found lookup t)
  bind_found lookup (abin_op_ts_scalar bound t op x) =
      abin_op_ts_scalar bound (bind_found lookup t) op x
  bind_found lookup t = t

  -- Every node of the series is bound, so that no `bind_check` throws however deep it is called; every
  -- reference has its content, and no pointer is null, but for the replacement of `qac_ts`.
  abbrev pub AllBound : Ts R I D A P → Type 0
  AllBound empty = ⊥
  AllBound (gpoint_ts r) = Unit
  AllBound (aref_ts id none) = ⊥
  AllBound (aref_ts id (some r)) = Unit
  AllBound (average_ts ta t) = AllBound t
  AllBound (integral_ts ta t) = AllBound t
  AllBound (accumulate_ts ta t) = AllBound t
  AllBound (time_shift_ts p bound t) = (bind_check bound ≡ ok tt) × AllBound t
  AllBound (abs_ts bound t) = (bind_check bound ≡ ok tt) × AllBound t
  AllBound (periodic_ts p) = Unit
  AllBound (convolve_w_ts p bound t) = (bind_check bound ≡ ok tt) × AllBound t
  AllBound (extend_ts p bound l r) = (bind_check bound ≡ ok tt) × AllBound l × AllBound r
  AllBound (rating_curve_ts p bound t) = (bind_check bound ≡ ok tt) × AllBound t
  AllBound (krls_interpolation_ts p bound t) = (bind_check bound ≡ ok tt) × AllBound t
  AllBound (qac_ts p t c) = AllBound t × ((is_set c ≡ false) ⊎ AllBound c)
  AllBound (aglacier_melt_ts p t c) = AllBound t × AllBound c
  AllBound (abin_op_ts bound l op r) = (bind_check bound ≡ ok tt) × AllBound l × AllBound r
  AllBound (abin_op_scalar_ts bound x op t) = (bind_check bound ≡ ok tt) × AllBound t
  AllBound (abin_op_ts_scalar bound t op x) = (bind_check bound ≡ ok tt) × AllBound t

  -- A series that is bound, in every node of it: it needs no binding, and its axis and its interpretation
  -- can be read.
  pub record IsBound (t : Ts R I D A P) : Type 0 where
    pub bound : needs_bind t ≡ ok false
    pub axis : time_axis t ≡ ok tt
    pub policy : point_interpretation t ≡ ok tt
    pub nodes : AllBound t

  -- A series of which every reference has its content and no pointer is null, but for the
  -- replacement of `qac_ts`; only the binding of its nodes may be left to do.
  abbrev pub IsReady : Ts R I D A P → Type 0
  IsReady empty = ⊥
  IsReady (gpoint_ts r) = Unit
  IsReady (aref_ts id none) = ⊥
  IsReady (aref_ts id (some r)) = Unit
  IsReady (average_ts ta t) = IsReady t
  IsReady (integral_ts ta t) = IsReady t
  IsReady (accumulate_ts ta t) = IsReady t
  IsReady (time_shift_ts p bound t) = IsReady t
  IsReady (abs_ts bound t) = IsReady t
  IsReady (periodic_ts p) = Unit
  IsReady (convolve_w_ts p bound t) = IsReady t
  IsReady (extend_ts p bound l r) = IsReady l × IsReady r
  IsReady (rating_curve_ts p true t) = IsBound t
  IsReady (rating_curve_ts p false t) = IsReady t
  IsReady (krls_interpolation_ts p bound t) = IsReady t
  IsReady (qac_ts p t c) = IsReady t × ((is_set c ≡ false) ⊎ IsReady c)
  IsReady (aglacier_melt_ts p t c) = IsReady t × IsReady c
  IsReady (abin_op_ts bound l op r) = IsReady l × IsReady r
  IsReady (abin_op_scalar_ts bound x op t) = IsReady t
  IsReady (abin_op_ts_scalar bound t op x) = IsReady t

  -- A series in which `find_ts_bind_info` sees every reference without content: below a `qac_ts`, a
  -- `convolve_w_ts` or an `aglacier_melt_ts` it does not look.
  abbrev pub IsCovered : Ts R I D A P → Type 0
  IsCovered empty = ⊥
  IsCovered (gpoint_ts r) = Unit
  IsCovered (aref_ts id rep) = Unit
  IsCovered (average_ts ta t) = IsCovered t
  IsCovered (integral_ts ta t) = IsCovered t
  IsCovered (accumulate_ts ta t) = IsCovered t
  IsCovered (time_shift_ts p bound t) = IsCovered t
  IsCovered (abs_ts bound t) = IsCovered t
  IsCovered (periodic_ts p) = Unit
  IsCovered (convolve_w_ts p bound t) = IsReady t
  IsCovered (extend_ts p bound l r) = IsCovered l × IsCovered r
  IsCovered (rating_curve_ts p bound t) = (bound ≡ false) × IsCovered t
  IsCovered (krls_interpolation_ts p bound t) = IsCovered t
  IsCovered (qac_ts p t c) = IsReady t × ((is_set c ≡ false) ⊎ IsReady c)
  IsCovered (aglacier_melt_ts p t c) = IsReady t × IsReady c
  IsCovered (abin_op_ts bound l op r) = IsCovered l × IsCovered r
  IsCovered (abin_op_scalar_ts bound x op t) = IsCovered t
  IsCovered (abin_op_ts_scalar bound t op x) = IsCovered t
