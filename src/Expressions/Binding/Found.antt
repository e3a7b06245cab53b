-- ===== src/Expressions/Binding/Found.antt =====
-- The way from the references that are found to a series that is bound.
use shyft.Prelude.{◌≡◌, true, false, Option, none}
use shyft.Prelude.Lists.{All-split}
use shyft.Prelude.Outcome.{ok}
use shyft.Expressions.Tree.{
  Ts, empty, gpoint_ts, aref_ts, average_ts, integral_ts, accumulate_ts, time_shift_ts, abs_ts,
  periodic_ts, convolve_w_ts, extend_ts, rating_curve_ts, krls_interpolation_ts, qac_ts,
  aglacier_melt_ts, abin_op_ts, abin_op_scalar_ts, abin_op_ts_scalar, do_bind, find_ts_bind_info,
}
use shyft.Expressions.Binding.{IsReady, IsBound, IsCovered, IsResolved, bind_found}
use shyft.Expressions.Binding.Ready.{do_bind-IsBound}

module _ {R I D A P : Type 0} where
  pub bind_found-IsReady :
      (lookup : I → Option R) (t : Ts R I D A P)
      → IsCovered t
      → IsResolved lookup (find_ts_bind_info t)
      → IsReady (bind_found lookup t)
  unfolding bind_found find_ts_bind_info
  bind_found-IsReady lookup empty h k = absurd h
  bind_found-IsReady lookup (gpoint_ts r) h k = tt
  bind_found-IsReady lookup (aref_ts id rep) h ((r, e), _) = rw e tt
  bind_found-IsReady lookup (periodic_ts p) h k = tt
  bind_found-IsReady lookup (convolve_w_ts p b t) h k = h
  bind_found-IsReady lookup (qac_ts p t c) h k = h
  bind_found-IsReady lookup (rating_curve_ts p true t) h k = cc h.0
  bind_found-IsReady lookup (rating_curve_ts p false t) h k = bind_found-IsReady lookup t h.1 k
  bind_found-IsReady lookup (average_ts ta t) h k = bind_found-IsReady lookup t h k
  bind_found-IsReady lookup (integral_ts ta t) h k = bind_found-IsReady lookup t h k
  bind_found-IsReady lookup (accumulate_ts ta t) h k = bind_found-IsReady lookup t h k
  bind_found-IsReady lookup (time_shift_ts p b t) h k = bind_found-IsReady lookup t h k
  bind_found-IsReady lookup (abs_ts b t) h k = bind_found-IsReady lookup t h k
  bind_found-IsReady lookup (krls_interpolation_ts p b t) h k = bind_found-IsReady lookup t h k
  bind_found-IsReady lookup (abin_op_scalar_ts b x op t) h k = bind_found-IsReady lookup t h k
  bind_found-IsReady lookup (abin_op_ts_scalar b t op x) h k = bind_found-IsReady lookup t h k
  bind_found-IsReady lookup (extend_ts p b l r) (h, j) k =
      let (m, n) = All-split _ (find_ts_bind_info l) (find_ts_bind_info r) k in
      (bind_found-IsReady lookup l h m, bind_found-IsReady lookup r j n)
  bind_found-IsReady lookup (aglacier_melt_ts p t c) h k = h
  bind_found-IsReady lookup (abin_op_ts b l op r) (h, j) k =
      let (m, n) = All-split _ (find_ts_bind_info l) (find_ts_bind_info r) k in
      (bind_found-IsReady lookup l h m, bind_found-IsReady lookup r j n)

  -- Without references, a covered series has all its contents.
  pub IsCovered-IsReady :
      (t : Ts R I D A P)
      → IsCovered t
      → IsResolved {R = R} (λ _. none) (find_ts_bind_info t)
      → IsReady t
  unfolding find_ts_bind_info
  IsCovered-IsReady empty h k = absurd h
  IsCovered-IsReady (gpoint_ts r) h k = tt
  IsCovered-IsReady (aref_ts id rep) h ((r, e), _) = cc e
  IsCovered-IsReady (periodic_ts p) h k = tt
  IsCovered-IsReady (convolve_w_ts p b t) h k = h
  IsCovered-IsReady (qac_ts p t c) h k = h
  IsCovered-IsReady (rating_curve_ts p true t) h k = cc h.0
  IsCovered-IsReady (rating_curve_ts p false t) h k = IsCovered-IsReady t h.1 k
  IsCovered-IsReady (average_ts ta t) h k = IsCovered-IsReady t h k
  IsCovered-IsReady (integral_ts ta t) h k = IsCovered-IsReady t h k
  IsCovered-IsReady (accumulate_ts ta t) h k = IsCovered-IsReady t h k
  IsCovered-IsReady (time_shift_ts p b t) h k = IsCovered-IsReady t h k
  IsCovered-IsReady (abs_ts b t) h k = IsCovered-IsReady t h k
  IsCovered-IsReady (krls_interpolation_ts p b t) h k = IsCovered-IsReady t h k
  IsCovered-IsReady (abin_op_scalar_ts b x op t) h k = IsCovered-IsReady t h k
  IsCovered-IsReady (abin_op_ts_scalar b t op x) h k = IsCovered-IsReady t h k
  IsCovered-IsReady (extend_ts p b l r) (h, j) k =
      let (m, n) = All-split _ (find_ts_bind_info l) (find_ts_bind_info r) k in
      (IsCovered-IsReady l h m, IsCovered-IsReady r j n)
  IsCovered-IsReady (aglacier_melt_ts p t c) h k = h
  IsCovered-IsReady (abin_op_ts b l op r) (h, j) k =
      let (m, n) = All-split _ (find_ts_bind_info l) (find_ts_bind_info r) k in
      (IsCovered-IsReady l h m, IsCovered-IsReady r j n)

  -- When each reference that `find_ts_bind_info` finds has a series and is bound to it, `do_bind`
  -- returns and every node of the series is bound, for a series in which the search sees every reference
  -- without content.
  pub bind_found-IsBound :
      (lookup : I → Option R) (t : Ts R I D A P)
      → IsCovered t
      → IsResolved lookup (find_ts_bind_info t)
      → (t' : Ts R I D A P) × (do_bind (bind_found lookup t) ≡ ok t') × IsBound t'
  bind_found-IsBound lookup t h k =
      do_bind-IsBound (bind_found lookup t) (bind_found-IsReady lookup t h k)
