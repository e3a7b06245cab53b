-- ===== src/Expressions/Binding/Pointers.antt =====
-- A series that is ready, or bound, is there: what is read of it through its pointer returns.
use shyft.Prelude.{◌≡◌, refl, true, false}
use shyft.Prelude.Outcome.{ok, ◌>>=◌}
use shyft.Expressions.Tree.{
  Ts, empty, gpoint_ts, aref_ts, average_ts, integral_ts, accumulate_ts, time_shift_ts, abs_ts,
  periodic_ts, convolve_w_ts, extend_ts, rating_curve_ts, krls_interpolation_ts, qac_ts,
  aglacier_melt_ts, abin_op_ts, abin_op_scalar_ts, abin_op_ts_scalar, sts, is_set, or_else,
  needs_bind, read_child,
}
use shyft.Expressions.Binding.{IsReady, IsBound}

module _ {R I D A P : Type 0} where
  pub IsReady-sts : (t : Ts R I D A P) → IsReady t → sts t ≡ ok t
  unfolding sts
  IsReady-sts empty h = absurd h
  IsReady-sts (gpoint_ts r) h = refl
  IsReady-sts (aref_ts id rep) h = refl
  IsReady-sts (average_ts ta t) h = refl
  IsReady-sts (integral_ts ta t) h = refl
  IsReady-sts (accumulate_ts ta t) h = refl
  IsReady-sts (time_shift_ts p b t) h = refl
  IsReady-sts (abs_ts b t) h = refl
  IsReady-sts (periodic_ts p) h = refl
  IsReady-sts (convolve_w_ts p b t) h = refl
  IsReady-sts (extend_ts p b l r) h = refl
  IsReady-sts (rating_curve_ts p b t) h = refl
  IsReady-sts (krls_interpolation_ts p b t) h = refl
  IsReady-sts (qac_ts p t c) h = refl
  IsReady-sts (aglacier_melt_ts p t c) h = refl
  IsReady-sts (abin_op_ts b l op r) h = refl
  IsReady-sts (abin_op_scalar_ts b x op t) h = refl
  IsReady-sts (abin_op_ts_scalar b t op x) h = refl

  pub IsReady-is_set : (t : Ts R I D A P) → IsReady t → is_set t ≡ true
  unfolding is_set
  IsReady-is_set empty h = absurd h
  IsReady-is_set (gpoint_ts r) h = refl
  IsReady-is_set (aref_ts id rep) h = refl
  IsReady-is_set (average_ts ta t) h = refl
  IsReady-is_set (integral_ts ta t) h = refl
  IsReady-is_set (accumulate_ts ta t) h = refl
  IsReady-is_set (time_shift_ts p b t) h = refl
  IsReady-is_set (abs_ts b t) h = refl
  IsReady-is_set (periodic_ts p) h = refl
  IsReady-is_set (convolve_w_ts p b t) h = refl
  IsReady-is_set (extend_ts p b l r) h = refl
  IsReady-is_set (rating_curve_ts p b t) h = refl
  IsReady-is_set (krls_interpolation_ts p b t) h = refl
  IsReady-is_set (qac_ts p t c) h = refl
  IsReady-is_set (aglacier_melt_ts p t c) h = refl
  IsReady-is_set (abin_op_ts b l op r) h = refl
  IsReady-is_set (abin_op_scalar_ts b x op t) h = refl
  IsReady-is_set (abin_op_ts_scalar b t op x) h = refl

  pub IsBound-sts : (t : Ts R I D A P) → IsBound t → sts t ≡ ok t
  unfolding sts needs_bind
  IsBound-sts empty B = cc B.bound
  IsBound-sts (gpoint_ts r) B = refl
  IsBound-sts (aref_ts id rep) B = refl
  IsBound-sts (average_ts ta t) B = refl
  IsBound-sts (integral_ts ta t) B = refl
  IsBound-sts (accumulate_ts ta t) B = refl
  IsBound-sts (time_shift_ts p b t) B = refl
  IsBound-sts (abs_ts b t) B = refl
  IsBound-sts (periodic_ts p) B = refl
  IsBound-sts (convolve_w_ts p b t) B = refl
  IsBound-sts (extend_ts p b l r) B = refl
  IsBound-sts (rating_curve_ts p b t) B = refl
  IsBound-sts (krls_interpolation_ts p b t) B = refl
  IsBound-sts (qac_ts p t c) B = refl
  IsBound-sts (aglacier_melt_ts p t c) B = refl
  IsBound-sts (abin_op_ts b l op r) B = refl
  IsBound-sts (abin_op_scalar_ts b x op t) B = refl
  IsBound-sts (abin_op_ts_scalar b t op x) B = refl

  pub IsBound-is_set : (t : Ts R I D A P) → IsBound t → is_set t ≡ true
  unfolding is_set needs_bind
  IsBound-is_set empty B = cc B.bound
  IsBound-is_set (gpoint_ts r) B = refl
  IsBound-is_set (aref_ts id rep) B = refl
  IsBound-is_set (average_ts ta t) B = refl
  IsBound-is_set (integral_ts ta t) B = refl
  IsBound-is_set (accumulate_ts ta t) B = refl
  IsBound-is_set (time_shift_ts p b t) B = refl
  IsBound-is_set (abs_ts b t) B = refl
  IsBound-is_set (periodic_ts p) B = refl
  IsBound-is_set (convolve_w_ts p b t) B = refl
  IsBound-is_set (extend_ts p b l r) B = refl
  IsBound-is_set (rating_curve_ts p b t) B = refl
  IsBound-is_set (krls_interpolation_ts p b t) B = refl
  IsBound-is_set (qac_ts p t c) B = refl
  IsBound-is_set (aglacier_melt_ts p t c) B = refl
  IsBound-is_set (abin_op_ts b l op r) B = refl
  IsBound-is_set (abin_op_scalar_ts b x op t) B = refl
  IsBound-is_set (abin_op_ts_scalar b t op x) B = refl

  pub IsBound-read_child : (t : Ts R I D A P) → IsBound t → read_child t ≡ ok tt
  unfolding read_child
  IsBound-read_child t B = rw (B.policy, IsBound-sts t B, B.axis) refl

  pub both :
      (l r : Ts R I D A P) → IsBound l → IsBound r → (read_child l >>= λ _. read_child r) ≡ ok tt
  both l r B C = rw (IsBound-read_child l B, IsBound-read_child r C) refl

  pub neither :
      (l r : Ts R I D A P)
      → IsBound l
      → IsBound r
      → or_else (sts l >>= λ _. needs_bind l) (sts r >>= λ _. needs_bind r) ≡ ok false
  neither l r B C = rw (IsBound-sts l B, B.bound, IsBound-sts r C, C.bound) refl
