-- ===== src/Expressions/Binding/Ready.antt =====
-- `do_bind` of a series with all its contents.
use shyft.Prelude.{◌≡◌, inl, inr, refl, Bool, true, false, none, some}
use shyft.Prelude.Outcome.{ok, ◌>>=◌}
use shyft.Expressions.Tree.{
  Ts, empty, gpoint_ts, aref_ts, average_ts, integral_ts, accumulate_ts, time_shift_ts, abs_ts,
  periodic_ts, convolve_w_ts, extend_ts, rating_curve_ts, krls_interpolation_ts, qac_ts,
  aglacier_melt_ts, abin_op_ts, abin_op_scalar_ts, abin_op_ts_scalar, Call, sts, needs_bind,
  bind_check, time_axis, point_interpretation, unless_bound, read_child, do_bind,
}
use shyft.Expressions.Binding.{IsReady, IsBound}
use shyft.Expressions.Binding.Pointers.{
  IsReady-sts, IsReady-is_set, IsBound-sts, IsBound-is_set, IsBound-read_child, both, neither,
}

-- A node may skip its reads when it has done them, and may do them when its children are bound.
unless_bound-ok : (bound : Bool) (reads : Call) → reads ≡ ok tt → unless_bound bound reads ≡ ok tt
unless_bound-ok true reads h = refl
unless_bound-ok false reads h = h

module _ {R I D A P : Type 0} where
  -- Whatever a series with all its contents is built of, `do_bind` returns, and what it leaves is bound in
  -- every node: it needs no binding, its time-axis and its interpretation are there, and no `bind_check` in
  -- it throws.
  pub do_bind-IsBound :
      (t : Ts R I D A P) → IsReady t → (t' : Ts R I D A P) × (do_bind t ≡ ok t') × IsBound t'
  unfolding do_bind needs_bind time_axis point_interpretation bind_check
  do_bind-IsBound empty h = absurd h
  do_bind-IsBound (gpoint_ts r) h =
      (gpoint_ts r, refl, record { bound = refl; axis = refl; policy = refl; nodes = tt })
  do_bind-IsBound (aref_ts id none) h = absurd h
  do_bind-IsBound (aref_ts id (some r)) h =
      (aref_ts id (some r), refl, record { bound = refl; axis = refl; policy = refl; nodes = tt })
  do_bind-IsBound (periodic_ts p) h =
      (periodic_ts p, refl, record { bound = refl; axis = refl; policy = refl; nodes = tt })
  do_bind-IsBound (average_ts ta t) h =
      let (t', e, B) = do_bind-IsBound t h in
      (
        average_ts ta t',
        rw e refl,
        record { bound = B.bound; axis = refl; policy = refl; nodes = B.nodes },
      )
  do_bind-IsBound (integral_ts ta t) h =
      let (t', e, B) = do_bind-IsBound t h in
      (
        integral_ts ta t',
        rw e refl,
        record { bound = B.bound; axis = refl; policy = refl; nodes = B.nodes },
      )
  do_bind-IsBound (accumulate_ts ta t) h =
      let (t', e, B) = do_bind-IsBound t h in
      (
        accumulate_ts ta t',
        rw e refl,
        record { bound = B.bound; axis = refl; policy = refl; nodes = B.nodes },
      )
  do_bind-IsBound (time_shift_ts p b t) h =
      let (t', e, B) = do_bind-IsBound t h in
      (
        time_shift_ts p true t',
        rw (e, unless_bound-ok b (time_axis t') B.axis) refl,
        record { bound = B.bound; axis = refl; policy = B.policy; nodes = (refl, B.nodes) },
      )
  do_bind-IsBound (abs_ts b t) h =
      let (t', e, B) = do_bind-IsBound t h in
      (
        abs_ts true t',
        rw (e, unless_bound-ok b (time_axis t') B.axis) refl,
        record { bound = B.bound; axis = refl; policy = B.policy; nodes = (refl, B.nodes) },
      )
  do_bind-IsBound (convolve_w_ts p b t) h =
      let (t', e, B) = do_bind-IsBound t h in
      (
        convolve_w_ts p true t',
        rw (IsReady-sts t h, e, unless_bound-ok b (point_interpretation t') B.policy) refl,
        record {
          bound = refl;
          axis = rw (IsBound-sts t' B) B.axis;
          policy = refl;
          nodes = (refl, B.nodes);
        },
      )
  do_bind-IsBound (rating_curve_ts p true t) B = (
    rating_curve_ts p true t,
    refl,
    record {
      bound = refl;
      axis = rw (IsBound-sts t B) B.axis;
      policy = refl;
      nodes = (refl, B.nodes);
    },
  )
  do_bind-IsBound (rating_curve_ts p false t) h =
      let (t', e, B) = do_bind-IsBound t h in
      (
        rating_curve_ts p true t',
        rw (IsReady-sts t h, e, B.policy) refl,
        record {
          bound = refl;
          axis = rw (IsBound-sts t' B) B.axis;
          policy = refl;
          nodes = (refl, B.nodes);
        },
      )
  do_bind-IsBound (krls_interpolation_ts p b t) h =
      let (t', e, B) = do_bind-IsBound t h in
      let axis : (sts t' >>= λ _. time_axis t') ≡ ok tt = rw (IsBound-sts t' B) B.axis in
      (
        krls_interpolation_ts p true t',
        rw (IsReady-sts t h, e, unless_bound-ok b (sts t' >>= λ _. time_axis t') axis) refl,
        record {
          bound = rw (IsBound-sts t' B) B.bound;
          axis = axis;
          policy = B.policy;
          nodes = (refl, B.nodes);
        },
      )
  do_bind-IsBound (qac_ts p t c) (h, inl not_set) =
      let (t', e, B) = do_bind-IsBound t h in
      (
        qac_ts p t' c,
        rw (e, not_set) refl,
        record {
          bound = rw (B.bound, not_set) refl;
          axis = B.axis;
          policy = B.policy;
          nodes = (B.nodes, inl not_set);
        },
      )
  do_bind-IsBound (qac_ts p t c) (h, inr k) =
      let (t', e, B) = do_bind-IsBound t h in
      let (c', f, C) = do_bind-IsBound c k in
      (
        qac_ts p t' c',
        rw (e, IsReady-is_set c k, f) refl,
        record {
          bound = rw (B.bound, IsBound-is_set c' C, C.bound) refl;
          axis = B.axis;
          policy = B.policy;
          nodes = (B.nodes, inr C.nodes);
        },
      )
  do_bind-IsBound (extend_ts p b l r) (h, k) =
      let (l', e, B) = do_bind-IsBound l h in
      let (r', f, C) = do_bind-IsBound r k in
      (
        extend_ts p true l' r',
        rw
            (
              IsReady-sts l h,
              e,
              IsReady-sts r k,
              f,
              unless_bound-ok b (read_child l' >>= λ _. read_child r') (both l' r' B C),
            )
            refl,
        record {
          bound = neither l' r' B C;
          axis = refl;
          policy = refl;
          nodes = (refl, B.nodes, C.nodes);
        },
      )
  do_bind-IsBound (aglacier_melt_ts p t c) (h, k) =
      let (t', e, B) = do_bind-IsBound t h in
      let (c', f, C) = do_bind-IsBound c k in
      (
        aglacier_melt_ts p t' c',
        rw (e, f) refl,
        record {
          bound = rw (B.bound, C.bound) refl;
          axis = B.axis;
          policy = refl;
          nodes = (B.nodes, C.nodes);
        },
      )
  do_bind-IsBound (abin_op_ts b l op r) (h, k) =
      let (l', e, B) = do_bind-IsBound l h in
      let (r', f, C) = do_bind-IsBound r k in
      (
        abin_op_ts true l' op r',
        rw
            (
              IsReady-sts l h,
              e,
              IsReady-sts r k,
              f,
              unless_bound-ok b (read_child l' >>= λ _. read_child r') (both l' r' B C),
            )
            refl,
        record {
          bound = neither l' r' B C;
          axis = refl;
          policy = refl;
          nodes = (refl, B.nodes, C.nodes);
        },
      )
  do_bind-IsBound (abin_op_scalar_ts b x op t) h =
      let (t', e, B) = do_bind-IsBound t h in
      (
        abin_op_scalar_ts true x op t',
        rw (IsReady-sts t h, e, unless_bound-ok b (read_child t') (IsBound-read_child t' B)) refl,
        record {
          bound = rw (IsBound-sts t' B) B.bound;
          axis = refl;
          policy = refl;
          nodes = (refl, B.nodes);
        },
      )
  do_bind-IsBound (abin_op_ts_scalar b t op x) h =
      let (t', e, B) = do_bind-IsBound t h in
      (
        abin_op_ts_scalar true t' op x,
        rw (IsReady-sts t h, e, unless_bound-ok b (read_child t') (IsBound-read_child t' B)) refl,
        record {
          bound = rw (IsBound-sts t' B) B.bound;
          axis = refl;
          policy = refl;
          nodes = (refl, B.nodes);
        },
      )
