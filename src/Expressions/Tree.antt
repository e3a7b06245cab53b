-- ===== src/Expressions/Tree.antt =====
-- The tree of an expression: the classes that implement `ipoint_ts`, in core/time_series_dd.h and
-- core/time_series_dd.cpp, and the parts of `convolve_w_ts` and `rating_curve_ts` of
-- core/time_series.h that bind. A node keeps
-- its children, its `bound` flag and its references; `R` is the content of a concrete series, `I` an
-- identifier, `D` a number, `A` a time-axis and `P` the parameters that no operation here reads.
--
-- Of the time-axes that binding computes only the moment is modelled: `bound` stands for the axis of
-- a `time_shift_ts` or an `abs_ts` too, which the source finds unset by its size.
use shyft.Prelude.{Bool, true, false, not, Option, none, some, List, [], ◌∷◌, ◌++◌}
use shyft.Prelude.Tests.{if◌then◌else◌}
use shyft.Prelude.Outcome.{Outcome, ok, throw, undefined, runtime_error, ◌>>=◌}

pub data Iop : Type 0 where
  op_none op_add op_sub op_div op_mul op_min op_max : Iop

-- `empty` is a null pointer.
pub data Ts (R I D A P : Type 0) : Type 0 where
  empty : Ts R I D A P
  gpoint_ts : R → Ts R I D A P
  aref_ts : I → Option R → Ts R I D A P
  average_ts : A → Ts R I D A P → Ts R I D A P
  integral_ts : A → Ts R I D A P → Ts R I D A P
  accumulate_ts : A → Ts R I D A P → Ts R I D A P
  time_shift_ts : P → Bool → Ts R I D A P → Ts R I D A P
  abs_ts : Bool → Ts R I D A P → Ts R I D A P
  periodic_ts : P → Ts R I D A P
  convolve_w_ts : P → Bool → Ts R I D A P → Ts R I D A P
  extend_ts : P → Bool → Ts R I D A P → Ts R I D A P → Ts R I D A P
  rating_curve_ts : P → Bool → Ts R I D A P → Ts R I D A P
  krls_interpolation_ts : P → Bool → Ts R I D A P → Ts R I D A P
  qac_ts : P → Ts R I D A P → Ts R I D A P → Ts R I D A P
  aglacier_melt_ts : P → Ts R I D A P → Ts R I D A P → Ts R I D A P
  abin_op_ts : Bool → Ts R I D A P → Iop → Ts R I D A P → Ts R I D A P
  abin_op_scalar_ts : Bool → D → Iop → Ts R I D A P → Ts R I D A P
  abin_op_ts_scalar : Bool → Ts R I D A P → Iop → D → Ts R I D A P

-- A call of which only the return matters.
abbrev pub Call : Type 0
Call = Outcome (Unit {0})

-- `a || b`, where `b` is not run after a true `a`
abbrev pub or_else : Outcome Bool → Outcome Bool → Outcome Bool
or_else a b = a >>= λ holds. if holds then ok true else b

-- `bind_check`
unfoldable pub bind_check : Bool → Call
bind_check bound = if bound then ok tt else throw runtime_error

-- `if (!bound) { ... }` of a `local_do_bind`, with the reads that it does.
abbrev pub unless_bound : Bool → Call → Call
unless_bound bound reads = if bound then ok tt else reads

module _ {R I D A P : Type 0} where
  -- The pointer of an `apoint_ts`, which throws where a plain pointer is followed unchecked.
  unfoldable pub sts : Ts R I D A P → Outcome (Ts R I D A P)
  sts empty = throw runtime_error
  sts t = ok t

  -- `if (cts)`, and the test of `find_ts_bind_info`
  unfoldable pub is_set : Ts R I D A P → Bool
  is_set empty = false
  is_set t = true

  unfoldable pub needs_bind : Ts R I D A P → Outcome Bool
  unfolding sts is_set
  needs_bind empty = undefined
  needs_bind (gpoint_ts r) = ok false
  needs_bind (aref_ts id none) = ok true
  needs_bind (aref_ts id (some r)) = ok false
  needs_bind (average_ts ta t) = needs_bind t
  needs_bind (integral_ts ta t) = needs_bind t
  needs_bind (accumulate_ts ta t) = needs_bind t
  needs_bind (time_shift_ts p bound t) = needs_bind t
  needs_bind (abs_ts bound t) = needs_bind t
  needs_bind (periodic_ts p) = ok false
  needs_bind (convolve_w_ts p bound t) = ok (not bound)
  needs_bind (extend_ts p bound l r) =
      or_else (sts l >>= λ _. needs_bind l) (sts r >>= λ _. needs_bind r)
  needs_bind (rating_curve_ts p bound t) = ok (not bound)
  needs_bind (krls_interpolation_ts p bound t) = sts t >>= λ _. needs_bind t
  needs_bind (qac_ts p t c) =
      let rest = needs_bind c in or_else (needs_bind t) (if is_set c then rest else ok false)
  needs_bind (aglacier_melt_ts p t c) = or_else (needs_bind t) (needs_bind c)
  needs_bind (abin_op_ts bound l op r) =
      or_else (sts l >>= λ _. needs_bind l) (sts r >>= λ _. needs_bind r)
  needs_bind (abin_op_scalar_ts bound x op t) = sts t >>= λ _. needs_bind t
  needs_bind (abin_op_ts_scalar bound t op x) = sts t >>= λ _. needs_bind t

  -- Whether `time_axis()` returns.
  unfoldable pub time_axis : Ts R I D A P → Call
  unfolding sts bind_check
  time_axis empty = undefined
  time_axis (gpoint_ts r) = ok tt
  time_axis (aref_ts id none) = undefined
  time_axis (aref_ts id (some r)) = ok tt
  time_axis (average_ts ta t) = ok tt
  time_axis (integral_ts ta t) = ok tt
  time_axis (accumulate_ts ta t) = ok tt
  time_axis (time_shift_ts p bound t) = ok tt
  time_axis (abs_ts bound t) = ok tt
  time_axis (periodic_ts p) = ok tt
  time_axis (convolve_w_ts p bound t) = sts t >>= λ _. time_axis t
  time_axis (extend_ts p bound l r) = bind_check bound
  time_axis (rating_curve_ts p bound t) = sts t >>= λ _. time_axis t
  time_axis (krls_interpolation_ts p bound t) = sts t >>= λ _. time_axis t
  time_axis (qac_ts p t c) = time_axis t
  time_axis (aglacier_melt_ts p t c) = time_axis t
  time_axis (abin_op_ts bound l op r) = bind_check bound
  time_axis (abin_op_scalar_ts bound x op t) = bind_check bound
  time_axis (abin_op_ts_scalar bound t op x) = bind_check bound

  -- Whether `point_interpretation()` returns. An `apoint_ts` follows its pointer unchecked here.
  unfoldable pub point_interpretation : Ts R I D A P → Call
  point_interpretation empty = undefined
  point_interpretation (aref_ts id none) = undefined
  point_interpretation (time_shift_ts p bound t) = point_interpretation t
  point_interpretation (abs_ts bound t) = point_interpretation t
  point_interpretation (krls_interpolation_ts p bound t) = point_interpretation t
  point_interpretation (qac_ts p t c) = point_interpretation t
  point_interpretation _ = ok tt

  -- What a node reads of a child to take over its axis and its interpretation.
  unfoldable pub read_child : Ts R I D A P → Call
  unfolding sts time_axis point_interpretation
  read_child t = point_interpretation t >>= λ _. sts t >>= λ _. time_axis t

  unfoldable pub do_bind : Ts R I D A P → Outcome (Ts R I D A P)
  unfolding sts is_set read_child
  do_bind empty = undefined
  do_bind (gpoint_ts r) = ok (gpoint_ts r)
  do_bind (aref_ts id rep) = ok (aref_ts id rep)
  do_bind (average_ts ta t) = do_bind t >>= λ t'. ok (average_ts ta t')
  do_bind (integral_ts ta t) = do_bind t >>= λ t'. ok (integral_ts ta t')
  do_bind (accumulate_ts ta t) = do_bind t >>= λ t'. ok (accumulate_ts ta t')
  do_bind (time_shift_ts p bound t) =
      do_bind t >>= λ t'. unless_bound bound (time_axis t') >>= λ _. ok (time_shift_ts p true t')
  do_bind (abs_ts bound t) =
      do_bind t >>= λ t'. unless_bound bound (time_axis t') >>= λ _. ok (abs_ts true t')
  do_bind (periodic_ts p) = ok (periodic_ts p)
  do_bind (convolve_w_ts p bound t) = sts t >>= λ _. do_bind t >>= λ t'.
      unless_bound bound (point_interpretation t') >>= λ _. ok (convolve_w_ts p true t')
  do_bind (extend_ts p bound l r) = sts l >>= λ _. do_bind l >>= λ l'. sts r >>= λ _.
      do_bind r >>= λ r'.
      unless_bound bound (read_child l' >>= λ _. read_child r') >>= λ _. ok (extend_ts p true l' r')
  do_bind (rating_curve_ts p bound t) =
      let bind_level = sts t >>= λ _.
      do_bind t >>= λ t'. point_interpretation t' >>= λ _. ok (rating_curve_ts p true t') in
      if bound then ok (rating_curve_ts p true t) else bind_level
  do_bind (krls_interpolation_ts p bound t) = sts t >>= λ _. do_bind t >>= λ t'.
      unless_bound bound (sts t' >>= λ _. time_axis t') >>= λ _.
      ok (krls_interpolation_ts p true t')
  do_bind (qac_ts p t c) =
      let rest = do_bind c in
      do_bind t >>= λ t'. (if is_set c then rest else ok c) >>= λ c'. ok (qac_ts p t' c')
  do_bind (aglacier_melt_ts p t c) =
      do_bind t >>= λ t'. do_bind c >>= λ c'. ok (aglacier_melt_ts p t' c')
  do_bind (abin_op_ts bound l op r) = sts l >>= λ _. do_bind l >>= λ l'. sts r >>= λ _.
      do_bind r >>= λ r'. unless_bound bound (read_child l' >>= λ _. read_child r') >>= λ _.
      ok (abin_op_ts true l' op r')
  do_bind (abin_op_scalar_ts bound x op t) = sts t >>= λ _. do_bind t >>= λ t'.
      unless_bound bound (read_child t') >>= λ _. ok (abin_op_scalar_ts true x op t')
  do_bind (abin_op_ts_scalar bound t op x) = sts t >>= λ _. do_bind t >>= λ t'.
      unless_bound bound (read_child t') >>= λ _. ok (abin_op_ts_scalar true t' op x)

  -- The references that are to be bound, in the order of the tree.
  unfoldable pub find_ts_bind_info : Ts R I D A P → List I
  find_ts_bind_info (aref_ts id rep) = id ∷ []
  find_ts_bind_info (average_ts ta t) = find_ts_bind_info t
  find_ts_bind_info (integral_ts ta t) = find_ts_bind_info t
  find_ts_bind_info (accumulate_ts ta t) = find_ts_bind_info t
  find_ts_bind_info (time_shift_ts p bound t) = find_ts_bind_info t
  find_ts_bind_info (abin_op_ts bound l op r) = find_ts_bind_info l ++ find_ts_bind_info r
  find_ts_bind_info (abin_op_scalar_ts bound x op t) = find_ts_bind_info t
  find_ts_bind_info (abin_op_ts_scalar bound t op x) = find_ts_bind_info t
  find_ts_bind_info (abs_ts bound t) = find_ts_bind_info t
  find_ts_bind_info (extend_ts p bound l r) = find_ts_bind_info l ++ find_ts_bind_info r
  find_ts_bind_info (rating_curve_ts p bound t) = find_ts_bind_info t
  find_ts_bind_info (krls_interpolation_ts p bound t) = find_ts_bind_info t
  find_ts_bind_info _ = []
