-- ===== src/Expressions/Operators.antt =====
-- The binary operations of expressions, in core/time_series_dd.cpp: on two numbers, on the values
-- of two series and on those of a series and a number. Numbers are a parameter, with the arithmetic
-- and the order `<` of the machine's `double`.
pub mod Pointwise
pub mod Ordered
use shyft.Prelude.{Bool, true, false, Option, none, some, List, [], ◌∷◌, map}
use shyft.Prelude.Tests.{if◌then◌else◌}
use shyft.Prelude.Outcome.{Outcome, ok, throw, undefined, runtime_error, ◌>>=◌}
use shyft.Utc.{UtcTime, UtcPeriod, contains}
use shyft.Expressions.Tree.{
  Ts, gpoint_ts, aref_ts, Iop, op_none, op_add, op_sub, op_div, op_mul, op_min, op_max,
}

pub record Floats (D : Type 0) : Type 0 where
  pub plus : D → D → D
  pub minus : D → D → D
  pub times : D → D → D
  pub divide : D → D → D
  pub less : D → D → Bool
  pub nan : D

-- `std::max` and `std::min`: the first number where neither is less.
abbrev pub std_max : {D : Type 0} → Floats D → D → D → D
std_max F a b = if F.less a b then b else a

abbrev pub std_min : {D : Type 0} → Floats D → D → D → D
std_min F a b = if F.less b a then b else a

module _ {D : Type 0} (F : Floats D) where
  unfoldable pub do_op : D → Iop → D → Outcome D
  do_op a op_add b = ok (F.plus a b)
  do_op a op_sub b = ok (F.minus a b)
  do_op a op_mul b = ok (F.times a b)
  do_op a op_div b = ok (F.divide a b)
  do_op a op_max b = ok (std_max F a b)
  do_op a op_min b = ok (std_min F a b)
  do_op a op_none b = throw runtime_error

  -- A loop over the indices of `r` that appends to a new vector.
  abbrev pub append_loop : (D → D → D) → List D → List D → Outcome (List D)
  append_loop f l [] = ok []
  append_loop f [] (y ∷ r) = undefined
  append_loop f (x ∷ l) (y ∷ r) = append_loop f l r >>= λ rest. ok (f x y ∷ rest)

  -- A loop over the indices of `r` that writes to `l`.
  abbrev pub write_loop : (D → D → D) → List D → List D → Outcome (List D)
  write_loop f l [] = ok l
  write_loop f [] (y ∷ r) = undefined
  write_loop f (x ∷ l) (y ∷ r) = write_loop f l r >>= λ rest. ok (f x y ∷ rest)

  unfoldable pub ts_op_ts_values : List D → Iop → List D → Outcome (List D)
  ts_op_ts_values l op_add r = append_loop (λ a b. F.plus a b) l r
  ts_op_ts_values l op_sub r = append_loop (λ a b. F.minus a b) l r
  ts_op_ts_values l op_mul r = append_loop (λ a b. F.times a b) l r
  ts_op_ts_values l op_div r = append_loop (λ a b. F.divide a b) l r
  ts_op_ts_values l op_max r = append_loop (λ a b. std_max F a b) l r
  ts_op_ts_values l op_min r = append_loop (λ a b. std_min F a b) l r
  ts_op_ts_values l op_none r = throw runtime_error

  unfoldable pub lhs_in_place_ts_op_ts_values : List D → Iop → List D → Outcome (List D)
  lhs_in_place_ts_op_ts_values l op_add r = write_loop (λ a b. F.plus a b) l r
  lhs_in_place_ts_op_ts_values l op_sub r = write_loop (λ a b. F.minus a b) l r
  lhs_in_place_ts_op_ts_values l op_mul r = write_loop (λ a b. F.times a b) l r
  lhs_in_place_ts_op_ts_values l op_div r = write_loop (λ a b. F.divide a b) l r
  lhs_in_place_ts_op_ts_values l op_max r = write_loop (λ a b. std_max F a b) l r
  lhs_in_place_ts_op_ts_values l op_min r = write_loop (λ a b. std_min F a b) l r
  lhs_in_place_ts_op_ts_values l op_none r = throw runtime_error

  -- The written vector is `r`, over its own indices.
  unfoldable pub rhs_in_place_ts_op_ts_values : List D → Iop → List D → Outcome (List D)
  rhs_in_place_ts_op_ts_values l op_add r = append_loop (λ a b. F.plus b a) l r
  rhs_in_place_ts_op_ts_values l op_sub r = append_loop (λ a b. F.minus a b) l r
  rhs_in_place_ts_op_ts_values l op_mul r = append_loop (λ a b. F.times b a) l r
  rhs_in_place_ts_op_ts_values l op_div r = append_loop (λ a b. F.divide a b) l r
  rhs_in_place_ts_op_ts_values l op_max r = append_loop (λ a b. std_max F a b) l r
  rhs_in_place_ts_op_ts_values l op_min r = append_loop (λ a b. std_min F a b) l r
  rhs_in_place_ts_op_ts_values l op_none r = throw runtime_error

  -- `abin_op_ts::values` on equal time-axes: `l_v` and `r_v` are the terminal values, and `l` and `r`
  -- what `values()` of the two sides returns.
  unfoldable pub aligned_values :
      Option (List D)
      → Outcome (List D)
      → Iop
      → Option (List D)
      → Outcome (List D)
      → Outcome (List D)
  aligned_values (some l_v) l op (some r_v) r = ts_op_ts_values l_v op r_v
  aligned_values (some l_v) l op none r = r >>= λ r. rhs_in_place_ts_op_ts_values l_v op r
  aligned_values none l op (some r_v) r = l >>= λ l. lhs_in_place_ts_op_ts_values l op r_v
  aligned_values none l op none r = l >>= λ l. r >>= λ r. lhs_in_place_ts_op_ts_values l op r

  -- `abin_op_ts::value_at`, with the two sides as functions of time.
  unfoldable pub value_at :
      UtcPeriod → (UtcTime → Outcome D) → Iop → (UtcTime → Outcome D) → UtcTime → Outcome D
  value_at total l op r t =
      if contains total t then (l t >>= λ a. r t >>= λ b. do_op a op b) else ok F.nan

  -- The values one by one, at the times of the combined axis.
  unfoldable pub values_by_time :
      UtcPeriod
      → (UtcTime → Outcome D)
      → Iop
      → (UtcTime → Outcome D)
      → List UtcTime
      → Outcome (List D)
  values_by_time total l op r [] = ok []
  values_by_time total l op r (t ∷ ts) =
      value_at total l op r t >>= λ x. values_by_time total l op r ts >>= λ rest. ok (x ∷ rest)

  -- `abin_op_scalar_ts::values` of terminal values, into a new vector
  unfoldable pub scalar_op_terminal : D → Iop → List D → Outcome (List D)
  scalar_op_terminal x op_add vs = ok (map (λ v. F.plus v x) vs)
  scalar_op_terminal x op_sub vs = ok (map (λ v. F.minus x v) vs)
  scalar_op_terminal x op_mul vs = ok (map (λ v. F.times x v) vs)
  scalar_op_terminal x op_div vs = ok (map (λ v. F.divide x v) vs)
  scalar_op_terminal x op_max vs = ok (map (λ v. std_max F v x) vs)
  scalar_op_terminal x op_min vs = ok (map (λ v. std_min F v x) vs)
  scalar_op_terminal x op_none vs = throw runtime_error

  -- the same of computed values, in place
  unfoldable pub scalar_op_in_place : D → Iop → List D → Outcome (List D)
  scalar_op_in_place x op_add vs = ok (map (λ v. F.plus v x) vs)
  scalar_op_in_place x op_sub vs = ok (map (λ v. F.minus x v) vs)
  scalar_op_in_place x op_mul vs = ok (map (λ v. F.times v x) vs)
  scalar_op_in_place x op_div vs = ok (map (λ v. F.divide x v) vs)
  scalar_op_in_place x op_max vs = ok (map (λ v. std_max F v x) vs)
  scalar_op_in_place x op_min vs = ok (map (λ v. std_min F v x) vs)
  scalar_op_in_place x op_none vs = throw runtime_error

  -- `abin_op_ts_scalar::values`, in both of its branches
  unfoldable pub op_scalar_values : List D → Iop → D → Outcome (List D)
  op_scalar_values vs op_add x = ok (map (λ v. F.plus v x) vs)
  op_scalar_values vs op_sub x = ok (map (λ v. F.minus v x) vs)
  op_scalar_values vs op_mul x = ok (map (λ v. F.times v x) vs)
  op_scalar_values vs op_div x = ok (map (λ v. F.divide v x) vs)
  op_scalar_values vs op_max x = ok (map (λ v. std_max F v x) vs)
  op_scalar_values vs op_min x = ok (map (λ v. std_min F v x) vs)
  op_scalar_values vs op_none x = throw runtime_error

  -- `bind_check()` comes first, and the values of a side that is no terminal are computed.
  unfoldable pub abin_op_scalar_values :
      Outcome (Unit {0}) → D → Iop → Option (List D) → Outcome (List D) → Outcome (List D)
  abin_op_scalar_values check x op (some v) r = check >>= λ _. scalar_op_terminal x op v
  abin_op_scalar_values check x op none r = check >>= λ _. r >>= λ r. scalar_op_in_place x op r

  unfoldable pub abin_op_values_scalar :
      Outcome (Unit {0}) → Option (List D) → Outcome (List D) → Iop → D → Outcome (List D)
  abin_op_values_scalar check (some v) l op x = check >>= λ _. op_scalar_values v op x
  abin_op_values_scalar check none l op x = check >>= λ _. l >>= λ l. op_scalar_values l op x

-- The values of a concrete series, or of a reference to one; an unbound reference throws.
unfoldable pub terminal_values :
    {R I D A P : Type 0} → (R → List D) → Ts R I D A P → Outcome (Option (List D))
terminal_values content (aref_ts id (some r)) = ok (some (content r))
terminal_values content (aref_ts id none) = throw runtime_error
terminal_values content (gpoint_ts r) = ok (some (content r))
terminal_values content _ = ok none
