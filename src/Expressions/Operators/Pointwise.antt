-- ===== src/Expressions/Operators/Pointwise.antt =====
-- The fast ways of `values` against the definition of an operation on two numbers.
use shyft.Prelude.{◌≡◌, ◌≢◌, refl, sym, ap, ◌∙◌, arith, Option, none, some, List, [], ◌∷◌, map}
use shyft.Prelude.Lists.{length, All, All-map}
use shyft.Prelude.Outcome.{Outcome, ok, undefined, ◌>>=◌}
use shyft.Expressions.Tree.{Iop, op_none, op_add, op_sub, op_div, op_mul, op_min, op_max}
use shyft.Expressions.Operators.{
  Floats, std_max, std_min, do_op, append_loop, write_loop, ts_op_ts_values,
  lhs_in_place_ts_op_ts_values, rhs_in_place_ts_op_ts_values, aligned_values, scalar_op_terminal,
  scalar_op_in_place, op_scalar_values, abin_op_scalar_values, abin_op_values_scalar,
}

module _ {D : Type 0} (F : Floats D) where
  -- The operation on each pair of numbers.
  abbrev pub pointwise : List D → Iop → List D → Outcome (List D)
  pointwise [] op [] = ok []
  pointwise (x ∷ l) op (y ∷ r) = do_op F x op y >>= λ v. pointwise l op r >>= λ rest. ok (v ∷ rest)
  pointwise [] op (y ∷ r) = undefined
  pointwise (x ∷ l) op [] = undefined

  -- Sums and products do not depend on the order of their terms, as IEEE 754 has it.
  pub record IsCommutative : Type 0 where
    pub plus_comm : (a b : D) → F.plus a b ≡ F.plus b a
    pub times_comm : (a b : D) → F.times a b ≡ F.times b a

  append_loop-pointwise :
      (op : Iop) (f : D → D → D)
      → ((a b : D) → do_op F a op b ≡ ok (f a b))
      → (l r : List D) → length l ≡ length r
      → append_loop F f l r ≡ pointwise l op r
  append_loop-pointwise op f same [] [] h = refl
  append_loop-pointwise op f same (x ∷ l) (y ∷ r) h =
      rw (same x y, append_loop-pointwise op f same l r (omega (arith, h))) refl
  append_loop-pointwise op f same [] (y ∷ r) h = absurd (omega (arith, h))
  append_loop-pointwise op f same (x ∷ l) [] h = absurd (omega (arith, h))

  write_loop-pointwise :
      (op : Iop) (f : D → D → D)
      → ((a b : D) → do_op F a op b ≡ ok (f a b))
      → (l r : List D) → length l ≡ length r
      → write_loop F f l r ≡ pointwise l op r
  write_loop-pointwise op f same [] [] h = refl
  write_loop-pointwise op f same (x ∷ l) (y ∷ r) h =
      rw (same x y, write_loop-pointwise op f same l r (omega (arith, h))) refl
  write_loop-pointwise op f same [] (y ∷ r) h = absurd (omega (arith, h))
  write_loop-pointwise op f same (x ∷ l) [] h = absurd (omega (arith, h))

  ts_op_ts_values-pointwise :
      (l r : List D) (op : Iop)
      → op ≢ op_none
      → length l ≡ length r
      → ts_op_ts_values F l op r ≡ pointwise l op r
  unfolding ts_op_ts_values do_op
  ts_op_ts_values-pointwise l r op_add h k =
      append_loop-pointwise op_add (λ a b. F.plus a b) (λ a b. refl) l r k
  ts_op_ts_values-pointwise l r op_sub h k =
      append_loop-pointwise op_sub (λ a b. F.minus a b) (λ a b. refl) l r k
  ts_op_ts_values-pointwise l r op_mul h k =
      append_loop-pointwise op_mul (λ a b. F.times a b) (λ a b. refl) l r k
  ts_op_ts_values-pointwise l r op_div h k =
      append_loop-pointwise op_div (λ a b. F.divide a b) (λ a b. refl) l r k
  ts_op_ts_values-pointwise l r op_max h k =
      append_loop-pointwise op_max (λ a b. std_max F a b) (λ a b. refl) l r k
  ts_op_ts_values-pointwise l r op_min h k =
      append_loop-pointwise op_min (λ a b. std_min F a b) (λ a b. refl) l r k
  ts_op_ts_values-pointwise l r op_none h k = absurd (h refl)

  lhs_in_place_ts_op_ts_values-pointwise :
      (l r : List D) (op : Iop)
      → op ≢ op_none
      → length l ≡ length r
      → lhs_in_place_ts_op_ts_values F l op r ≡ pointwise l op r
  unfolding lhs_in_place_ts_op_ts_values do_op
  lhs_in_place_ts_op_ts_values-pointwise l r op_add h k =
      write_loop-pointwise op_add (λ a b. F.plus a b) (λ a b. refl) l r k
  lhs_in_place_ts_op_ts_values-pointwise l r op_sub h k =
      write_loop-pointwise op_sub (λ a b. F.minus a b) (λ a b. refl) l r k
  lhs_in_place_ts_op_ts_values-pointwise l r op_mul h k =
      write_loop-pointwise op_mul (λ a b. F.times a b) (λ a b. refl) l r k
  lhs_in_place_ts_op_ts_values-pointwise l r op_div h k =
      write_loop-pointwise op_div (λ a b. F.divide a b) (λ a b. refl) l r k
  lhs_in_place_ts_op_ts_values-pointwise l r op_max h k =
      write_loop-pointwise op_max (λ a b. std_max F a b) (λ a b. refl) l r k
  lhs_in_place_ts_op_ts_values-pointwise l r op_min h k =
      write_loop-pointwise op_min (λ a b. std_min F a b) (λ a b. refl) l r k
  lhs_in_place_ts_op_ts_values-pointwise l r op_none h k = absurd (h refl)

  rhs_in_place_ts_op_ts_values-pointwise :
      IsCommutative
      → (l r : List D) (op : Iop) → op ≢ op_none
      → length l ≡ length r
      → rhs_in_place_ts_op_ts_values F l op r ≡ pointwise l op r
  unfolding rhs_in_place_ts_op_ts_values do_op
  rhs_in_place_ts_op_ts_values-pointwise C l r op_add h k =
      append_loop-pointwise op_add (λ a b. F.plus b a) (λ a b. ap ok (C.plus_comm a b)) l r k
  rhs_in_place_ts_op_ts_values-pointwise C l r op_sub h k =
      append_loop-pointwise op_sub (λ a b. F.minus a b) (λ a b. refl) l r k
  rhs_in_place_ts_op_ts_values-pointwise C l r op_mul h k =
      append_loop-pointwise op_mul (λ a b. F.times b a) (λ a b. ap ok (C.times_comm a b)) l r k
  rhs_in_place_ts_op_ts_values-pointwise C l r op_div h k =
      append_loop-pointwise op_div (λ a b. F.divide a b) (λ a b. refl) l r k
  rhs_in_place_ts_op_ts_values-pointwise C l r op_max h k =
      append_loop-pointwise op_max (λ a b. std_max F a b) (λ a b. refl) l r k
  rhs_in_place_ts_op_ts_values-pointwise C l r op_min h k =
      append_loop-pointwise op_min (λ a b. std_min F a b) (λ a b. refl) l r k
  rhs_in_place_ts_op_ts_values-pointwise C l r op_none h k = absurd (h refl)

  -- A side with terminal values has those for its values.
  abbrev pub IsSide : Option (List D) → List D → Type 0
  IsSide none v = Unit
  IsSide (some v_terminal) v = v_terminal ≡ v

  -- On equal time-axes the four ways to compute the values of `lhs op rhs` agree: each gives the
  -- operation on the pairs of values, whichever sides are terminals, for an operation and two sides
  -- with as many values.
  pub aligned_values-pointwise :
      IsCommutative
      → (l_v r_v : Option (List D)) (l r : List D) (op : Iop) → IsSide l_v l
      → IsSide r_v r
      → op ≢ op_none
      → length l ≡ length r
      → aligned_values F l_v (ok l) op r_v (ok r) ≡ pointwise l op r
  unfolding aligned_values
  aligned_values-pointwise C (some l_v) (some r_v) l r op a b h k =
      ap (λ l. ts_op_ts_values F l op r_v) a
      ∙ ap (ts_op_ts_values F l op) b
      ∙ ts_op_ts_values-pointwise l r op h k
  aligned_values-pointwise C (some l_v) none l r op a b h k =
      ap (λ l. rhs_in_place_ts_op_ts_values F l op r) a
      ∙ rhs_in_place_ts_op_ts_values-pointwise C l r op h k
  aligned_values-pointwise C none (some r_v) l r op a b h k =
      ap (lhs_in_place_ts_op_ts_values F l op) b ∙ lhs_in_place_ts_op_ts_values-pointwise l r op h k
  aligned_values-pointwise C none none l r op a b h k =
      lhs_in_place_ts_op_ts_values-pointwise l r op h k

  -- The operation on a number and each of the values.
  abbrev pub each : (D → Outcome D) → List D → Outcome (List D)
  each f [] = ok []
  each f (v ∷ vs) = f v >>= λ x. each f vs >>= λ rest. ok (x ∷ rest)

  map-each :
      (f : D → D) (g : D → Outcome D) (vs : List D)
      → All (λ v. g v ≡ ok (f v)) vs
      → ok (map f vs) ≡ each g vs
  map-each f g [] h = refl
  map-each f g (v ∷ vs) h = rw (h.0, sym (map-each f g vs h.1)) refl

  each_value {κ} : {P : D → Type κ} → ((v : D) → P v) → (vs : List D) → All P vs
  each_value h [] = tt
  each_value h (v ∷ vs) = (h v, each_value h vs)

  pub op_scalar_values-each :
      (vs : List D) (op : Iop) (x : D)
      → op ≢ op_none
      → op_scalar_values F vs op x ≡ each (λ v. do_op F v op x) vs
  unfolding op_scalar_values do_op
  op_scalar_values-each vs op_add x h = map-each (λ v. F.plus v x) _ vs (each_value (λ v. refl) vs)
  op_scalar_values-each vs op_sub x h = map-each (λ v. F.minus v x) _ vs (each_value (λ v. refl) vs)
  op_scalar_values-each vs op_mul x h = map-each (λ v. F.times v x) _ vs (each_value (λ v. refl) vs)
  op_scalar_values-each vs op_div x h =
      map-each (λ v. F.divide v x) _ vs (each_value (λ v. refl) vs)
  op_scalar_values-each vs op_max x h =
      map-each (λ v. std_max F v x) _ vs (each_value (λ v. refl) vs)
  op_scalar_values-each vs op_min x h =
      map-each (λ v. std_min F v x) _ vs (each_value (λ v. refl) vs)
  op_scalar_values-each vs op_none x h = absurd (h refl)

  -- A number on the right: with terminal values or computed ones, the values of `lhs op x` are the
  -- operation on each value of `lhs` and `x`, for an operation.
  pub abin_op_values_scalar-each :
      (l_v : Option (List D)) (l : List D) (op : Iop) (x : D)
      → IsSide l_v l
      → op ≢ op_none
      → abin_op_values_scalar F (ok tt) l_v (ok l) op x ≡ each (λ v. do_op F v op x) l
  unfolding abin_op_values_scalar
  abin_op_values_scalar-each (some l_v) l op x a h =
      ap (λ l. op_scalar_values F l op x) a ∙ op_scalar_values-each l op x h
  abin_op_values_scalar-each none l op x a h = op_scalar_values-each l op x h

  -- Numbers of which the larger and the smaller do not depend on the order, so neither is a nan.
  abbrev pub IsOrdered : D → D → Type 0
  IsOrdered x v = (std_max F v x ≡ std_max F x v) × (std_min F v x ≡ std_min F x v)

  scalar_op_terminal-each :
      IsCommutative
      → (x : D) (op : Iop) (vs : List D) → op ≢ op_none
      → All (IsOrdered x) vs
      → scalar_op_terminal F x op vs ≡ each (λ v. do_op F x op v) vs
  unfolding scalar_op_terminal do_op
  scalar_op_terminal-each C x op_add vs h o =
      map-each (λ v. F.plus v x) _ vs (each_value (λ v. ap ok (C.plus_comm x v)) vs)
  scalar_op_terminal-each C x op_sub vs h o =
      map-each (λ v. F.minus x v) _ vs (each_value (λ v. refl) vs)
  scalar_op_terminal-each C x op_mul vs h o =
      map-each (λ v. F.times x v) _ vs (each_value (λ v. refl) vs)
  scalar_op_terminal-each C x op_div vs h o =
      map-each (λ v. F.divide x v) _ vs (each_value (λ v. refl) vs)
  scalar_op_terminal-each C x op_max vs h o =
      map-each (λ v. std_max F v x) _ vs (All-map (IsOrdered x) _ vs (λ v k. ap ok (sym k.0)) o)
  scalar_op_terminal-each C x op_min vs h o =
      map-each (λ v. std_min F v x) _ vs (All-map (IsOrdered x) _ vs (λ v k. ap ok (sym k.1)) o)
  scalar_op_terminal-each C x op_none vs h o = absurd (h refl)

  scalar_op_in_place-each :
      IsCommutative
      → (x : D) (op : Iop) (vs : List D) → op ≢ op_none
      → All (IsOrdered x) vs
      → scalar_op_in_place F x op vs ≡ each (λ v. do_op F x op v) vs
  unfolding scalar_op_in_place do_op
  scalar_op_in_place-each C x op_add vs h o =
      map-each (λ v. F.plus v x) _ vs (each_value (λ v. ap ok (C.plus_comm x v)) vs)
  scalar_op_in_place-each C x op_sub vs h o =
      map-each (λ v. F.minus x v) _ vs (each_value (λ v. refl) vs)
  scalar_op_in_place-each C x op_mul vs h o =
      map-each (λ v. F.times v x) _ vs (each_value (λ v. ap ok (C.times_comm x v)) vs)
  scalar_op_in_place-each C x op_div vs h o =
      map-each (λ v. F.divide x v) _ vs (each_value (λ v. refl) vs)
  scalar_op_in_place-each C x op_max vs h o =
      map-each (λ v. std_max F v x) _ vs (All-map (IsOrdered x) _ vs (λ v k. ap ok (sym k.0)) o)
  scalar_op_in_place-each C x op_min vs h o =
      map-each (λ v. std_min F v x) _ vs (All-map (IsOrdered x) _ vs (λ v k. ap ok (sym k.1)) o)
  scalar_op_in_place-each C x op_none vs h o = absurd (h refl)

  -- A number on the left: with terminal values or computed ones, the values of `x op rhs` are the
  -- operation on `x` and each value of `rhs`, for an operation and values that are ordered with `x`.
  pub abin_op_scalar_values-each :
      IsCommutative
      → (x : D) (op : Iop) (r_v : Option (List D)) (r : List D) → IsSide r_v r
      → op ≢ op_none
      → All (IsOrdered x) r
      → abin_op_scalar_values F (ok tt) x op r_v (ok r) ≡ each (λ v. do_op F x op v) r
  unfolding abin_op_scalar_values
  abin_op_scalar_values-each C x op (some r_v) r a h o =
      ap (λ r. scalar_op_terminal F x op r) a ∙ scalar_op_terminal-each C x op r h o
  abin_op_scalar_values-each C x op none r a h o = scalar_op_in_place-each C x op r h o
