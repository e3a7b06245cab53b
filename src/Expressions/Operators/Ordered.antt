-- ===== src/Expressions/Operators/Ordered.antt =====
-- `max` and `min` of a number and a series, against the operation at each value, where not all numbers are
-- ordered.
use shyft.Prelude.{
  ◌≡◌, ◌⊎◌, inl, inr, ◌↔◌, refl, sym, ap, ◌∙◌, not, Option, none, some, List, [], ◌∷◌, map,
}
use shyft.Prelude.Tests.{Bool-cases}
use shyft.Prelude.Lists.{All}
use shyft.Prelude.Outcome.{Outcome, ok, ok-injective}
use shyft.Expressions.Tree.{op_max, op_min}
use shyft.Expressions.Operators.{
  Floats, std_max, std_min, do_op, scalar_op_terminal, scalar_op_in_place, abin_op_scalar_values,
}
use shyft.Expressions.Operators.Pointwise.{each, IsSide}

module _ {D : Type 0} (F : Floats D) where
  -- A number and a value on which `max` and `min` agree in both orders: they are the same, or exactly one
  -- of them is less than the other.
  abbrev pub IsComparable : D → D → Type 0
  IsComparable x v = (x ≡ v) ⊎ (F.less x v ≡ not (F.less v x))

  max_iff : (x v : D) → (ok (std_max F v x) ≡ do_op F x op_max v) ↔ IsComparable x v
  unfolding do_op
  max_iff x v = elim (Bool-cases (F.less v x)) [
    | inl below ↦ elim (Bool-cases (F.less x v)) [
      | inl above ↦
          rw (below, above)
            ((λ e. inl (ok-injective e)), λ C. elim C [ inl e ↦ ap ok e | inr e ↦ cc e ])
      | inr not_above ↦ rw (below, not_above) ((λ e. inr refl), λ C. refl)
    ]
    | inr not_below ↦ elim (Bool-cases (F.less x v)) [
      | inl above ↦ rw (not_below, above) ((λ e. inr refl), λ C. refl)
      | inr not_above ↦
          rw (not_below, not_above)
            (
              (λ e. inl (sym (ok-injective e))),
              λ C. elim C [ inl e ↦ ap ok (sym e) | inr e ↦ cc e ],
            )
    ]
  ]

  min_iff : (x v : D) → (ok (std_min F v x) ≡ do_op F x op_min v) ↔ IsComparable x v
  unfolding do_op
  min_iff x v = elim (Bool-cases (F.less v x)) [
    | inl below ↦ elim (Bool-cases (F.less x v)) [
      | inl above ↦
          rw (below, above)
            ((λ e. inl (ok-injective e)), λ C. elim C [ inl e ↦ ap ok e | inr e ↦ cc e ])
      | inr not_above ↦ rw (below, not_above) ((λ e. inr refl), λ C. refl)
    ]
    | inr not_below ↦ elim (Bool-cases (F.less x v)) [
      | inl above ↦ rw (not_below, above) ((λ e. inr refl), λ C. refl)
      | inr not_above ↦
          rw (not_below, not_above)
            (
              (λ e. inl (sym (ok-injective e))),
              λ C. elim C [ inl e ↦ ap ok (sym e) | inr e ↦ cc e ],
            )
    ]
  ]

  each-returns :
      (g : D → Outcome D)
      → ((v : D) → (y : D) × (g v ≡ ok y))
      → (vs : List D) → (ys : List D) × (each F g vs ≡ ok ys)
  each-returns g returns [] = ([], refl)
  each-returns g returns (v ∷ vs) =
      let (y, e) = returns v in let (ys, h) = each-returns g returns vs in (y ∷ ys, rw (e, h) refl)

  -- Values computed one by one are those of another function exactly if they agree at each value.
  map-each_iff :
      (f : D → D) (g : D → Outcome D) (P : D → Type 0)
      → ((v : D) → (ok (f v) ≡ g v) ↔ P v)
      → ((v : D) → (y : D) × (g v ≡ ok y))
      → (vs : List D) → (ok (map f vs) ≡ each F g vs) ↔ All P vs
  map-each_iff f g P agree returns [] = ((λ e. tt), λ a. refl)
  map-each_iff f g P agree returns (v ∷ vs) =
      let rest = map-each_iff f g P agree returns vs in
      let (y, e) = returns v in
      let (ys, h) = each-returns g returns vs in
      (
        (λ same.
            let whole : ok (f v ∷ map f vs) ≡ ok (y ∷ ys) = same ∙ (rw (e, h) refl) in
            ((agree v).0 (cc (whole, e)), rest.0 (cc (whole, h)))),
        λ a.
            let first = (agree v).1 a.0 in
            let others = rest.1 a.1 in rw (sym first, sym others) refl,
      )

  maxima :
      (x : D) (r : List D)
      → (ok (map (λ v. std_max F v x) r) ≡ each F (λ v. do_op F x op_max v) r)
        ↔ All (IsComparable x) r
  unfolding do_op
  maxima x r =
      map-each_iff (λ v. std_max F v x) (λ v. do_op F x op_max v) (IsComparable x) (max_iff x)
        (λ v. (std_max F x v, refl)) r

  minima :
      (x : D) (r : List D)
      → (ok (map (λ v. std_min F v x) r) ≡ each F (λ v. do_op F x op_min v) r)
        ↔ All (IsComparable x) r
  unfolding do_op
  minima x r =
      map-each_iff (λ v. std_min F v x) (λ v. do_op F x op_min v) (IsComparable x) (min_iff x)
        (λ v. (std_min F x v, refl)) r

  -- The values of `max(x, ts)` and of `min(x, ts)`, with terminal values or computed ones, are those of the
  -- operation at each value exactly if every value is the number, or exactly one of the two is less than the
  -- other; so not where a value is a nan and the number is none.
  pub abin_op_scalar_values-each_iff :
      (x : D) (r_v : Option (List D)) (r : List D)
      → IsSide F r_v r
      → ((abin_op_scalar_values F (ok tt) x op_max r_v (ok r) ≡ each F (λ v. do_op F x op_max v) r)
          ↔ All (IsComparable x) r)
        × ((abin_op_scalar_values F (ok tt) x op_min r_v (ok r)
              ≡ each F (λ v. do_op F x op_min v) r)
            ↔ All (IsComparable x) r)
  unfolding abin_op_scalar_values scalar_op_terminal scalar_op_in_place
  abin_op_scalar_values-each_iff x none r a = (maxima x r, minima x r)
  abin_op_scalar_values-each_iff x (some r_v) r a = rw a (maxima x r, minima x r)
