-- ===== src/Series/PointMerge.antt =====
-- `ts_point_merge`: the union of the points, with the values of the second series first.
use shyft.Prelude.{◌≡◌, refl, inl, inr, false, Option, none, some, List, [], ◌∷◌, arith, sym}
use mathlib.Core.Path.{subst}
use shyft.Prelude.Tests.{if◌then◌else◌, Bool-cases}
use shyft.Prelude.Lists.{All, All-map}
use shyft.Prelude.Int.{ltb_ℤ, leb_ℤ, eqb_ℤ, max_ℤ, min_ℤ, ◌≤ℤ◌, ◌<ℤ◌}
use shyft.Prelude.Outcome.{Outcome, ok}
use shyft.Utc.{UtcTime}
use shyft.TimeAxis.Point.{back, make, point_dt}
use shyft.Series.{PointTs, PointFx, times, merge_from, merge_points, ts_point_merge}

pub make-accepts :
    (t : List UtcTime) (e last : UtcTime)
    → back t ≡ some last
    → last <ℤ e
    → make t e ≡ ok (point_dt t e)
unfolding make
make-accepts t e last b h =
    let accepted : leb_ℤ e last ≡ false = ground (arith, h) in rw (b, make, accepted) refl

module _ {ℓ} {V : Type ℓ} where
  -- The points in increasing order of time, all after `lo`.
  abbrev pub IsAfter : UtcTime → List (UtcTime × V) → Type 0
  IsAfter lo [] = Unit
  IsAfter lo (x ∷ l) = (lo <ℤ x.0) × IsAfter x.0 l

  -- The value at a time point.
  abbrev pub value_at : List (UtcTime × V) → UtcTime → Option V
  value_at [] t = none
  value_at (x ∷ l) t = if eqb_ℤ x.0 t then some x.1 else value_at l t

  abbrev pub or_else : Option V → Option V → Option V
  or_else none o = o
  or_else (some v) o = some v

  IsAfter-mono : (lo hi : UtcTime) (l : List (UtcTime × V)) → lo ≤ℤ hi → IsAfter hi l → IsAfter lo l
  IsAfter-mono lo hi [] h a = tt
  IsAfter-mono lo hi (x ∷ l) h a = (omega (arith, h, a.0), a.1)

  value_at-before :
      (lo t : UtcTime) (l : List (UtcTime × V)) → t ≤ℤ lo → IsAfter lo l → value_at l t ≡ none
  value_at-before lo t [] h a = refl
  value_at-before lo t (x ∷ l) h a =
      let c : eqb_ℤ x.0 t ≡ false = ground (arith, h, a.0) in
      rw c (value_at-before x.0 t l (omega (arith, h, a.0)) a.1)

  merge_points-IsAfter :
      (lo : UtcTime) (a b : List (UtcTime × V))
      → IsAfter lo a
      → IsAfter lo b
      → IsAfter lo (merge_points a b)
  unfolding merge_points merge_from
  merge_points-IsAfter lo [] b h k = k
  merge_points-IsAfter lo (x ∷ a) [] h k = (h.0, merge_points-IsAfter x.0 a [] h.1 tt)
  merge_points-IsAfter lo (x ∷ a) (y ∷ b) h k = elim (Bool-cases (eqb_ℤ x.0 y.0)) [
    | inl c ↦
        rw c (k.0, merge_points-IsAfter y.0 a b (IsAfter-mono y.0 x.0 a (ground arith) h.1) k.1)
    | inr c ↦ elim (Bool-cases (ltb_ℤ x.0 y.0)) [
      | inl d ↦ rw (c, d) (h.0, merge_points-IsAfter x.0 a (y ∷ b) h.1 (ground arith, k.1))
      | inr d ↦ rw (c, d) (k.0, merge_points-IsAfter y.0 (x ∷ a) b (ground arith, h.1) k.1)
    ]
  ]

  or_else-none : (o : Option V) → or_else o none ≡ o
  or_else-none none = refl
  or_else-none (some v) = refl

  value_at-merge_points :
      (lo t : UtcTime) (a b : List (UtcTime × V))
      → IsAfter lo a
      → IsAfter lo b
      → value_at (merge_points a b) t ≡ or_else (value_at b t) (value_at a t)
  unfolding merge_points merge_from
  value_at-merge_points lo t [] b h k = sym (or_else-none (value_at b t))
  value_at-merge_points lo t (x ∷ a) [] h k = elim (Bool-cases (eqb_ℤ x.0 t)) [
    | inl e ↦ rw e refl
    | inr e ↦ rw e (value_at-merge_points x.0 t a [] h.1 tt)
  ]
  value_at-merge_points lo t (x ∷ a) (y ∷ b) h k = elim (Bool-cases (eqb_ℤ x.0 y.0)) [
    | inl c ↦ rw c (elim (Bool-cases (eqb_ℤ y.0 t)) [
      | inl e ↦ rw e refl
      | inr e ↦
          let e' : eqb_ℤ x.0 t ≡ false = ground arith in
          rw (e, e')
            (value_at-merge_points y.0 t a b (IsAfter-mono y.0 x.0 a (ground arith) h.1) k.1)
    ])
    | inr c ↦ elim (Bool-cases (ltb_ℤ x.0 y.0)) [
      | inl d ↦
          rw (c, d)
            (elim (Bool-cases (eqb_ℤ x.0 t)) [
              | inl e ↦
                  let e' : eqb_ℤ y.0 t ≡ false = ground arith in
                  rw (e, e', value_at-before y.0 t b (ground arith) k.1) refl
              | inr e ↦ rw e (value_at-merge_points x.0 t a (y ∷ b) h.1 (ground arith, k.1))
            ])
      | inr d ↦
          rw (c, d)
            (elim (Bool-cases (eqb_ℤ y.0 t)) [
              | inl e ↦ rw e refl
              | inr e ↦ rw e (value_at-merge_points y.0 t (x ∷ a) b (ground arith, h.1) k.1)
            ])
    ]
  ]

  merge_points-All :
      (e : UtcTime) (a b : List (UtcTime × V))
      → All (λ x. x.0 <ℤ e) a
      → All (λ x. x.0 <ℤ e) b
      → All (λ x. x.0 <ℤ e) (merge_points a b)
  unfolding merge_points merge_from
  merge_points-All e [] b h k = k
  merge_points-All e (x ∷ a) [] h k = (h.0, merge_points-All e a [] h.1 tt)
  merge_points-All e (x ∷ a) (y ∷ b) h k = elim (Bool-cases (eqb_ℤ x.0 y.0)) [
    | inl c ↦ rw c (k.0, merge_points-All e a b h.1 k.1)
    | inr c ↦ elim (Bool-cases (ltb_ℤ x.0 y.0)) [
      | inl d ↦ rw (c, d) (h.0, merge_points-All e a (y ∷ b) h.1 k)
      | inr d ↦ rw (c, d) (k.0, merge_points-All e (x ∷ a) b h k.1)
    ]
  ]

  -- Points in increasing order, all before the end.
  pub record IsSeries (a : PointTs V) : Type 0 where
    pub start : UtcTime
    pub ordered : IsAfter start a.points
    pub ended : All (λ x. x.0 <ℤ a.t_end) a.points

  last_point :
      (x : UtcTime × V) (l : List (UtcTime × V)) (e : UtcTime)
      → All (λ x. x.0 <ℤ e) (x ∷ l)
      → (last : UtcTime) × (back (times (x ∷ l)) ≡ some last) × (last <ℤ e)
  unfolding back
  last_point x [] e h = (x.0, refl, h.0)
  last_point x (y ∷ l) e h = last_point y l e h.1

  -- The constructor of the axis accepts the times of points before the end, if there are any.
  make-times :
      (x : UtcTime × V) (l m : List (UtcTime × V)) (e : UtcTime)
      → m ≡ x ∷ l
      → All (λ x. x.0 <ℤ e) m
      → make (times m) e ≡ ok (point_dt (times m) e)
  make-times x l m e same h =
      let (last, at_back, low) = last_point x l e (subst (All (λ x. x.0 <ℤ e)) same h) in
      let at_back' : back (times m) ≡ some last =
        subst (λ m. back (times m) ≡ some last) (sym same) at_back in
      make-accepts (times m) e last at_back' low

  merge_points-cons :
      (x y : UtcTime × V) (a b : List (UtcTime × V))
      → (z : UtcTime × V) × (l : List (UtcTime × V)) × (merge_points (x ∷ a) (y ∷ b) ≡ z ∷ l)
  unfolding merge_points merge_from
  merge_points-cons x y a b = elim (Bool-cases (eqb_ℤ x.0 y.0)) [
    | inl c ↦ (y, merge_points a b, rw c refl)
    | inr c ↦ elim (Bool-cases (ltb_ℤ x.0 y.0)) [
      | inl d ↦ (x, merge_points a (y ∷ b), rw (c, d) refl)
      | inr d ↦ (y, merge_points (x ∷ a) b, rw (c, d) refl)
    ]
  ]

  -- What the call returns.
  abbrev pub IsMerged : PointTs V → PointTs V → Outcome (PointTs V) → Type ℓ
  IsMerged a b result =
      (c : PointTs V) × (result ≡ ok c)
      × IsSeries c
      × ((t : UtcTime) → value_at c.points t ≡ or_else (value_at b.points t) (value_at a.points t))

  merged :
      (x y : UtcTime × V) (l m : List (UtcTime × V)) (e f : UtcTime) (g h : PointFx)
      → IsSeries (record { points = x ∷ l; t_end = e; fx_policy = g })
      → IsSeries (record { points = y ∷ m; t_end = f; fx_policy = h })
      → IsMerged
          (record { points = x ∷ l; t_end = e; fx_policy = g })
          (record { points = y ∷ m; t_end = f; fx_policy = h })
          (ts_point_merge
            (record { points = x ∷ l; t_end = e; fx_policy = g })
            (record { points = y ∷ m; t_end = f; fx_policy = h }))
  unfolding ts_point_merge
  merged x y l m e f g h A B =
      let r = merge_points (x ∷ l) (y ∷ m) in
      let end = max_ℤ e f in
      let lo = min_ℤ A.start B.start in
      let low_a = IsAfter-mono lo A.start (x ∷ l) (ground arith) A.ordered in
      let low_b = IsAfter-mono lo B.start (y ∷ m) (ground arith) B.ordered in
      let before : All (λ x. x.0 <ℤ end) r =
        merge_points-All end (x ∷ l) (y ∷ m)
          (All-map (λ x. x.0 <ℤ e) (λ x. x.0 <ℤ end) (x ∷ l) (λ x h. ground (arith, h)) A.ended)
          (All-map (λ x. x.0 <ℤ f) (λ x. x.0 <ℤ end) (y ∷ m) (λ x h. ground (arith, h)) B.ended) in
      let (z, n, same) = merge_points-cons x y l m in
      (
        record { points = r; t_end = end; fx_policy = g },
        rw (make-times z n r end same before) refl,
        record {
          start = lo;
          ordered = merge_points-IsAfter lo (x ∷ l) (y ∷ m) low_a low_b;
          ended = before;
        },
        λ t. value_at-merge_points lo t (x ∷ l) (y ∷ m) low_a low_b,
      )

  ts_point_merge-IsMerged :
      (l m : List (UtcTime × V)) (e f : UtcTime) (g h : PointFx)
      → IsSeries (record { points = l; t_end = e; fx_policy = g })
      → IsSeries (record { points = m; t_end = f; fx_policy = h })
      → IsMerged
          (record { points = l; t_end = e; fx_policy = g })
          (record { points = m; t_end = f; fx_policy = h })
          (ts_point_merge
            (record { points = l; t_end = e; fx_policy = g })
            (record { points = m; t_end = f; fx_policy = h }))
  unfolding ts_point_merge
  ts_point_merge-IsMerged l [] e f g h A B =
      (record { points = l; t_end = e; fx_policy = g }, refl, A, λ t. refl)
  ts_point_merge-IsMerged [] (y ∷ m) e f g h A B = (
    record { points = y ∷ m; t_end = f; fx_policy = h },
    refl,
    B,
    λ t. sym (or_else-none (value_at (y ∷ m) t)),
  )
  ts_point_merge-IsMerged (x ∷ l) (y ∷ m) e f g h A B = merged x y l m e f g h A B

  -- On series with their points in increasing order and before their ends, `ts_point_merge` returns
  -- such a series. At every time it has the value of the second series, or else of the first.
  pub ts_point_merge_lem :
      (a b : PointTs V) → IsSeries a → IsSeries b → IsMerged a b (ts_point_merge a b)
  ts_point_merge_lem a b A B =
      ts_point_merge-IsMerged a.points b.points a.t_end b.t_end a.fx_policy b.fx_policy A B
