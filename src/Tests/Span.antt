-- ===== src/Tests/Span.antt =====
-- A small fragment type for the tests of `mini_frag` and `cache`: a period and a function that
-- gives the values stored in it. Its `merge` puts the left fragment over the right one, as the
-- time-series of the source do.
use shyft.Prelude.{ℕ, ◌≡◌, refl, Bool, true, ◌&&◌, Option, arith, inl, inr}
use shyft.Prelude.Tests.{if◌then◌else◌, Bool-cases}
use shyft.Prelude.Int.{leb_ℤ, ltb_ℤ}
use shyft.Prelude.Outcome.{Outcome, ok, ok-injective, throw, runtime_error}
use shyft.Utc.{UtcTime, UtcPeriod, valid, contains, hull}
use shyft.Cache.Fragments.{Fragment}
use shyft.Cache.Fragments.Returns.{Merges}

pub record Span : Type 0 where
  pub over : UtcPeriod
  pub value : UtcTime → Option ℕ

unfoldable pub touches : UtcPeriod → UtcPeriod → Bool
touches p q = leb_ℤ p.start q.end && leb_ℤ q.start p.end

abbrev pub overlay : Span → Span → Span
overlay x y = record {
  over = hull x.over y.over;
  value = λ t. if contains x.over t then x.value t else y.value t;
}

unfoldable pub span_merge : Span → Span → Outcome Span
unfolding touches
span_merge x y = if touches x.over y.over then ok (overlay x y) else throw runtime_error

pub valid-hull : (p q : UtcPeriod) → valid p ≡ true → valid q ≡ true → valid (hull p q) ≡ true
unfolding valid
valid-hull p q h k = elim (Bool-cases (ltb_ℤ q.start p.start)) [
  | inl c ↦ ground arith
  | inr c ↦ ground arith
]

pub merged : (x y z : Span) → span_merge x y ≡ ok z → overlay x y ≡ z
unfolding span_merge
merged x y z e = elim (Bool-cases (touches x.over y.over)) [
  | inl c ↦ ok-injective (rw (c, span_merge) at e)
  | inr c ↦ cc (rw (c, span_merge) at e)
]

abbrev pub spans : Fragment Span ℕ
spans = record {
  total_period = λ x. x.over;
  size = λ x. 1;
  merge = span_merge;
  value_at = λ x t. x.value t;
  IsFragment = λ x. valid x.over ≡ true;
  valid-total_period = λ x h. h;
  merge-IsFragment = λ x y z h k e. rw (← merged x y z e) (valid-hull x.over y.over h k);
  total_period-merge = λ x y z h k e. rw (← merged x y z e) refl;
  value_at-merge = λ x y z t h k e. rw (← merged x y z e) refl;
}

pub spans-Merges : Merges spans
unfolding span_merge touches
spans-Merges x y fx fy h k =
    let c : touches x.over y.over ≡ true = ground (arith, h, k) in rw c (overlay x y, refl)
