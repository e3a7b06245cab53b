-- ===== src/Tests/Fragments.antt =====
-- The container of fragments at concrete inputs.
use shyft.Prelude.{ℕ, ◌≡◌, refl, ◌↔◌, arith, true, some, List, [], ◌∷◌}
use shyft.Prelude.Lists.{get_elem?}
use shyft.Prelude.Int.{pos, negsuc}
use shyft.Prelude.Outcome.{ok}
use shyft.Utc.{period, valid, contains, contains_period, intersection}
use shyft.Utc.Period.{contains-intersection_iff}
use shyft.Cache.Fragments.{
  add, add_at, replace_p1, merge_p1, erase_to, get_ix, split_while, covering_last,
}
use shyft.Cache.Fragments.Order.{IsApart}
use shyft.Cache.Fragments.Find.{get_ix_iff, CoveredBy}
use shyft.Cache.Fragments.Branches.{IsAdded}
use shyft.Cache.Fragments.Add.{add-IsAdded}
use shyft.Cache.Fragments.Returns.{add-Returns, Returns}
use shyft.Tests.Span.{Span, spans, span_merge, touches, overlay, spans-Merges}

program : Unit {0}
unfolding add add_at replace_p1 merge_p1 erase_to split_while span_merge touches get_ix
    covering_last contains contains_period valid get_elem?
program = tt

-- A span with one value at all its times.
abbrev pub span : ℕ → ℕ → ℕ → Span
span s e v = record { over = period (pos s) (pos e); value = λ t. some v }

abbrev two_spans : List Span
two_spans = span 0 10 1 ∷ span 20 30 2 ∷ []

-- The new span overlaps both, and becomes one span with them.
abbrev joined : List Span
joined = overlay (overlay (span 5 25 3) (span 0 10 1)) (span 20 30 2) ∷ []

joins : add spans two_spans (span 5 25 3) ≡ ok joined
unfolding program
joins = refl

-- It covers the first and stays apart from the second.
replaces : add spans two_spans (span 0 15 3) ≡ ok (span 0 15 3 ∷ span 20 30 2 ∷ [])
unfolding program
replaces = refl

-- It touches the end of the first.
extends :
    add spans two_spans (span 10 15 3)
    ≡ ok (overlay (span 10 15 3) (span 0 10 1) ∷ span 20 30 2 ∷ [])
unfolding program
extends = refl

lies_between :
    add spans two_spans (span 12 15 3) ≡ ok (span 0 10 1 ∷ span 12 15 3 ∷ span 20 30 2 ∷ [])
unfolding program
lies_between = refl

two_spans-IsApart : IsApart spans (negsuc 0) two_spans
unfolding valid
two_spans-IsApart = (refl, omega arith, (refl, omega arith, tt))

add-IsAdded_example : IsAdded spans (negsuc 0) (span 5 25 3) two_spans joined
unfolding program
add-IsAdded_example =
    add-IsAdded spans (negsuc 0) (span 5 25 3) two_spans joined refl (omega arith) two_spans-IsApart
      refl

add-Returns_example : Returns (add spans two_spans (span 5 25 3))
unfolding valid
add-Returns_example =
    add-Returns spans (negsuc 0) (span 5 25 3) two_spans spans-Merges refl two_spans-IsApart

get_ix_iff_example :
    (get_ix spans two_spans (period (pos 22) (pos 30)) ≡ some 1)
    ↔ ((x : Span) × CoveredBy spans (period (pos 22) (pos 30)) 1 x two_spans)
get_ix_iff_example =
    get_ix_iff spans (period (pos 22) (pos 30)) (negsuc 0) two_spans 1 two_spans-IsApart

time_in_both :
    (contains (intersection (period (pos 0) (pos 10)) (period (pos 5) (pos 20))) (pos 7) ≡ true) ↔ (
      (contains (period (pos 0) (pos 10)) (pos 7) ≡ true)
      × (contains (period (pos 5) (pos 20)) (pos 7) ≡ true))
unfolding program
time_in_both =
    contains-intersection_iff (period (pos 0) (pos 10)) (period (pos 5) (pos 20)) (pos 7) refl refl
