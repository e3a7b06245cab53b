-- ===== src/Cache/Fragments.antt =====
-- `mini_frag` of core/dtss_cache.h: the fragments of one time-series, kept ordered, disjoint and
-- as few as possible. The fragment type is a template parameter there, and the record `Fragment`
-- here: its operations, and what the comments on `mini_frag` and `merge` ask of them.
--
-- `lower_bound` and `upper_bound` split the vector where their test first fails or holds; the two
-- iterators of `add` are modelled by the parts before and after them.
pub mod Order
pub mod Merge
pub mod Find
pub mod Branches
pub mod Add
pub mod Returns
use shyft.Prelude.{ℕ, suc, ◌+◌, ◌≡◌, Bool, true, not, Option, none, some, List, [], ◌∷◌, ◌++◌}
use shyft.Prelude.Tests.{if◌then◌else◌}
use shyft.Prelude.Lists.{length}
use shyft.Prelude.Int.{ltb_ℤ, leb_ℤ}
use shyft.Prelude.Outcome.{Outcome, ok, undefined, ◌>>=◌}
use shyft.Utc.{UtcTime, UtcPeriod, hull, contains, contains_period, valid}

-- The template parameter `ts_frag`. `value_at x t` is the value that `x` stores at the time point
-- `t`; it is what a client of the cache gets to see, and no operation of the container calls it.
-- `IsFragment` is the representation invariant of the type, which `merge` keeps.
pub record Fragment {ℓ} (F V : Type ℓ) : Type (ℓ + 1) where
  pub total_period : F → UtcPeriod
  pub size : F → ℕ
  pub merge : F → F → Outcome F
  pub value_at : F → UtcTime → Option V
  pub IsFragment : F → Type ℓ
  pub valid-total_period : (x : F) → IsFragment x → valid (total_period x) ≡ true
  pub merge-IsFragment : (x y z : F) → IsFragment x → IsFragment y → merge x y ≡ ok z → IsFragment z
  pub total_period-merge :
      (x y z : F)
      → IsFragment x
      → IsFragment y
      → merge x y ≡ ok z
      → total_period z ≡ hull (total_period x) (total_period y)
  pub value_at-merge :
      (x y z : F) (t : UtcTime)
      → IsFragment x
      → IsFragment y
      → merge x y ≡ ok z
      → value_at z t ≡ (if contains (total_period x) t then value_at x t else value_at y t)

module _ {ℓ} {F V : Type ℓ} (T : Fragment F V) where
  open T use {total_period, size, merge}

  -- The elements before the first one that fails the test, and the rest from it on.
  unfoldable pub split_while : (F → Bool) → List F → List F × List F
  split_while test [] = ([], [])
  split_while test (x ∷ xs) =
      let rest = split_while test xs in if test x then (x ∷ rest.0, rest.1) else ([], x ∷ xs)

  -- The test of `lower_bound` in `get_ix`.
  abbrev pub starts_by : UtcPeriod → F → Bool
  starts_by p x = leb_ℤ (total_period x).start p.start

  -- The fragment at the end of the part before `lower_bound`, if that covers `p`: its index.
  unfoldable pub covering_last : UtcPeriod → ℕ → List F → Option ℕ
  covering_last p i [] = none
  covering_last p i (x ∷ []) = if contains_period (total_period x) p then some i else none
  covering_last p i (x ∷ y ∷ l) = covering_last p (suc i) (y ∷ l)

  unfoldable pub get_ix : List F → UtcPeriod → Option ℕ
  get_ix f p = covering_last p 0 (split_while (starts_by p) f).0

  unfoldable pub count_fragments : List F → ℕ
  count_fragments f = length f

  unfoldable pub estimate_size : List F → ℕ
  estimate_size [] = 0
  estimate_size (x ∷ f) = size x + estimate_size f

  -- The tests of `lower_bound` and `upper_bound` in `add`.
  abbrev pub ends_before : UtcPeriod → F → Bool
  ends_before p x = ltb_ℤ (total_period x).end p.start

  abbrev pub ends_in : UtcPeriod → F → Bool
  ends_in p x = not (ltb_ℤ p.end (total_period x).end)

  -- `*p1 = new; f.erase(p1 + 1, p2)`, which wants p1 before p2. `covered` is what stands from p1
  -- to p2, and the result what stands from p1 on.
  unfoldable pub erase_to : List F → F → List F → Outcome (List F)
  erase_to [] new from_p2 = undefined
  erase_to (_ ∷ _) new from_p2 = ok (new ∷ from_p2)

  -- The branch where the new fragment covers p1.
  unfoldable pub replace_p1 : F → List F → List F → Outcome (List F)
  replace_p1 tsf covered [] = erase_to covered tsf []
  replace_p1 tsf covered (p2 ∷ above) =
      if leb_ℤ (total_period p2).start (total_period tsf).end
      then (do m ← merge tsf p2; ok (m ∷ above))
      else erase_to covered tsf (p2 ∷ above)

  -- The branch where a part of p1 is merged into the new fragment.
  unfoldable pub merge_p1 : F → F → List F → List F → Outcome (List F)
  merge_p1 tsf p1 covered [] = do m ← merge tsf p1; erase_to covered m []
  merge_p1 tsf p1 covered (p2 ∷ above) =
      if leb_ℤ (total_period p2).start (total_period tsf).end
      then (do m ← merge tsf p1; n ← merge m p2; ok (n ∷ above))
      else (do m ← merge tsf p1; erase_to covered m (p2 ∷ above))

  -- What stands from p1 on after the call, for what stood there before.
  unfoldable pub add_at : F → List F → Outcome (List F)
  add_at tsf [] = ok (tsf ∷ [])
  add_at tsf (p1 ∷ f) =
      let p = total_period tsf in
      if ltb_ℤ p.end (total_period p1).start
      then ok (tsf ∷ p1 ∷ f)
      else (let (covered, from_p2) = split_while (ends_in p) (p1 ∷ f) in
          if leb_ℤ p.start (total_period p1).start
          then replace_p1 tsf covered from_p2
          else merge_p1 tsf p1 covered from_p2)

  unfoldable pub add : List F → F → Outcome (List F)
  add f tsf =
      let (before, from_p1) = split_while (ends_before (total_period tsf)) f in
      do g ← add_at tsf from_p1; ok (before ++ g)
