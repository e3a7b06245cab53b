-- ===== src/Cache/Fragments/Order.antt =====
-- The invariant of `mini_frag`, and what the two searches of `add` leave out.
use shyft.Prelude.{◌≡◌, refl, inl, inr, Bool, true, false, Option, none, some, List, [], ◌∷◌, arith}
use shyft.Prelude.Tests.{if◌then◌else◌, Bool-cases}
use shyft.Prelude.Int.{◌≤ℤ◌, ◌<ℤ◌}
use shyft.Utc.{UtcTime, UtcPeriod, contains, valid}
use shyft.Utc.Period.{contains-of_within}
use shyft.Cache.Fragments.{Fragment, split_while, ends_in}

module _ {ℓ} {F V : Type ℓ} (T : Fragment F V) where
  open T use {total_period, IsFragment, valid-total_period, value_at}

  -- In order of time, each strictly after the end of the one before it, the first after `b`.
  abbrev pub IsApart : UtcTime → List F → Type ℓ
  IsApart b [] = Unit
  IsApart b (x ∷ f) = IsFragment x × (b <ℤ (total_period x).start) × IsApart (total_period x).end f

  -- The fragment that covers a time.
  abbrev pub find_at : List F → UtcTime → Option F
  find_at [] t = none
  find_at (x ∷ f) t = if contains (total_period x) t then some x else find_at f t

  -- The elements from `upper_bound` for the end of `p` on.
  abbrev pub from_p2 : UtcPeriod → List F → List F
  from_p2 p f = (split_while T (ends_in T p) f).1

  -- What the second search finds: a fragment that ends after `p`, then what follows it.
  abbrev pub EndsAfter : UtcTime → UtcPeriod → List F → Type ℓ
  EndsAfter b p [] = Unit
  EndsAfter b p (y ∷ f) =
      IsFragment y
      × (b <ℤ (total_period y).start)
      × (p.end <ℤ (total_period y).end)
      × IsApart (total_period y).end f

  pub IsApart-mono : (b c : UtcTime) (f : List F) → b ≤ℤ c → IsApart c f → IsApart b f
  IsApart-mono b c [] h a = tt
  IsApart-mono b c (x ∷ f) h a = (a.0, omega arith, a.2)

  pub start-le-end : (x : F) → IsFragment x → (total_period x).start ≤ℤ (total_period x).end
  unfolding valid
  start-le-end x g = ground (arith, valid-total_period x g)

  pub split_nil : (test : F → Bool) → split_while T test [] ≡ ([], [])
  unfolding split_while
  split_nil test = refl

  pub split_pass :
      (test : F → Bool) (x : F) (f : List F)
      → test x ≡ true
      → split_while T test (x ∷ f) ≡ (x ∷ (split_while T test f).0, (split_while T test f).1)
  unfolding split_while
  split_pass test x f h = rw h

  pub split_stop :
      (test : F → Bool) (x : F) (f : List F)
      → test x ≡ false
      → split_while T test (x ∷ f) ≡ ([], x ∷ f)
  unfolding split_while
  split_stop test x f h = rw h

  pub EndsAfter-from_p2 :
      (b : UtcTime) (p : UtcPeriod) (f : List F) → IsApart b f → EndsAfter b p (from_p2 p f)
  EndsAfter-from_p2 b p [] a = rw (split_nil (ends_in T p), EndsAfter) tt
  EndsAfter-from_p2 b p (x ∷ f) a = elim (Bool-cases (ends_in T p x)) [
    | inl c ↦
        rw (split_pass (ends_in T p) x f c, EndsAfter)
          (EndsAfter-from_p2 b p f (IsApart-mono b (total_period x).end f (later x a) a.2))
    | inr c ↦ rw (split_stop (ends_in T p) x f c, EndsAfter) (a.0, a.1, ground arith, a.2)
  ]
    where
      later :
          (x : F)
          → IsFragment x × (b <ℤ (total_period x).start) × IsApart (total_period x).end f
          → b ≤ℤ (total_period x).end
      later x a = omega (arith, start-le-end x a.0)

  abbrev pub StartsIn : UtcPeriod → List F → Type 0
  StartsIn p [] = Unit
  StartsIn p (x ∷ f) = p.start ≤ℤ (total_period x).start

  pub StartsIn-of_IsApart :
      (b : UtcTime) (p : UtcPeriod) (f : List F) → p.start ≤ℤ b → IsApart b f → StartsIn p f
  StartsIn-of_IsApart b p [] h a = tt
  StartsIn-of_IsApart b p (x ∷ f) h a = omega arith

  -- Past the start of `p`, the fragments that end in it cover no time outside it.
  pub find_at-from_p2 :
      (b : UtcTime) (p : UtcPeriod) (f : List F) (t : UtcTime)
      → valid p ≡ true
      → IsApart b f
      → StartsIn p f
      → contains p t ≡ false
      → find_at f t ≡ find_at (from_p2 p f) t
  find_at-from_p2 b p [] t v a s o = rw (split_nil (ends_in T p), find_at)
  find_at-from_p2 b p (x ∷ f) t v a s o = elim (Bool-cases (ends_in T p x)) [
    | inl c ↦
        let out : contains (total_period x) t ≡ false =
          contains-of_within p (total_period x) t v (valid-total_period x a.0) s (ground arith) o in
        rw (split_pass (ends_in T p) x f c, out, find_at)
          (find_at-from_p2 (total_period x).end p f t v a.2
            (StartsIn-of_IsApart (total_period x).end p f (omega (arith, start-le-end x a.0)) a.2)
            o)
    | inr c ↦ rw (split_stop (ends_in T p) x f c, find_at)
  ]
