-- ===== src/Cache/Lru/Keyed.antt =====
-- Lists of entries with one entry for each key: what a lookup finds after each change.
use shyft.Prelude.{◌+◌, ◌≡◌, refl, Option, none, some, List, [], ◌∷◌, ◌++◌, ite, arith}
use shyft.Prelude.Lists.{length}
use shyft.Cache.Lru.{Entry, find, erase, assign}

module _ {ℓ} {K V : Type ℓ} (dec : Discrete K) where
  -- No key stands in two entries.
  abbrev pub IsKeyed : List (Entry K V) → Type ℓ
  IsKeyed [] = Unit
  IsKeyed (e ∷ l) = (find dec e.key l ≡ none) × IsKeyed l

  abbrev pub with_value : V → Option (Entry K V) → Option (Entry K V)
  with_value v none = none
  with_value v (some e) = some (record e { value = v })

  abbrev pub or_else : Option (Entry K V) → Option (Entry K V) → Option (Entry K V)
  or_else none o = o
  or_else (some e) o = some e

  pub find-key : (k : K) (l : List (Entry K V)) (e : Entry K V) → find dec k l ≡ some e → e.key ≡ k
  unfolding find
  find-key k [] e h = cc
  find-key k (x ∷ l) e h = ground (arith, find-key k l e)

  pub find-append :
      (q : K) (l r : List (Entry K V)) → find dec q (l ++ r) ≡ or_else (find dec q l) (find dec q r)
  unfolding find
  find-append q [] r = refl
  find-append q (e ∷ l) r = ground (arith, find-append q l r)

  pub find-erase :
      (q k : K) (l : List (Entry K V))
      → IsKeyed l
      → find dec q (erase dec k l) ≡ ite (dec q k) none (find dec q l)
  unfolding find erase
  find-erase q k [] u = ground arith
  find-erase q k (e ∷ l) u = ground (arith, find-erase q k l)

  pub erase-IsKeyed : (k : K) (l : List (Entry K V)) → IsKeyed l → IsKeyed (erase dec k l)
  unfolding find erase
  erase-IsKeyed k [] u = tt
  erase-IsKeyed k (e ∷ l) u = ground (arith, erase-IsKeyed k l, find-erase e.key k l u.1)

  pub length-erase :
      (k : K) (l : List (Entry K V)) (e : Entry K V)
      → find dec k l ≡ some e
      → length (erase dec k l) + 1 ≡ length l
  unfolding find erase
  length-erase k [] e h = cc
  length-erase k (x ∷ l) e h = ground (arith, length-erase k l e)

  pub find-assign :
      (q k : K) (v : V) (l : List (Entry K V))
      → find dec q (assign dec k v l) ≡ ite (dec q k) (with_value v (find dec q l)) (find dec q l)
  unfolding find assign
  find-assign q k v [] = ground arith
  find-assign q k v (e ∷ l) = ground (arith, find-assign q k v l)

  pub assign-IsKeyed :
      (k : K) (v : V) (l : List (Entry K V)) → IsKeyed l → IsKeyed (assign dec k v l)
  unfolding find assign
  assign-IsKeyed k v [] u = tt
  assign-IsKeyed k v (e ∷ l) u = ground (arith, assign-IsKeyed k v l, find-assign e.key k v l)

  pub length-assign : (k : K) (v : V) (l : List (Entry K V)) → length (assign dec k v l) ≡ length l
  unfolding assign
  length-assign k v [] = refl
  length-assign k v (e ∷ l) = ground (arith, length-assign k v l)

  pub erase_absent : (k : K) (l : List (Entry K V)) → find dec k l ≡ none → erase dec k l ≡ l
  unfolding find erase
  erase_absent k [] h = refl
  erase_absent k (e ∷ l) h = ground (arith, erase_absent k l)
