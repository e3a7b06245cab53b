-- ===== src/Cache/Lru/Linked.antt =====
-- The abstract view of `lru_cache`: its entries in the order of their last use, the most recent
-- last. `Linked` ties a state of the code to that list: the key tracker is the list's nodes, the
-- map answers as the list does, and every iterator in the map points to the node of its key.
use shyft.Prelude.{
  ℕ, none, ◌<◌, ◌≡◌, sym, ap, if_pos, if_neg, ◌≢◌, some, List, [], ◌∷◌, ◌++◌, map, ite, arith,
}
use mathlib.Core.List.{map-append}
use mathlib.Core.Path.{subst}
use shyft.Prelude.Lists.{length, length-append, All, All-append}
use shyft.Prelude.Outcome.{ok}
use shyft.Cache.Lru.{Node, Entry, LruCache, find, erase, unlink, splice_to_end}
use shyft.Cache.Lru.Keyed.{erase-IsKeyed, IsKeyed, find-append, find-erase, length-erase}

module _ {ℓ} {K V : Type ℓ} (dec : Discrete K) where
  abbrev pub node_of : Entry K V → Node K
  node_of e = record { address = e.node; key = e.key }

  -- No two entries share a node.
  abbrev pub IsPlaced : List (Entry K V) → Type 0
  IsPlaced [] = Unit
  IsPlaced (e ∷ s) = All (λ x. x.node ≢ e.node) s × IsPlaced s

  pub record Linked (c : LruCache K V) (s : List (Entry K V)) : Type ℓ where
    pub tracker : c.key_tracker ≡ map node_of s
    pub lookup : (q : K) → find dec q c.key_to_value ≡ find dec q s
    pub map_keyed : IsKeyed dec c.key_to_value
    pub keyed : IsKeyed dec s
    pub placed : IsPlaced s
    pub allocated : All (λ e. e.node < c.next_address) s
    pub count : length c.key_to_value ≡ length s

  -- The entry of the key goes to the back.
  abbrev pub touch : Entry K V → List (Entry K V) → List (Entry K V)
  touch e s = erase dec e.key s ++ e ∷ []

  pub All-find {κ} :
      (P : Entry K V → Type κ) (k : K) (s : List (Entry K V)) (e : Entry K V)
      → All P s
      → find dec k s ≡ some e
      → P e
  unfolding find
  All-find P k [] e a h = cc
  All-find P k (x ∷ s) e a h = elim (dec x.key k) [
    | yes p ↦ let same : x ≡ e = ground arith in subst P same a.0
    | no p ↦ All-find P k s e a.1 (ground arith)
  ]

  pub All-erase {κ} :
      (P : Entry K V → Type κ) (k : K) (s : List (Entry K V)) → All P s → All P (erase dec k s)
  unfolding erase
  All-erase P k [] a = tt
  All-erase P k (x ∷ s) a = elim (dec x.key k) [
    | yes p ↦ rw (if_pos _ p) a.1
    | no p ↦ rw (if_neg _ p) (a.0, All-erase P k s a.1)
  ]

  pub erase-IsPlaced : (k : K) (s : List (Entry K V)) → IsPlaced s → IsPlaced (erase dec k s)
  unfolding erase
  erase-IsPlaced k [] a = tt
  erase-IsPlaced k (x ∷ s) a = elim (dec x.key k) [
    | yes p ↦ rw (if_pos _ p) a.1
    | no p ↦ rw (if_neg _ p) (All-erase (λ y. y.node ≢ x.node) k s a.0, erase-IsPlaced k s a.1)
  ]

  pub append-IsPlaced :
      (s : List (Entry K V)) (e : Entry K V)
      → IsPlaced s
      → All (λ x. x.node ≢ e.node) s
      → IsPlaced (s ++ e ∷ [])
  append-IsPlaced [] e a n = (tt, tt)
  append-IsPlaced (x ∷ s) e a n = (
    All-append (λ y. y.node ≢ x.node) s (e ∷ []) a.0 ((λ h. n.0 (sym h)), tt),
    append-IsPlaced s e a.1 n.1,
  )

  -- Taking out the node that an entry points to takes out the node of its key.
  pub unlink-find :
      (k : K) (s : List (Entry K V)) (e : Entry K V)
      → IsPlaced s
      → find dec k s ≡ some e
      → unlink e.node (map node_of s) ≡ ok (node_of e, map node_of (erase dec k s))
  unfolding find erase unlink
  unlink-find k [] e a h = cc
  unlink-find k (x ∷ s) e a h = elim (dec x.key k) [
    | yes p ↦ ground arith
    | no p ↦
        let rest : find dec k s ≡ some e = ground arith in
        let other = All-find (λ y. y.node ≢ x.node) k s e a.0 rest in
        ground (arith, other, unlink-find k s e a.1 rest)
  ]

  pub splice-find :
      (s : List (Entry K V)) (e : Entry K V)
      → IsPlaced s
      → find dec e.key s ≡ some e
      → splice_to_end e.node (map node_of s) ≡ ok (map node_of (touch e s))
  unfolding splice_to_end
  splice-find s e a h =
      rw (unlink-find e.key s e a h) (ap ok (sym (map-append node_of (erase dec e.key s) (e ∷ []))))

  pub erase-other_nodes :
      (k : K) (s : List (Entry K V)) (e : Entry K V)
      → IsPlaced s
      → find dec k s ≡ some e
      → All (λ x. x.node ≢ e.node) (erase dec k s)
  unfolding find erase
  erase-other_nodes k [] e a h = cc
  erase-other_nodes k (x ∷ s) e a h = elim (dec x.key k) [
    | yes p ↦
        let same : x ≡ e = ground arith in
        rw (if_pos _ p) (subst (λ (e : Entry K V). All (λ y. y.node ≢ e.node) s) same a.0)
    | no p ↦
        let rest : find dec k s ≡ some e = ground arith in
        let other = All-find (λ y. y.node ≢ x.node) k s e a.0 rest in
        rw (if_neg _ p) (λ h'. other (sym h'), erase-other_nodes k s e a.1 rest)
  ]

  pub append-IsKeyed :
      (l : List (Entry K V)) (e : Entry K V)
      → IsKeyed dec l
      → find dec e.key l ≡ none
      → IsKeyed dec (l ++ e ∷ [])
  unfolding find
  append-IsKeyed [] e u h = (ground arith, tt)
  append-IsKeyed (x ∷ l) e u h =
      (rw (find-append dec x.key l (e ∷ [])) (ground arith), append-IsKeyed l e u.1 (ground arith))

  -- An entry with the key and the node of one that is there, and any value, goes to the back.
  pub touch-IsPlaced :
      (s : List (Entry K V)) (e : Entry K V) (v : V)
      → IsPlaced s
      → find dec e.key s ≡ some e
      → IsPlaced (touch (record e { value = v }) s)
  touch-IsPlaced s e v a h =
      append-IsPlaced (erase dec e.key s) (record e { value = v }) (erase-IsPlaced e.key s a)
        (erase-other_nodes e.key s e a h)

  pub touch-IsKeyed :
      (s : List (Entry K V)) (e : Entry K V) → IsKeyed dec s → IsKeyed dec (touch e s)
  unfolding find
  touch-IsKeyed s e u =
      append-IsKeyed (erase dec e.key s) e (erase-IsKeyed dec e.key s u)
        (rw (find-erase dec e.key e.key s u) (ground arith))

  pub touch-allocated :
      (n : ℕ) (s : List (Entry K V)) (e : Entry K V)
      → All (λ x. x.node < n) s
      → e.node < n
      → All (λ x. x.node < n) (touch e s)
  touch-allocated n s e a h =
      All-append (λ x. x.node < n) (erase dec e.key s) (e ∷ [])
        (All-erase (λ x. x.node < n) e.key s a) (h, tt)

  module _ (q : K) (s : List (Entry K V)) (u : IsKeyed dec s) where
    -- A touched entry is found, and every other key is found as before.
    pub find-touch :
        (e : Entry K V) → find dec q (touch e s) ≡ ite (dec q e.key) (some e) (find dec q s)
    unfolding find
    find-touch e =
        rw (find-append dec q (erase dec e.key s) (e ∷ []), find-erase dec q e.key s u)
          (ground arith)

    pub length-touch :
        (e e' : Entry K V) → find dec e.key s ≡ some e' → length (touch e s) ≡ length s
    length-touch e e' h =
        omega (arith, length-append (erase dec e.key s) (e ∷ []), length-erase dec e.key s e' h)
