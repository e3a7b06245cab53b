-- ===== src/Cache/Store/Invariant.antt =====
-- The invariant of `cache`: a linked lru cache whose containers are in order and apart.
use shyft.Prelude.{
  ℕ, ◌≡◌, refl, ◌∙◌, inl, inr, true, false, Option, none, some, List, [], ◌∷◌, arith,
}
use shyft.Prelude.Tests.{Option-cases}
use shyft.Prelude.Lists.{All, All-append}
use shyft.Prelude.Int.{pos, ◌-ℤ◌, min_ℤ, ◌<ℤ◌, -ℤ_parts}
use shyft.Prelude.Outcome.{ok}
use shyft.Utc.{UtcTime, UtcPeriod}
use shyft.Cache.Lru
use shyft.Cache.Lru.{LruCache, Entry, find}
use shyft.Cache.Lru.Linked.{touch, All-find, All-erase}
use shyft.Cache.Lru.Operations.{IsLru, get_item_parts}
use shyft.Cache.Fragments
use shyft.Cache.Fragments.{Fragment}
use shyft.Cache.Fragments.Order.{IsApart, IsApart-mono}
use shyft.Cache.Fragments.Merge.{Overlays, HasKept}
use shyft.Cache.Fragments.Find.{CoveredBy, get_ix_iff}
use shyft.Cache.Fragments.Add.{add-IsAdded}
use shyft.Cache.Store.{Cache, hit, miss, coverage_miss, internal_try_get, read_fragment, try_get}

module _ {ℓ} {F V : Type ℓ} (T : Fragment F V) where
  open T use {total_period, IsFragment}

  -- In order and apart, with some time before all of them.
  abbrev pub IsMinimal : List F → Type ℓ
  IsMinimal f = (b : UtcTime) × IsApart T b f

  pub add-IsMinimal :
      (x : F) (f g : List F)
      → IsFragment x
      → IsMinimal f
      → Fragments.add T f x ≡ ok g
      → IsMinimal g × Overlays T x f g × HasKept T x g
  add-IsMinimal x f g fx (b, a) e =
      let c = min_ℤ b ((total_period x).start -ℤ pos 1) in
      let below : c <ℤ (total_period x).start =
        ground (arith, -ℤ_parts (total_period x).start (pos 1)) in
      let added = add-IsAdded T c x f g fx below (IsApart-mono T c b f (ground arith) a) e in
      ((c, added.apart), added.overlays, added.kept)

  module _ {K : Type ℓ} (dec : Discrete K) where
    -- A state of the cache, with its entries in the order of their last use.
    pub record IsCache (self : Cache K F) (s : List (Entry K (List F))) : Type ℓ where
      pub lru : IsLru dec self.c s
      pub minimal : All (λ e. IsMinimal e.value) s

    -- What `try_get` answers, and the state after it, for the entry that the list has for the id.
    abbrev pub IsTried :
        Cache K F
        → List (Entry K (List F))
        → UtcPeriod
        → Option (Entry K (List F))
        → Option F
        → Cache K F
        → Type ℓ
    IsTried self s p none answer self' =
        (answer ≡ none) × (self' ≡ record self { cs = miss dec T self.cs })
    IsTried self s p (some e) none self' =
        ((i : ℕ) (x : F) → ¬ CoveredBy T p i x e.value)
        × IsCache self' (touch dec e s)
        × (self'.cs ≡ coverage_miss dec T (hit dec T self.cs))
    IsTried self s p (some e) (some x) self' =
        ((i : ℕ) × CoveredBy T p i x e.value)
        × IsCache self' (touch dec e s)
        × (self'.cs ≡ hit dec T self.cs)

    module _ (self : Cache K F) (s : List (Entry K (List F))) (C : IsCache self s) (id : K) where
      -- `item_exists` tells whether the id is in the list.
      pub item_exists-none : find dec id s ≡ none → Lru.item_exists dec self.c id ≡ false
      unfolding Lru.item_exists
      item_exists-none h = rw (C.lru.linked.lookup id ∙ h, Lru.item_exists)

      pub item_exists-some :
          (e : Entry K (List F)) → find dec id s ≡ some e → Lru.item_exists dec self.c id ≡ true
      unfolding Lru.item_exists
      item_exists-some e h = rw (C.lru.linked.lookup id ∙ h, Lru.item_exists)

      touched-IsMinimal :
          (e : Entry K (List F))
          → find dec id s ≡ some e
          → All (λ e. IsMinimal e.value) (touch dec e s)
      touched-IsMinimal e h =
          All-append (λ e. IsMinimal e.value) (Lru.erase dec e.key s) (e ∷ [])
            (All-erase dec (λ e. IsMinimal e.value) e.key s C.minimal)
            (All-find dec (λ e. IsMinimal e.value) id s e C.minimal h, tt)

      -- An id that is not cached is a miss, and changes nothing but the counter.
      pub try_get-miss :
          (p : UtcPeriod)
          → find dec id s ≡ none
          → try_get dec T self id p ≡ ok (record self { cs = miss dec T self.cs }, none)
      unfolding try_get internal_try_get
      try_get-miss p h = rw (item_exists-none h)

      -- A cached id is a hit, and becomes the most recently used. If one of its fragments covers
      -- the period, that fragment is returned; if none does, the coverage miss is counted.
      pub try_get-hit :
          (p : UtcPeriod) (e : Entry K (List F))
          → find dec id s ≡ some e
          → ((i : ℕ) (x : F)
              → CoveredBy T p i x e.value
              → (self' : Cache K F) × (try_get dec T self id p ≡ ok (self', some x))
                × IsCache self' (touch dec e s)
                × (self'.cs ≡ hit dec T self.cs))
            × (((i : ℕ) (x : F) → ¬ CoveredBy T p i x e.value)
                → (self' : Cache K F) × (try_get dec T self id p ≡ ok (self', none))
                  × IsCache self' (touch dec e s)
                  × (self'.cs ≡ coverage_miss dec T (hit dec T self.cs)))
      unfolding try_get internal_try_get read_fragment
      try_get-hit p e h =
          let (c', got, L') = (get_item_parts dec self.c s C.lru id).0 e h in
          let (b, apart) = All-find dec (λ e. IsMinimal e.value) id s e C.minimal h in
          (
            λ i x cover.
                let at_ix : Fragments.get_ix T e.value p ≡ some i =
                  (get_ix_iff T p b e.value i apart).1 (x, cover) in
                (
                  record { c = c'; cs = hit dec T self.cs },
                  rw (item_exists-some e h, got, at_ix, read_fragment, cover.0),
                  record { lru = L'; minimal = touched-IsMinimal e h },
                  refl,
                ),
            λ no_cover. elim (Option-cases (Fragments.get_ix T e.value p)) [
              | inl nowhere ↦ (
                record { c = c'; cs = coverage_miss dec T (hit dec T self.cs) },
                rw (item_exists-some e h, got, nowhere),
                record { lru = L'; minimal = touched-IsMinimal e h },
                refl,
              )
              | inr (i, at_ix) ↦
                  let (x, cover) = (get_ix_iff T p b e.value i apart).0 at_ix in
                  absurd (no_cover i x cover)
            ],
          )

      -- In a state with the invariant, `try_get` always returns. An id that is not cached is a miss, and changes nothing but the
      -- counter. A cached id is a hit, and becomes the most recently used: the answer is a
      -- fragment of it that covers the period, or, counted as a coverage miss, none if no
      -- fragment of it does.
      pub try_get_lem :
          (p : UtcPeriod)
          → (self' : Cache K F) × (answer : Option F) × (try_get dec T self id p
              ≡ ok (self', answer))
            × IsTried self s p (find dec id s) answer self'
      try_get_lem p = elim (Option-cases (find dec id s)) [
        | inl h ↦ (
          record self { cs = miss dec T self.cs },
          none,
          try_get-miss p h,
          rw (h, IsTried) (refl, refl),
        )
        | inr (e, h) ↦
            let (b, apart) = All-find dec (λ e. IsMinimal e.value) id s e C.minimal h in
            elim (Option-cases (Fragments.get_ix T e.value p)) [
              | inl nowhere ↦
                  let no_cover : (i : ℕ) (x : F) → ¬ CoveredBy T p i x e.value =
                    λ i x cover. cc ((get_ix_iff T p b e.value i apart).1 (x, cover)) in
                  let (self', got, C', stats) = (try_get-hit p e h).1 no_cover in
                  (self', none, got, rw (h, IsTried) (no_cover, C', stats))
              | inr (i, at_ix) ↦
                  let (x, cover) = (get_ix_iff T p b e.value i apart).0 at_ix in
                  let (self', got, C', stats) = (try_get-hit p e h).0 i x cover in
                  (self', some x, got, rw (h, IsTried) ((i, cover), C', stats))
            ]
      ]
