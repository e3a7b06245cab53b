-- ===== src/Cache/Store/Add.antt =====
-- `add` of `cache`, and what `try_get` reads after it.
use shyft.Prelude.{◌≡◌, refl, ap, ◌∙◌, inl, inr, true, Option, none, some, List, []}
use shyft.Prelude.Tests.{Option-cases}
use shyft.Prelude.Outcome.{ok}
use shyft.Utc.{UtcTime, UtcPeriod, contains, contains_period, no_utctime}
use shyft.Utc.Period.{contains-of_contains_period, contains_period_wider}
use shyft.Cache.Lru
use shyft.Cache.Lru.{LruCache, Entry, find}
use shyft.Cache.Lru.Linked.{All-find}
use shyft.Cache.Lru.Methods.{add_item-as_get_item}
use shyft.Cache.Lru.Operations.{add_item_lem, added, find-added_self, All-added}
use shyft.Cache.Fragments
use shyft.Cache.Fragments.{Fragment}
use shyft.Cache.Fragments.Merge.{Overlays, HasKept}
use shyft.Cache.Fragments.Find.{get_elem?-IsApart}
use shyft.Cache.Fragments.Returns.{Merges, add-Returns}
use shyft.Cache.Store.{Cache, hit, add, internal_add, try_get}
use shyft.Cache.Store.Invariant.{
  IsMinimal, add-IsMinimal, IsCache, item_exists-none, item_exists-some, try_get-hit,
}

module _ {ℓ} {F V : Type ℓ} (T : Fragment F V) {K : Type ℓ} (dec : Discrete K) where
  open T use {total_period, IsFragment, value_at, valid-total_period}

  -- The fragments of an id that is cached or not.
  abbrev pub fragments_in : Option (Entry K (List F)) → List F
  fragments_in none = []
  fragments_in (some e) = e.value

  abbrev pub fragments_of : K → List (Entry K (List F)) → List F
  fragments_of id s = fragments_in (find dec id s)

  module _ (self : Cache K F) (s : List (Entry K (List F))) (C : IsCache T dec self s) where
    fragments_of-IsMinimal : (id : K) → IsMinimal T (fragments_of id s)
    fragments_of-IsMinimal id = elim (Option-cases (find dec id s)) [
      | inl h ↦ rw (h, fragments_in) (no_utctime, tt)
      | inr (e, h) ↦
          rw (h, fragments_in) (All-find dec (λ e. IsMinimal T e.value) id s e C.minimal h)
    ]

    -- Whether the id is cached or not, the new container goes in as the lru cache would add it.
    internal_add-add_item :
        (id : K) (x : F) (g : List F)
        → Fragments.add T (fragments_of id s) x ≡ ok g
        → (c' : LruCache K (List F)) → Lru.add_item dec self.c id g ≡ ok c'
        → internal_add dec T self id x ≡ ok (record self { c = c' })
    unfolding internal_add
    internal_add-add_item id x g e c' e' = elim (Option-cases (find dec id s)) [
      | inl h ↦
          let first : Fragments.add T [] x ≡ ok g = rw (h, fragments_in) at e in
          rw (item_exists-none T dec self s C id h, first, e')
      | inr (y, h) ↦
          let next : Fragments.add T y.value x ≡ ok g = rw (h, fragments_in) at e in
          let (r, got, same) =
            add_item-as_get_item dec self.c c' id g y (C.lru.linked.lookup id ∙ h) e' in
          rw (item_exists-some T dec self s C id y h, got, next)
            (ap (λ c. ok (record self { c = c })) same)
    ]

    -- In a state with the invariant, if fragments that overlap or touch can be merged, `add` of a
    -- well-formed fragment returns. It overlays the values
    -- cached for the id with those of the new fragment, keeps one fragment that covers the new
    -- one, and keeps the invariant, under which the container of the id is the most recently used.
    pub add_lem :
        (id : K) (x : F)
        → Merges T
        → IsFragment x
        → (self' : Cache K F) × (g : List F) × (add dec T self id x ≡ ok self')
          × IsCache T dec self' (added dec self.c.capacity self.c.next_address id g s)
          × Overlays T x (fragments_of id s) g
          × HasKept T x g
          × (self'.cs ≡ self.cs)
    unfolding add
    add_lem id x merges fx =
        let (b, apart) = fragments_of-IsMinimal id in
        let (g, e) = add-Returns T b x (fragments_of id s) merges fx apart in
        let (minimal, overlays, kept) = add-IsMinimal T x (fragments_of id s) g fx (b, apart) e in
        let (c', e', L, _) = add_item_lem dec self.c s C.lru id g in
        (
          record self { c = c' },
          g,
          internal_add-add_item id x g e c' e',
          record {
            lru = L;
            minimal =
                All-added dec (IsMinimal T) self.c.capacity self.c.next_address id g s C.minimal
                  minimal;
          },
          overlays,
          kept,
          refl,
        )

    -- What was added is read back, in a state with the invariant, if fragments that overlap or touch
    -- can be merged and the new one is well formed: a `try_get` of the id after the `add`, with any period that the
    -- new fragment covers, is a hit, and its values on that period are those of the new fragment.
    pub try_get-add :
        (id : K) (x : F) (p : UtcPeriod)
        → Merges T
        → IsFragment x
        → contains_period (total_period x) p ≡ true
        → (self' self'' : Cache K F) × (y : F) × (add dec T self id x ≡ ok self')
          × (try_get dec T self' id p ≡ ok (self'', some y))
          × (self''.cs ≡ hit dec T self.cs)
          × ((t : UtcTime) → contains p t ≡ true → value_at y t ≡ value_at x t)
    try_get-add id x p merges fx cover =
        let (self', g, e, C', _, (k, y, at_k, keeps), same) = add_lem id x merges fx in
        let s' = added dec self.c.capacity self.c.next_address id g s in
        let (entry, found, value_is) =
          find-added_self dec self.c.capacity self.c.next_address id g s C.lru.linked.keyed in
        let wide : contains_period (total_period y) p ≡ true =
          let (b, apart) = All-find dec (λ e. IsMinimal T e.value) id s' entry C'.minimal found in
          contains_period_wider (total_period x) (total_period y) p
            (valid-total_period y
              (get_elem?-IsApart T p b entry.value k y apart (rw value_is at_k)).0)
            keeps.0 keeps.1 cover in
        let (self'', got, _, stats) =
          (try_get-hit T dec self' s' C' id p entry found).0 k y (rw value_is (at_k, wide)) in
        (
          self',
          self'',
          y,
          e,
          got,
          stats ∙ ap (hit dec T) same,
          λ t h. keeps.2 t (contains-of_contains_period (total_period x) p t cover h),
        )
