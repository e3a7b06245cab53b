-- ===== src/Cache/Lru/Methods.antt =====
-- What the steps of the operations of `lru_cache` do to the abstract view.
use shyft.Prelude.{
  ◌+◌, ◌<◌, ◌≡◌, refl, sym, ◌≢◌, none, some, List, [], ◌∷◌, ◌++◌, map, ite, if_pos, ◌∙◌, arith,
}
use mathlib.Core.List.{map-append}
use mathlib.Core.Path.{subst}
use shyft.Prelude.Lists.{length, length-append, All-append, All-map}
use shyft.Prelude.Outcome.{>>=-eq-ok, ok-injective, ok, throw, runtime_error}
use shyft.Cache.Lru.{
  splice_to_end, Entry, LruCache, find, erase, assign, get_item, add_item, append, evict,
  remove_item,
}
use shyft.Cache.Lru.Keyed.{
  IsKeyed, find-key, find-append, find-erase, erase-IsKeyed, length-erase, find-assign,
  assign-IsKeyed, length-assign,
}
use shyft.Cache.Lru.Linked.{
  node_of, Linked, touch, All-find, All-erase, erase-IsPlaced, append-IsPlaced, unlink-find,
  splice-find, append-IsKeyed, touch-IsPlaced, touch-IsKeyed, touch-allocated, find-touch,
  length-touch,
}

module _ {ℓ} {K V : Type ℓ} (dec : Discrete K) where
  module _ (c : LruCache K V) (s : List (Entry K V)) (L : Linked dec c s) where
    -- The state after the node of a found entry went to the back and its value became `v`.
    touched-Linked :
        (e : Entry K V) (v : V) (items : List (Entry K V))
        → find dec e.key s ≡ some e
        → ((q : K)
            → find dec q items ≡ ite (dec q e.key) (some (record e { value = v })) (find dec q s))
        → IsKeyed dec items
        → length items ≡ length s
        → Linked dec
            (record c { key_tracker = map (node_of dec) (touch dec e s); key_to_value = items })
            (touch dec (record e { value = v }) s)
    touched-Linked e v items h finds u n = record {
      tracker = simp map-append;
      lookup = λ q. finds q ∙ sym (find-touch dec q s L.keyed (record e { value = v }));
      map_keyed = u;
      keyed = touch-IsKeyed dec s (record e { value = v }) L.keyed;
      placed = touch-IsPlaced dec s e v L.placed h;
      allocated =
          touch-allocated dec c.next_address s (record e { value = v }) L.allocated
            (All-find dec (λ x. x.node < c.next_address) e.key s e L.allocated h);
      count = n ∙ sym (length-touch dec e.key s L.keyed (record e { value = v }) e h);
    }

    own_key : (k : K) (e : Entry K V) → find dec k s ≡ some e → find dec e.key s ≡ some e
    own_key k e h = subst (λ q. find dec q s ≡ some e) (sym (find-key dec k s e h)) h

    -- A hit returns the value of the key, and makes the key the most recently used.
    pub get_item_hit :
        (k : K) (e : Entry K V)
        → find dec k s ≡ some e
        → (c' : LruCache K V) × (get_item dec c k ≡ ok (c', e.value))
          × Linked dec c' (touch dec e s)
          × (c'.capacity ≡ c.capacity)
    unfolding get_item
    get_item_hit k e h = (
      record c { key_tracker = map (node_of dec) (touch dec e s) },
      rw (L.lookup k, get_item, h, L.tracker, splice-find dec s e L.placed (own_key k e h)),
      touched-Linked e e.value c.key_to_value (own_key k e h)
          (λ q. ground (arith, L.lookup q, own_key k e h)) L.map_keyed L.count,
      refl,
    )

    pub get_item_miss : (k : K) → find dec k s ≡ none → get_item dec c k ≡ throw runtime_error
    unfolding get_item
    get_item_miss k h = rw (L.lookup k, get_item, h)

    -- An update stores the new value, and makes the key the most recently used.
    pub add_item_hit :
        (k : K) (v : V) (e : Entry K V)
        → find dec k s ≡ some e
        → (c' : LruCache K V) × (add_item dec c k v ≡ ok c')
          × Linked dec c' (touch dec (record e { value = v }) s)
          × (c'.capacity ≡ c.capacity)
    unfolding add_item
    add_item_hit k v e h = (
      record c {
        key_tracker = map (node_of dec) (touch dec e s);
        key_to_value = assign dec k v c.key_to_value;
      },
      rw (L.lookup k, add_item, h, L.tracker, splice-find dec s e L.placed (own_key k e h)),
      touched-Linked e v (assign dec k v c.key_to_value) (own_key k e h)
          (λ q.
            find-assign dec q k v c.key_to_value
            ∙ ground (arith, L.lookup q, h, find-key dec k s e h))
          (assign-IsKeyed dec k v c.key_to_value L.map_keyed)
          (length-assign dec k v c.key_to_value ∙ L.count),
      refl,
    )

    pub remove_item_hit :
        (k : K) (e : Entry K V)
        → find dec k s ≡ some e
        → (c' : LruCache K V) × (remove_item dec c k ≡ ok c')
          × Linked dec c' (erase dec k s)
          × (c'.capacity ≡ c.capacity)
    unfolding remove_item
    remove_item_hit k e h = (
      record c {
        key_tracker = map (node_of dec) (erase dec k s);
        key_to_value = erase dec k c.key_to_value;
      },
      rw (L.lookup k, remove_item, h, L.tracker, unlink-find dec k s e L.placed h),
      record {
        tracker = refl;
        lookup = λ q. rw (
          find-erase dec q k c.key_to_value L.map_keyed,
          find-erase dec q k s L.keyed,
          L.lookup q,
        );
        map_keyed = erase-IsKeyed dec k c.key_to_value L.map_keyed;
        keyed = erase-IsKeyed dec k s L.keyed;
        placed = erase-IsPlaced dec k s L.placed;
        allocated = All-erase dec (λ x. x.node < c.next_address) k s L.allocated;
        count = omega (
          arith,
          length-erase dec k s e h,
          length-erase dec k c.key_to_value e (L.lookup k ∙ h),
          L.count,
        );
      },
      refl,
    )

    -- A new entry goes to the back.
    pub append-Linked :
        (k : K) (v : V)
        → find dec k s ≡ none
        → Linked dec
            (append dec c k v)
            (s ++ record { key = k; value = v; node = c.next_address } ∷ [])
    unfolding append find
    append-Linked k v h = record {
      tracker = rw (map-append, L.tracker);
      lookup = λ q.
          rw (find-append dec q s (record { key = k; value = v; node = c.next_address } ∷ []))
            (ground (arith, L.lookup q));
      map_keyed = (L.lookup k ∙ h, L.map_keyed);
      keyed = append-IsKeyed dec s (record { key = k; value = v; node = c.next_address }) L.keyed h;
      placed =
          append-IsPlaced dec s (record { key = k; value = v; node = c.next_address }) L.placed
            (All-map (λ x. x.node < c.next_address) (λ x. x.node ≢ c.next_address) s
              (λ x h. omega arith) L.allocated);
      allocated =
          All-append (λ x. x.node < c.next_address + 1) s
            (record { key = k; value = v; node = c.next_address } ∷ [])
            (All-map (λ x. x.node < c.next_address) (λ x. x.node < c.next_address + 1) s
              (λ x h. omega arith) L.allocated)
            (omega arith, tt);
      count = omega (
        arith,
        L.count,
        length-append s (record { key = k; value = v; node = c.next_address } ∷ []),
      );
    }

  -- The least recently used entry is the one that goes.
  pub evict-Linked :
      (c : LruCache K V) (e : Entry K V) (s : List (Entry K V))
      → Linked dec c (e ∷ s)
      → (c' : LruCache K V) × (evict dec c ≡ ok c')
        × Linked dec c' s
        × (c'.capacity ≡ c.capacity)
        × (c'.next_address ≡ c.next_address)
  unfolding evict find
  evict-Linked c e s L =
      let there : find dec e.key c.key_to_value ≡ some e =
        L.lookup e.key ∙ if_pos (dec e.key e.key) refl _ _ in
      let fewer = length-erase dec e.key c.key_to_value e there in
      (
        record c {
          key_tracker = map (node_of dec) s;
          key_to_value = erase dec e.key c.key_to_value;
        },
        ground (arith, L.tracker, there),
        record {
          tracker = refl;
          lookup = λ q.
              rw (find-erase dec q e.key c.key_to_value L.map_keyed)
                (ground (arith, L.lookup q, L.keyed.0));
          map_keyed = erase-IsKeyed dec e.key c.key_to_value L.map_keyed;
          keyed = L.keyed.1;
          placed = L.placed.1;
          allocated = L.allocated.1;
          count = omega (arith, fewer, L.count);
        },
        refl,
        refl,
      )

  -- An update does what a read does, and then assigns through the reference that the read returns.
  pub add_item-as_get_item :
      (c c' : LruCache K V) (k : K) (v : V) (e : Entry K V)
      → find dec k c.key_to_value ≡ some e
      → add_item dec c k v ≡ ok c'
      → (r : LruCache K V) × (get_item dec c k ≡ ok (r, e.value))
        × (record r { key_to_value = assign dec k v r.key_to_value } ≡ c')
  unfolding add_item get_item
  add_item-as_get_item c c' k v e h done =
      let (l, spliced, same) =
        >>=-eq-ok (splice_to_end e.node c.key_tracker)
          (λ l. ok (record c { key_tracker = l; key_to_value = assign dec k v c.key_to_value }))
          (rw (h, add_item) at done) in
      (record c { key_tracker = l }, rw (h, get_item, spliced), ok-injective same)
