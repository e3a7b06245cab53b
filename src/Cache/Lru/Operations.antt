-- ===== src/Cache/Lru/Operations.antt =====
-- The contract of `lru_cache`: a bounded list of entries in the order of their last use.
use shyft.Prelude.{
  zero, suc, ℕ, ◌-◌, ◌≤◌, ◌<◌, ◌≡◌, refl, ap, inl, inr, true, false, List, [], ◌∷◌, ◌++◌, none,
  some, arith, ◌∙◌, sym, map, Option,
}
use mathlib.Core.List.{reverse, map-map}
use mathlib.Core.Path.{subst}
use shyft.Prelude.Tests.{ltb, leb, ◌==◌, Bool-cases, Option-cases}
use shyft.Prelude.Lists.{drop, All, All-append, All-drop, length, length-append}
use shyft.Prelude.Outcome.{Outcome, ok, throw, runtime_error}
use shyft.Cache.Lru.{
  Entry, LruCache, find, erase, get_item, add_item, insert, append, remove_item, set_capacity,
  get_mru_keys,
}
use shyft.Cache.Lru.Keyed.{IsKeyed, find-append, erase_absent, find-key, length-erase}
use shyft.Cache.Lru.Linked.{All-erase, find-touch, Linked, touch, length-touch}
use shyft.Cache.Lru.Methods.{
  append-Linked, evict-Linked, get_item_hit, get_item_miss, add_item_hit, remove_item_hit,
}
use shyft.Cache.Lru.Capacity.{
  most_recent, most_recent_all, most_recent-cons, length-most_recent, evict_down-Linked,
}

module _ {ℓ} {K V : Type ℓ} (dec : Discrete K) where
  -- A state of the code, with its entries in the order of their last use.
  pub record IsLru (c : LruCache K V) (s : List (Entry K V)) : Type ℓ where
    pub linked : Linked dec c s
    pub positive : 0 < c.capacity
    pub bounded : length s ≤ c.capacity

  -- The list after `add_item`.
  unfoldable pub added : ℕ → ℕ → K → V → List (Entry K V) → List (Entry K V)
  added limit address k v s = elim (find dec k s) [
    | none ↦ most_recent (limit - 1) s ++ record { key = k; value = v; node = address } ∷ []
    | some e ↦ touch dec (record e { value = v }) s
  ]

  find-drop :
      (q : K) (n : ℕ) (s : List (Entry K V)) → find dec q s ≡ none → find dec q (drop n s) ≡ none
  unfolding find
  find-drop q zero s h = h
  find-drop q (suc n) [] h = h
  find-drop q (suc n) (e ∷ s) h = find-drop q n s (ground arith)

  with_capacity :
      (c : LruCache K V) (limit : ℕ) (s : List (Entry K V))
      → Linked dec c s
      → Linked dec (record c { capacity = limit }) s
  with_capacity c limit s L = record {
    tracker = L.tracker;
    lookup = L.lookup;
    map_keyed = L.map_keyed;
    keyed = L.keyed;
    placed = L.placed;
    allocated = L.allocated;
    count = L.count;
  }

  abbrev new_entry : ℕ → K → V → Entry K V
  new_entry address k v = record { key = k; value = v; node = address }

  insert_room :
      (c : LruCache K V) (s : List (Entry K V)) (k : K) (v : V)
      → IsLru c s
      → find dec k s ≡ none
      → length s < c.capacity
      → (c' : LruCache K V) × (insert dec c k v ≡ ok c')
        × IsLru c' (most_recent (c.capacity - 1) s ++ new_entry c.next_address k v ∷ [])
        × (c'.capacity ≡ c.capacity)
  unfolding insert append
  insert_room c s k v L h room =
      let test : leb c.capacity (length c.key_to_value) ≡ false = ground (arith, L.linked.count) in
      (
        append dec c k v,
        rw test,
        rw (most_recent_all (c.capacity - 1) s (omega arith)) (record {
          linked = append-Linked dec c s L.linked k v h;
          positive = L.positive;
          bounded = omega (arith, length-append s (new_entry c.next_address k v ∷ []));
        }),
        refl,
      )

  insert_full :
      (c : LruCache K V) (s : List (Entry K V)) (k : K) (v : V)
      → IsLru c s
      → find dec k s ≡ none
      → c.capacity ≤ length s
      → (c' : LruCache K V) × (insert dec c k v ≡ ok c')
        × IsLru c' (most_recent (c.capacity - 1) s ++ new_entry c.next_address k v ∷ [])
        × (c'.capacity ≡ c.capacity)
  unfolding insert append find
  insert_full c [] k v L h full = absurd (omega (arith, L.positive))
  insert_full c (e ∷ s) k v L h full =
      let test : leb c.capacity (length c.key_to_value) ≡ true = ground (arith, L.linked.count) in
      let (d, evicted, L', same, fresh) = evict-Linked dec c e s L.linked in
      let keeps : most_recent (c.capacity - 1) (e ∷ s) ≡ s =
        most_recent-cons (c.capacity - 1) e s (omega arith)
        ∙ most_recent_all (c.capacity - 1) s (omega (arith, L.bounded)) in
      (
        append dec d k v,
        rw (test, evicted),
        rw (keeps, ← fresh)
            (record {
              linked = append-Linked dec d s L' k v (ground arith);
              positive = omega (arith, L.positive);
              bounded =
                  omega (arith, L.bounded, length-append s (new_entry d.next_address k v ∷ []));
            }),
        same,
      )

  -- What `get_item` does for the entry that the list has for the key.
  abbrev pub IsGot : List (Entry K V) → Option (Entry K V) → Outcome (LruCache K V × V) → Type ℓ
  IsGot s none result = result ≡ throw runtime_error
  IsGot s (some e) result =
      (c' : LruCache K V) × (result ≡ ok (c', e.value)) × IsLru c' (touch dec e s)

  module _ (c : LruCache K V) (s : List (Entry K V)) (L : IsLru c s) where
    -- A hit returns the value of the key, and makes the key the most recently used; nothing else
    -- changes. A miss throws.
    pub get_item_parts :
        (k : K)
        → ((e : Entry K V)
            → find dec k s ≡ some e
            → (c' : LruCache K V) × (get_item dec c k ≡ ok (c', e.value))
              × IsLru c' (touch dec e s))
          × (find dec k s ≡ none → get_item dec c k ≡ throw runtime_error)
    get_item_parts k = (
      λ e h.
          let (c', got, L', same) = get_item_hit dec c s L.linked k e h in
          let own : find dec e.key s ≡ some e =
            subst (λ q. find dec q s ≡ some e) (sym (find-key dec k s e h)) h in
          (
            c',
            got,
            record {
              linked = L';
              positive = omega (arith, L.positive);
              bounded = omega (arith, L.bounded, length-touch dec e.key s L.linked.keyed e e own);
            },
          ),
      get_item_miss dec c s L.linked k,
    )

    -- In a state that holds a list of entries, `add_item` always returns. It stores the value under the key, as the most recently used
    -- entry; if the key is new and the cache is full, the least recently used entry goes.
    pub add_item_lem :
        (k : K) (v : V)
        → (c' : LruCache K V) × (add_item dec c k v ≡ ok c')
          × IsLru c' (added c.capacity c.next_address k v s)
          × (c'.capacity ≡ c.capacity)
    unfolding add_item added
    add_item_lem k v = elim (Option-cases (find dec k s)) [
      | inl miss ↦
          rw (L.linked.lookup k, add_item, added, miss)
            (elim (Bool-cases (leb c.capacity (length s))) [
              | inl full ↦ insert_full c s k v L miss (ground arith)
              | inr room ↦ insert_room c s k v L miss (ground arith)
            ])
      | inr (e, h) ↦
          let (c', got, L', same) = add_item_hit dec c s L.linked k v e h in
          let own : find dec e.key s ≡ some e =
            subst (λ q. find dec q s ≡ some e) (sym (find-key dec k s e h)) h in
          (
            c',
            got,
            rw (h, added)
                (record {
                  linked = L';
                  positive = omega (arith, L.positive);
                  bounded = omega (
                    arith,
                    L.bounded,
                    length-touch dec e.key s L.linked.keyed (record e { value = v }) e own,
                  );
                }),
            same,
          )
    ]

    -- In a state that holds a list of entries, `remove_item` always returns. It takes out the entry of the key, if there is one.
    pub remove_item_lem :
        (k : K) → (c' : LruCache K V) × (remove_item dec c k ≡ ok c') × IsLru c' (erase dec k s)
    unfolding remove_item
    remove_item_lem k = elim (Option-cases (find dec k s)) [
      | inl miss ↦ (c, rw (L.linked.lookup k, remove_item, miss), rw (erase_absent dec k s miss) L)
      | inr (e, h) ↦
          let (c', got, L', same) = remove_item_hit dec c s L.linked k e h in
          (
            c',
            got,
            record {
              linked = L';
              positive = omega (arith, L.positive);
              bounded = omega (arith, L.bounded, length-erase dec k s e h);
            },
          )
    ]

    -- `set_capacity` refuses 0, and otherwise returns with the new capacity and as many of the most
    -- recently used entries as it allows.
    pub set_capacity_parts :
        (limit : ℕ)
        → (limit ≡ 0 → set_capacity dec c limit ≡ throw runtime_error)
          × (0 < limit
              → (c' : LruCache K V) × (set_capacity dec c limit ≡ ok c')
                × IsLru c' (most_recent limit s)
                × (c'.capacity ≡ limit))
    unfolding set_capacity
    set_capacity_parts limit = (
      λ z. rw z,
      λ p.
          let positive : (limit == 0) ≡ false = ground arith in
          elim (Bool-cases (ltb limit c.capacity)) [
            | inl less ↦
                let (d, done, L') =
                  evict_down-Linked dec (length c.key_to_value) limit c s L.linked
                    (omega (arith, L.linked.count)) in
                (
                  record d { capacity = limit },
                  rw (positive, less, done),
                  record {
                    linked = with_capacity d limit (most_recent limit s) L';
                    positive = p;
                    bounded = length-most_recent limit s;
                  },
                  refl,
                )
            | inr more ↦ (
              record c { capacity = limit },
              rw (positive, more),
              rw (most_recent_all limit s (ground (arith, L.bounded))) (record {
                linked = with_capacity c limit s L.linked;
                positive = p;
                bounded = ground (arith, L.bounded);
              }),
              refl,
            )
          ],
    )

    -- In a state that holds a list of entries, `set_capacity` with a limit above 0 returns, with that limit as its capacity and the most recently used
    -- entries, as many as the limit allows, in their old order.
    pub set_capacity_lem :
        (limit : ℕ)
        → 0 < limit
        → (c' : LruCache K V) × (set_capacity dec c limit ≡ ok c')
          × IsLru c' (most_recent limit s)
          × (c'.capacity ≡ limit)
    set_capacity_lem limit p = (set_capacity_parts limit).1 p

    -- In a state that holds a list of entries, `get_item` throws if the key is not in the list, and otherwise returns its value, and its
    -- entry goes to the most recently used end of the list, with the other entries as they were.
    pub get_item_lem : (k : K) → IsGot s (find dec k s) (get_item dec c k)
    get_item_lem k = elim (Option-cases (find dec k s)) [
      | inl h ↦ rw (h, IsGot) ((get_item_parts k).1 h)
      | inr (e, h) ↦ rw (h, IsGot) ((get_item_parts k).0 e h)
    ]

    -- In a state that holds a list of entries, `get_mru_keys` gives their keys, the most recently
    -- used first.
    pub get_mru_keys_lem : get_mru_keys dec c ≡ reverse (map (λ e. e.key) s)
    unfolding get_mru_keys
    get_mru_keys_lem = rw L.linked.tracker (ap reverse (map-map _ _ s))

  -- What `add_item` stores is found, under its key.
  pub find-added_self :
      (limit address : ℕ) (k : K) (v : V) (s : List (Entry K V))
      → IsKeyed dec s
      → (e : Entry K V) × (find dec k (added limit address k v s) ≡ some e) × (e.value ≡ v)
  unfolding added find
  find-added_self limit address k v s u = elim (Option-cases (find dec k s)) [
    | inl miss ↦ (
      new_entry address k v,
      rw (miss, added, find-append) (ground (arith, find-drop k (length s - (limit - 1)) s miss)),
      refl,
    )
    | inr (e, h) ↦
        let same : e.key ≡ k = find-key dec k s e h in
        (
          record e { value = v },
          rw (h, added, find-touch dec k s u (record e { value = v })) (ground (arith, same)),
          refl,
        )
  ]

  -- What holds of every value holds after it, if it holds of the new one.
  pub All-added {κ} :
      (P : V → Type κ) (limit address : ℕ) (k : K) (v : V) (s : List (Entry K V))
      → All (λ e. P e.value) s
      → P v
      → All (λ e. P e.value) (added limit address k v s)
  unfolding added
  All-added P limit address k v s a p = elim (Option-cases (find dec k s)) [
    | inl miss ↦
        rw (miss, added)
          (All-append (λ e. P e.value) (most_recent (limit - 1) s) (new_entry address k v ∷ [])
            (All-drop (λ e. P e.value) (length s - (limit - 1)) s a) (p, tt))
    | inr (e, h) ↦
        rw (h, added)
          (All-append (λ e. P e.value) (erase dec e.key s) (record e { value = v } ∷ [])
            (All-erase dec (λ e. P e.value) e.key s a) (p, tt))
  ]
