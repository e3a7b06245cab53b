-- ===== src/Cache/Lru.antt =====
-- `lru_cache` of core/dtss_cache.h: a map from keys to values, and a list of the keys in the order
-- of their last use, most recent at the back. A map entry holds an iterator into that list; here a
-- list node has a number, its address, and the iterator is that number. To erase or to move a node
-- through an iterator that is not in the list is undefined, and so is erasing from an empty list:
-- the asserts of the source are not in a release build.
pub mod Keyed
pub mod Linked
pub mod Methods
pub mod Capacity
pub mod Operations
use shyft.Prelude.{
  ℕ, zero, suc, ◌+◌, Bool, true, false, Option, none, some, List, [], ◌∷◌, ◌++◌, map, ite,
}
use mathlib.Core.List.{reverse}
use shyft.Prelude.Tests.{ltb, leb, ◌==◌, if◌then◌else◌}
use shyft.Prelude.Lists.{length}
use shyft.Prelude.Outcome.{Outcome, ok, throw, undefined, ◌>>=◌, runtime_error}

-- A node of `_key_tracker`.
pub record Node {ℓ} (K : Type ℓ) : Type ℓ where
  pub address : ℕ
  pub key : K

-- An entry of `_key_to_value`: the key, and the pair of the value and the iterator.
pub record Entry {ℓ} (K V : Type ℓ) : Type ℓ where
  pub key : K
  pub value : V
  pub node : ℕ

-- `next_address` is the address of the next node that the list allocates.
pub record LruCache {ℓ} (K V : Type ℓ) : Type ℓ where
  pub capacity : ℕ
  pub key_tracker : List (Node K)
  pub key_to_value : List (Entry K V)
  pub next_address : ℕ

unfoldable pub init {ℓ} : {K V : Type ℓ} → ℕ → LruCache K V
init c = record { capacity = c; key_tracker = []; key_to_value = []; next_address = 0 }

-- Takes a node out of the list by its address.
unfoldable pub unlink {ℓ} : {K : Type ℓ} → ℕ → List (Node K) → Outcome (Node K × List (Node K))
unlink i [] = undefined
unlink i (n ∷ l) =
    let rest = unlink i l in if n.address == i then ok (n, l) else rest >>= λ r. ok (r.0, n ∷ r.1)

-- `_key_tracker.splice(_key_tracker.end(), _key_tracker, it)`
unfoldable pub splice_to_end {ℓ} : {K : Type ℓ} → ℕ → List (Node K) → Outcome (List (Node K))
splice_to_end i l = unlink i l >>= λ r. ok (r.1 ++ r.0 ∷ [])

module _ {ℓ} {K V : Type ℓ} (dec : Discrete K) where
  unfoldable pub find : K → List (Entry K V) → Option (Entry K V)
  find k [] = none
  find k (e ∷ l) = ite (dec e.key k) (some e) (find k l)

  -- `_key_to_value.erase(it)` at the entry of the key.
  unfoldable pub erase : K → List (Entry K V) → List (Entry K V)
  erase k [] = []
  erase k (e ∷ l) = ite (dec e.key k) l (e ∷ erase k l)

  -- An assignment through a reference to the value of the key.
  unfoldable pub assign : K → V → List (Entry K V) → List (Entry K V)
  assign k v [] = []
  assign k v (e ∷ l) = ite (dec e.key k) (record e { value = v } ∷ l) (e ∷ assign k v l)

  unfoldable pub item_exists : LruCache K V → K → Bool
  item_exists c k = elim (find k c.key_to_value) [ none ↦ false | some e ↦ true ]

  -- The item, which becomes the most recently used. A write through the returned reference is
  -- `assign` on the map of the new state.
  unfoldable pub get_item : LruCache K V → K → Outcome (LruCache K V × V)
  get_item c k = elim (find k c.key_to_value) [
    | none ↦ throw runtime_error
    | some e ↦
        splice_to_end e.node c.key_tracker >>= λ l. ok (record c { key_tracker = l }, e.value)
  ]

  unfoldable pub try_get_item : LruCache K V → K → Outcome (LruCache K V × Option V)
  try_get_item c k =
      if item_exists c k then (get_item c k >>= λ r. ok (r.0, some r.1)) else ok (c, none)

  unfoldable pub evict : LruCache K V → Outcome (LruCache K V)
  evict c = elim c.key_tracker [
    | [] ↦ undefined
    | n ∷ l ↦ elim (find n.key c.key_to_value) [
      | none ↦ undefined
      | some _ ↦ ok (record c { key_tracker = l; key_to_value = erase n.key c.key_to_value })
    ]
  ]

  -- The new node goes to the back of the list, and the entry into the map.
  unfoldable pub append : LruCache K V → K → V → LruCache K V
  append c k v = record c {
    key_tracker = c.key_tracker ++ record { address = c.next_address; key = k } ∷ [];
    key_to_value = record { key = k; value = v; node = c.next_address } ∷ c.key_to_value;
    next_address = c.next_address + 1;
  }

  unfoldable pub insert : LruCache K V → K → V → Outcome (LruCache K V)
  insert c k v =
      if leb c.capacity (length c.key_to_value)
      then (evict c >>= λ c'. ok (append c' k v))
      else ok (append c k v)

  unfoldable pub add_item : LruCache K V → K → V → Outcome (LruCache K V)
  add_item c k v = elim (find k c.key_to_value) [
    | none ↦ insert c k v
    | some e ↦ splice_to_end e.node c.key_tracker >>= λ l.
        ok (record c { key_tracker = l; key_to_value = assign k v c.key_to_value })
  ]

  unfoldable pub remove_item : LruCache K V → K → Outcome (LruCache K V)
  remove_item c k = elim (find k c.key_to_value) [
    | none ↦ ok c
    | some e ↦ unlink e.node c.key_tracker >>= λ r.
        ok (record c { key_tracker = r.1; key_to_value = erase k c.key_to_value })
  ]

  unfoldable pub get_mru_keys : LruCache K V → List K
  get_mru_keys c = reverse (map (λ n. n.key) c.key_tracker)

  -- The loop of `set_capacity`. Each round takes one entry away, so the fuel is the number of
  -- entries; `undefined` also stands for running out of it, which does not happen.
  unfoldable pub evict_down : ℕ → ℕ → LruCache K V → Outcome (LruCache K V)
  evict_down zero cap c = if ltb cap (length c.key_to_value) then undefined else ok c
  evict_down (suc fuel) cap c =
      let more = evict c >>= λ c'. evict_down fuel cap c' in
      if ltb cap (length c.key_to_value) then more else ok c

  unfoldable pub set_capacity : LruCache K V → ℕ → Outcome (LruCache K V)
  set_capacity c cap =
      if cap == 0
      then throw runtime_error
      else if ltb cap c.capacity
      then (evict_down (length c.key_to_value) cap c >>= λ c'. ok (record c' { capacity = cap }))
      else ok (record c { capacity = cap })

  unfoldable pub flush : LruCache K V → LruCache K V
  flush c = record c { key_tracker = []; key_to_value = [] }
