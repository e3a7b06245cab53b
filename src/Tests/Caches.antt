-- ===== src/Tests/Caches.antt =====
-- The lru cache and the cache of time-series at concrete inputs.
use shyft.Prelude.{ℕ, ◌≡◌, refl, arith, true, Option, some, List, [], ◌∷◌, map}
use mathlib.Core.List.{reverse}
use native.Mathlib.Decide.{ℕ_discrete as dec}
use shyft.Prelude.Int.{pos, negsuc}
use shyft.Prelude.Outcome.{ok, ◌>>=◌}
use shyft.Utc.{UtcTime, period, valid, contains, contains_period}
use shyft.Cache.Lru
use shyft.Cache.Lru.{LruCache, Entry, find}
use shyft.Cache.Lru.Capacity.{most_recent}
use shyft.Cache.Lru.Operations.{
  IsLru, IsGot, added, get_item_lem, add_item_lem, remove_item_lem, set_capacity_lem,
  get_mru_keys_lem,
}
use shyft.Cache.Fragments.{
  add, add_at, replace_p1, merge_p1, erase_to, split_while, get_ix, covering_last,
}
use shyft.Prelude.Lists.{get_elem?}
use shyft.Cache.Fragments.Merge.{Overlays, HasKept}
use shyft.Cache.Store
use shyft.Cache.Store.{Cache}
use shyft.Cache.Store.Invariant.{IsCache, IsTried, try_get_lem}
use shyft.Cache.Store.Reachable.{
  Reachable, constructed, after_add, after_try_get, IsSound, Reachable-IsSound, get-Reachable,
}
use shyft.Cache.Store.Add.{fragments_of, add_lem, try_get-add}
use shyft.Tests.Span.{Span, spans, span_merge, touches, spans-Merges}
use shyft.Tests.Fragments.{span}

program : Unit {0}
unfolding add add_at replace_p1 merge_p1 erase_to split_while span_merge touches get_ix
    covering_last contains contains_period valid get_elem? dec Lru.find Lru.erase Lru.assign
    Lru.item_exists Lru.get_item Lru.evict Lru.append Lru.insert Lru.add_item Lru.init Lru.unlink
    Lru.splice_to_end Store.init Store.internal_try_get Store.internal_add Store.read_fragment
    Store.add Store.try_get
program = tt

-- The list after ids 1 and 2 went in, and id 1 was read.
abbrev entries : List (Entry ℕ (List Span))
entries =
    record { key = 2; value = span 0 20 2 ∷ []; node = 1 }
    ∷ record { key = 1; value = span 0 10 1 ∷ []; node = 0 }
    ∷ []

abbrev lru : LruCache ℕ (List Span)
lru = record {
  capacity = 2;
  key_tracker = record { address = 1; key = 2 } ∷ record { address = 0; key = 1 } ∷ [];
  key_to_value = entries;
  next_address = 2;
}

abbrev cached : Cache ℕ Span
cached = record { c = lru; cs = record Store.no_stats { hits = 1 } }

reached :
    (Store.add dec spans (Store.init dec spans 2) 1 (span 0 10 1) >>= λ c.
    Store.add dec spans c 2 (span 0 20 2) >>= λ c.
    Store.try_get dec spans c 1 (period (pos 2) (pos 5)))
    ≡ ok (cached, some (span 0 10 1))
unfolding program
reached = refl

lru-IsLru : IsLru dec lru entries
unfolding program
lru-IsLru = record {
  linked = record {
    tracker = refl;
    lookup = λ q. refl;
    map_keyed = (refl, (refl, tt));
    keyed = (refl, (refl, tt));
    placed = ((omega arith, tt), (tt, tt));
    allocated = (omega arith, (omega arith, tt));
    count = refl;
  };
  positive = omega arith;
  bounded = omega arith;
}

cached-IsCache : IsCache spans dec cached entries
unfolding valid
cached-IsCache = record {
  lru = lru-IsLru;
  minimal = ((negsuc 0, (refl, omega arith, tt)), ((negsuc 0, (refl, omega arith, tt)), tt));
}

-- Id 3 takes the place of id 2.
add_item_lem_example :
    (c' : LruCache ℕ (List Span)) × (Lru.add_item dec lru 3 (span 0 5 3 ∷ []) ≡ ok c')
    × IsLru dec c' (added dec 2 2 3 (span 0 5 3 ∷ []) entries)
    × (c'.capacity ≡ 2)
add_item_lem_example = add_item_lem dec lru entries lru-IsLru 3 (span 0 5 3 ∷ [])

two-IsGot : IsGot dec entries (find dec 2 entries) (Lru.get_item dec lru 2)
two-IsGot = get_item_lem dec lru entries lru-IsLru 2

removed_entry :
    (c' : LruCache ℕ (List Span)) × (Lru.remove_item dec lru 2 ≡ ok c')
    × IsLru dec c' (Lru.erase dec 2 entries)
removed_entry = remove_item_lem dec lru entries lru-IsLru 2

two_most_recent :
    (c' : LruCache ℕ (List Span)) × (Lru.set_capacity dec lru 1 ≡ ok c')
    × IsLru dec c' (most_recent 1 entries)
    × (c'.capacity ≡ 1)
two_most_recent = set_capacity_lem dec lru entries lru-IsLru 1 (omega arith)

keys_by_use : Lru.get_mru_keys dec lru ≡ reverse (map (λ e. e.key) entries)
keys_by_use = get_mru_keys_lem dec lru entries lru-IsLru

try_get_lem_example :
    (self' : Cache ℕ Span) × (answer : Option Span) × (Store.try_get dec spans cached 2
        (period (pos 3) (pos 4))
      ≡ ok (self', answer))
    × IsTried spans dec cached entries (period (pos 3) (pos 4)) (find dec 2 entries) answer self'
try_get_lem_example = try_get_lem spans dec cached entries cached-IsCache 2 (period (pos 3) (pos 4))

add_lem_example :
    (self' : Cache ℕ Span) × (g : List Span) × (Store.add dec spans cached 1 (span 5 15 7)
      ≡ ok self')
    × IsCache spans dec self' (added dec 2 2 1 g entries)
    × Overlays spans (span 5 15 7) (fragments_of spans dec 1 entries) g
    × HasKept spans (span 5 15 7) g
    × (self'.cs ≡ cached.cs)
unfolding valid
add_lem_example = add_lem spans dec cached entries cached-IsCache 1 (span 5 15 7) spans-Merges refl

try_get-add_example :
    (self' self'' : Cache ℕ Span) × (y : Span) × (Store.add dec spans cached 1 (span 5 15 7)
      ≡ ok self')
    × (Store.try_get dec spans self' 1 (period (pos 6) (pos 12)) ≡ ok (self'', some y))
    × (self''.cs ≡ Store.hit dec spans cached.cs)
    × ((t : UtcTime) → contains (period (pos 6) (pos 12)) t ≡ true → y.value t ≡ some 7)
unfolding valid contains_period
try_get-add_example =
    try_get-add spans dec cached entries cached-IsCache 1 (span 5 15 7) (period (pos 6) (pos 12))
      spans-Merges refl refl

reached-Reachable : Reachable spans dec cached
unfolding program
reached-Reachable =
    after_try_get
      (record cached {
        c = record lru {
          key_tracker = record { address = 0; key = 1 } ∷ record { address = 1; key = 2 } ∷ [];
        };
        cs = Store.no_stats;
      })
      cached 1 (period (pos 2) (pos 5)) (some (span 0 10 1))
      (after_add
        (record cached {
          c = record lru {
            key_tracker = record { address = 0; key = 1 } ∷ [];
            key_to_value = record { key = 1; value = span 0 10 1 ∷ []; node = 0 } ∷ [];
            next_address = 1;
          };
          cs = Store.no_stats;
        })
        _ 2 (span 0 20 2)
        (after_add (Store.init dec spans 2) _ 1 (span 0 10 1) (constructed 2 (omega arith)) refl
          refl)
        refl refl)
      refl

Reachable-IsSound_example : IsSound spans dec cached
Reachable-IsSound_example = Reachable-IsSound spans dec cached spans-Merges reached-Reachable

get-Reachable_example :
    (c' : Cache ℕ Span) × (r : List (ℕ × Span)) × (Store.get dec spans cached
        (1 ∷ 2 ∷ 3 ∷ [])
        (period (pos 3) (pos 4))
      ≡ ok (c', r))
    × Reachable spans dec c'
get-Reachable_example =
    get-Reachable spans dec cached (1 ∷ 2 ∷ 3 ∷ []) (period (pos 3) (pos 4)) spans-Merges
      reached-Reachable
