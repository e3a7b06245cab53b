-- ===== src/Server/Requests.antt =====
-- What the server of core/dtss.h is made of: its containers and callbacks, and the cache. A series
-- is what the cache holds as a fragment.
use shyft.Prelude.{Bool, Option, none, some, List, [], ◌∷◌, ite}
use shyft.Prelude.Tests.{ltb, if◌then◌else◌}
use shyft.Prelude.Lists.{length}
use shyft.Prelude.Outcome.{Outcome, ok, throw, runtime_error, ◌>>=◌}
use shyft.Utc.{UtcPeriod}
use shyft.Cache.Store.{Cache}
use shyft.Server.Url.{Text, extract_shyft_url_container, path_of}

-- The file database of a container, as the server calls it. `W` is what is stored outside of the
-- server, and `X` a description of a series.
pub record TsDb (F X W : Type 0) : Type 1 where
  pub save : W → Text → F → Bool → Outcome W
  pub read : W → Text → UtcPeriod → Outcome F
  pub find : W → Text → Outcome (List X)

-- The functions that a client may set; each may be missing.
pub record Callbacks (F X W : Type 0) : Type 1 where
  pub bind_ts_cb : Option (W → List Text → UtcPeriod → Outcome (List F))
  pub find_ts_cb : Option (W → Text → Outcome (List X))
  pub store_ts_cb : Option (W → List (Text × F) → Outcome W)

-- The parts that requests change, and the one flag.
pub record Server (F W : Type 0) : Type 0 where
  pub ts_cache : Cache Text F
  pub stored : W
  pub cache_all_reads : Bool

module _ {F X W : Type 0} (same_name : Discrete Text) (container : List (Text × TsDb F X W)) where
  abbrev pub find_container : Text → List (Text × TsDb F X W) → Outcome (TsDb F X W)
  find_container name [] = throw runtime_error
  find_container name ((n, db) ∷ dbs) =
      let rest = find_container name dbs in ite (same_name n name) (ok db) rest

  unfoldable pub internal : Text → Outcome (TsDb F X W)
  internal name = find_container name container

  -- `find_ts_cb` takes the others, and without it there are none.
  unfoldable pub do_find_ts : Callbacks F X W → W → Text → Outcome (List X)
  do_find_ts cb stored search_expression =
      let c = extract_shyft_url_container search_expression in
      let other : Outcome (List X) = elim cb.find_ts_cb [
        | none ↦ ok []
        | some find ↦ find stored search_expression
      ] in
      if ltb 0 (length c)
      then (internal c >>= λ db. db.find stored (path_of c search_expression))
      else other
