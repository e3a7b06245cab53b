-- ===== src/Server/Bind.antt =====
-- `do_bind_ts` of core/dtss.cpp.
pub mod Evaluable
use shyft.Prelude.{ℕ, Bool, true, false, Option, none, some, List, [], ◌∷◌, ◌++◌, map, ite}
use shyft.Prelude.Tests.{ltb, ◌==◌, if◌then◌else◌}
use shyft.Prelude.Lists.{length}
use shyft.Prelude.Outcome.{Outcome, ok, throw, runtime_error, ◌>>=◌}
use shyft.Utc.{UtcPeriod}
use shyft.Cache.Fragments.{Fragment}
use shyft.Expressions.Tree.{Ts, sts, do_bind, find_ts_bind_info}
use shyft.Expressions.Binding.{bind_found}
use shyft.Server.Url.{Text}
use shyft.Server.Requests.{TsDb, Callbacks, Server}
use shyft.Server.Read.{do_read}

-- The unique references, in the order of their first occurrence.
abbrev pub has_ref : Discrete Text → Text → List Text → Bool
has_ref same_name id [] = false
has_ref same_name id (k ∷ ids) =
    let rest = has_ref same_name id ids in ite (same_name k id) true rest

abbrev pub add_ref : Discrete Text → List Text → Text → List Text
add_ref same_name ids id = if has_ref same_name id ids then ids else ids ++ id ∷ []

abbrev pub add_refs : Discrete Text → List Text → List Text → List Text
add_refs same_name ids [] = ids
add_refs same_name ids (r ∷ refs) = add_refs same_name (add_ref same_name ids r) refs

-- The series that was read for a reference.
abbrev pub series_of : {F : Type 0} → Discrete Text → List Text → List F → Text → Option F
series_of same_name [] bts id = none
series_of same_name (k ∷ ids) [] id = none
series_of same_name (k ∷ ids) (x ∷ bts) id =
    let rest = series_of same_name ids bts id in ite (same_name k id) (some x) rest

-- `bind` of an empty series throws.
abbrev pub all_present : {F : Type 0} → List (Option F) → Outcome (List F)
all_present [] = ok []
all_present (none ∷ bts) = throw runtime_error
all_present (some x ∷ bts) = all_present bts >>= λ rest. ok (x ∷ rest)

module _ {F X W V D A P : Type 0} (same_name : Discrete Text) (T : Fragment F V)
    (container : List (Text × TsDb F X W)) (cb : Callbacks F X W) where
  -- Step 1
  unfoldable pub collect_refs : List Text → List (Ts F Text D A P) → List Text
  collect_refs ids [] = ids
  collect_refs ids (t ∷ atsv) = collect_refs (add_refs same_name ids (find_ts_bind_info t)) atsv

  -- Step 2: every node with the reference is bound to what was read for it.
  unfoldable pub bind_read :
      Server F W
      → UtcPeriod
      → List (Ts F Text D A P)
      → List Text
      → Bool
      → Bool
      → Outcome (Server F W × List (Ts F Text D A P))
  bind_read self p atsv [] use_ts_cached_read update_ts_cache = ok (self, atsv)
  bind_read self p atsv (id ∷ ids) use_ts_cached_read update_ts_cache =
      let ts_id_list = id ∷ ids in
      do_read same_name T container cb self ts_id_list p use_ts_cached_read update_ts_cache
      >>= λ (self', bts).
          if length bts == length ts_id_list
          then (all_present bts >>= λ series.
              ok (self', map (bind_found (series_of same_name ts_id_list series)) atsv))
          else throw runtime_error

  -- Step 3
  unfoldable pub bind_all : List (Ts F Text D A P) → Outcome (List (Ts F Text D A P))
  bind_all [] = ok []
  bind_all (t ∷ atsv) = sts t >>= λ _. do_bind t >>= λ t'. bind_all atsv >>= λ rest. ok (t' ∷ rest)

  unfoldable pub do_bind_ts :
      Server F W
      → UtcPeriod
      → List (Ts F Text D A P)
      → Bool
      → Bool
      → Outcome (Server F W × List (Ts F Text D A P))
  do_bind_ts self p atsv use_ts_cached_read update_ts_cache =
      bind_read self p atsv (collect_refs [] atsv) use_ts_cached_read update_ts_cache
      >>= λ (self', found). bind_all found >>= λ bound. ok (self', bound)
