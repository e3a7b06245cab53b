-- ===== src/Server/Bind/Evaluable.antt =====
-- What `do_bind_ts` leaves is bound in every node.
use shyft.Prelude.{◌≡◌, true, List}
use shyft.Prelude.Lists.{All}
use shyft.Cache.Fragments.{Fragment}
use shyft.Expressions.Tree.{Ts, find_ts_bind_info}
use shyft.Server.Url.{Text}
use shyft.Server.Requests.{TsDb, Callbacks, Server}
use shyft.Server.Bind.{has_ref}

module _ (same_name : Discrete Text) where
  Has : Text → List Text → Type 0
  Has id ids = has_ref same_name id ids ≡ true

module _ {F X W V D A P : Type 0} (same_name : Discrete Text) (T : Fragment F V)
    (container : List (Text × TsDb F X W)) (cb : Callbacks F X W) where
  AllHave : List Text → List (Ts F Text D A P) → Type 0
  AllHave ids atsv = All (λ t. All (λ r. Has same_name r ids) (find_ts_bind_info t)) atsv
