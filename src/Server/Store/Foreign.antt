-- ===== src/Server/Store/Foreign.antt =====
-- Series that are not the server's own.
use shyft.Prelude.{◌≡◌, refl, Bool, false, Option, none, List, [], ◌∷◌, map}
use shyft.Prelude.Lists.{All}
use shyft.Prelude.Outcome.{ok}
use shyft.Cache.Fragments.{Fragment}
use shyft.Expressions.Tree.{Ts, aref_ts}
use shyft.Server.Url.{Text}
use shyft.Server.Requests.{TsDb, Callbacks, Server}
use shyft.Server.Read.Order.{is_own}
use shyft.Server.Store.{store_own, store_others, do_store_ts}

-- References, with or without content.
abbrev pub references : {F D A P : Type 0} → List (Text × Option F) → List (Ts F Text D A P)
references items = map (λ i. aref_ts i.0 i.1) items

abbrev pub AreForeign : {F : Type 0} → List (Text × Option F) → Type 0
AreForeign items = All (λ i. is_own i.0 ≡ false) items

module _ {F X W V : Type 0} (D A P : Type 0) (same_name : Discrete Text) (T : Fragment F V)
    (container : List (Text × TsDb F X W)) (cb : Callbacks F X W) where
  store_own-foreign :
      (self : Server F W) (items : List (Text × Option F)) (overwrite cache_on_write : Bool)
      → AreForeign items
      → store_own same_name T container cb {D = D} {A = A} {P = P} overwrite cache_on_write self
          (references items)
        ≡ ok (self, items)
  unfolding store_own
  store_own-foreign self [] overwrite caching h = refl
  store_own-foreign self ((id, rep) ∷ items) overwrite caching (foreign, h) =
      rw (foreign, store_own-foreign self items overwrite caching h) refl

  store_others-none :
      (self : Server F W) (items : List (Text × Option F)) (cache_on_write : Bool)
      → cb.store_ts_cb ≡ none
      → store_others same_name T container cb cache_on_write self items ≡ ok self
  unfolding store_others
  store_others-none self [] caching missing = refl
  store_others-none self (i ∷ items) caching missing = rw (store_others, missing) refl

  -- Without a callback to store them, series that are not the server's own are dropped, and the call
  -- returns as if they were stored.
  pub do_store_ts-dropped :
      (self : Server F W) (items : List (Text × Option F)) (overwrite cache_on_write : Bool)
      → cb.store_ts_cb ≡ none
      → AreForeign items
      → do_store_ts same_name T container cb {D = D} {A = A} {P = P} self
          (references items)
          overwrite
          cache_on_write
        ≡ ok self
  unfolding do_store_ts
  do_store_ts-dropped self items overwrite caching missing h =
      rw (store_own-foreign self items overwrite caching h)
        (store_others-none self items caching missing)
