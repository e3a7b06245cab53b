-- ===== src/Tests/Server.antt =====
-- The server at concrete inputs: one container with one file, and a callback for the other series.
use native.Mathlib.Decide.{ℕ_discrete as dec}
use shyft.Prelude.{ℕ, ◌≡◌, refl, arith, true, false, some, none, List, [], ◌∷◌, map, inl, inr}
use shyft.Prelude.Tests.{if◌then◌else◌}
use shyft.Prelude.Int.{pos}
use shyft.Prelude.Outcome.{ok}
use shyft.Utc.{period}
use shyft.Cache.Store
use shyft.Expressions.Tree.{Ts, aref_ts, abin_op_ts, op_add, find_ts_bind_info}
use shyft.Server.Url.{Text, shyft_url, extract_shyft_url_container, path_of}
use shyft.Server.Url.RoundTrip.{extract_shyft_url_container-shyft_url}
use shyft.Server.Requests.{TsDb, Callbacks, Server, internal, do_find_ts}
use shyft.Server.Read.{do_read}
use shyft.Server.Read.Order.{is_own, do_read-uncached}
use shyft.Server.Store.{do_store_ts}
use shyft.Server.Store.Foreign.{references, do_store_ts-dropped}
use shyft.Server.Bind.{collect_refs}
use shyft.Tests.Span.{Span, spans}
use shyft.Tests.Fragments.{span}

abbrev same_text : Discrete Text
same_text [] [] = yes refl
same_text [] (y ∷ ys) = no (λ e. cc e)
same_text (x ∷ xs) [] = no (λ e. cc e)
same_text (x ∷ xs) (y ∷ ys) = elim (dec x y) [
  | yes p ↦ elim (same_text xs ys) [ yes q ↦ yes cc | no n ↦ no (λ e. n (cc e)) ]
  | no n ↦ no (λ e. n (cc e))
]

program : Unit {0}
unfolding extract_shyft_url_container shyft_url path_of internal collect_refs find_ts_bind_info dec
program = tt

-- the container a, and the urls shyft://a/b and x
abbrev own : Text
own = shyft_url (97 ∷ []) (98 ∷ [])

abbrev other : Text
other = 120 ∷ []

container_of_url : (extract_shyft_url_container own ≡ 97 ∷ []) × (path_of (97 ∷ []) own ≡ 98 ∷ [])
container_of_url =
    extract_shyft_url_container-shyft_url (97 ∷ []) (98 ∷ []) (omega arith)
      ((λ same. omega (arith, same)), tt)

-- What is stored is a list of urls, newest first.
abbrev files : TsDb Span Text (List Text)
files = record {
  save = λ w path x overwrite. ok (path ∷ w);
  read = λ w path p. ok (span 0 10 1);
  find = λ w text. ok w;
}

abbrev containers : List (Text × TsDb Span Text (List Text))
containers = (97 ∷ [], files) ∷ []

abbrev source : Text → Span
source id = if is_own id then span 0 10 1 else span 0 20 2

abbrev callbacks : Callbacks Span Text (List Text)
callbacks = record {
  bind_ts_cb = some (λ w ids p. ok (map source ids));
  find_ts_cb = none;
  store_ts_cb = none;
}

abbrev server : Server Span (List Text)
server = record { ts_cache = Store.init same_text spans 10; stored = []; cache_all_reads = false }

found_files : do_find_ts same_text containers callbacks (other ∷ []) own ≡ ok (other ∷ [])
unfolding program do_find_ts
found_files = refl

do_read-uncached_example :
    do_read same_text spans containers callbacks server
      (other ∷ own ∷ [])
      (period (pos 0) (pos 9))
      false
      false
    ≡ ok (server, map (λ i. some (source i)) (other ∷ own ∷ []))
unfolding program
do_read-uncached_example =
    do_read-uncached same_text spans containers callbacks server (period (pos 0) (pos 9)) source
      (other ∷ own ∷ []) refl (inl refl, (inr (refl, files, refl, refl), tt))
      ((λ w ids p. ok (map source ids)), refl, λ ids. refl)

do_store_ts-dropped_example :
    do_store_ts same_text spans containers callbacks {D = ℕ} {A = ℕ} {P = ℕ} server
      (references ((other, some (span 0 10 1)) ∷ []))
      true
      true
    ≡ ok server
unfolding program
do_store_ts-dropped_example =
    do_store_ts-dropped ℕ ℕ ℕ same_text spans containers callbacks server
      ((other, some (span 0 10 1)) ∷ []) true true refl (refl, tt)

-- x + shyft://a/b
abbrev sum : Ts Span Text ℕ ℕ ℕ
sum = abin_op_ts false (aref_ts other none) op_add (aref_ts own none)
