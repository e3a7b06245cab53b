-- ===== src/Server/Url/RoundTrip.antt =====
-- Urls and their parts.
use shyft.Prelude.{suc, ◌+◌, ◌<◌, ◌≡◌, ◌≢◌, refl, ap, ◌∙◌, arith, false, some, [], ◌∷◌, ◌++◌}
use shyft.Prelude.Tests.{ltb, ◌==◌}
use shyft.Prelude.Lists.{All, length, drop, length-append}
use shyft.Server.Url.{
  Text, slash, shyft_prefix, shyft_url, before_slash, extract_shyft_url_container, path_of,
}

before_slash-append : (c n : Text) → All (λ x. x ≢ slash) c → before_slash (c ++ slash ∷ n) ≡ some c
before_slash-append [] n h = refl
before_slash-append (x ∷ c) n h =
    let other : (x == slash) ≡ false = ground (arith, h.0) in
    rw (other, before_slash-append c n h.1) refl

drop-append : (c n : Text) → drop (length c + 1) (c ++ slash ∷ n) ≡ n
drop-append [] n = refl
drop-append (x ∷ c) n =
    let more : suc (length c) + 1 ≡ suc (length c + 1) = omega arith in rw more (drop-append c n)

-- A url that is put together from a container and a name comes apart into them, for a container
-- that is not empty and has no slash.
pub extract_shyft_url_container-shyft_url :
    (c n : Text)
    → 0 < length c
    → All (λ x. x ≢ slash) c
    → (extract_shyft_url_container (shyft_url c n) ≡ c) × (path_of c (shyft_url c n) ≡ n)
unfolding extract_shyft_url_container shyft_url path_of
extract_shyft_url_container-shyft_url c n some_name h =
    let long : ltb (length (shyft_prefix ++ c ++ slash ∷ n)) 10 ≡ false =
      ground (arith, length-append c (slash ∷ n), some_name) in
    let start : length shyft_prefix + length c + 1
        ≡ suc (suc (suc (suc (suc (suc (suc (suc (length c + 1)))))))) =
      omega arith in
    (
      rw (long, before_slash-append c n h) refl,
      ap (λ k. drop k (shyft_prefix ++ c ++ slash ∷ n)) start ∙ drop-append c n,
    )
