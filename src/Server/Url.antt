-- ===== src/Server/Url.antt =====
-- The urls of the server's own time-series, core/dtss_url.h. A string is the list of its character
-- codes.
pub mod RoundTrip
use shyft.Prelude.{
  ℕ, ◌+◌, Bool, true, false, ◌||◌, ◌&&◌, not, Option, none, some, List, [], ◌∷◌, ◌++◌,
}
use shyft.Prelude.Tests.{ltb, ◌==◌, if◌then◌else◌}
use shyft.Prelude.Lists.{length, drop}

abbrev pub Text : Type 0
Text = List ℕ

abbrev pub slash : ℕ
slash = 47

-- shyft://
abbrev pub shyft_prefix : Text
shyft_prefix = 115 ∷ 104 ∷ 121 ∷ 102 ∷ 116 ∷ 58 ∷ slash ∷ slash ∷ []

unfoldable pub shyft_url : Text → Text → Text
shyft_url container ts_name = shyft_prefix ++ container ++ slash ∷ ts_name

-- `std::equal` of a prefix, which is not longer than the text here
abbrev pub starts_with : Text → Text → Bool
starts_with [] url = true
starts_with (c ∷ p) [] = false
starts_with (c ∷ p) (d ∷ url) = c == d && starts_with p url

-- What stands before the first slash: `find_first_of` and `substr`.
abbrev pub before_slash : Text → Option Text
before_slash [] = none
before_slash (c ∷ t) =
    let rest = before_slash t in
    if c == slash then some [] else elim rest [ none ↦ none | some r ↦ some (c ∷ r) ]

-- The container, or the empty text.
unfoldable pub extract_shyft_url_container : Text → Text
extract_shyft_url_container url =
    if ltb (length url) (length shyft_prefix + 2) || not (starts_with shyft_prefix url)
    then []
    else elim (before_slash (drop (length shyft_prefix) url)) [ none ↦ [] | some c ↦ c ]

-- What the server takes for the path of a series: `substr` from after the container.
unfoldable pub path_of : Text → Text → Text
path_of container url = drop (length shyft_prefix + length container + 1) url
