-- ===== src/Storage/Labels.antt =====
-- pkg/storage/driver/labels.go: a map from strings to strings, as an association list in which an
-- earlier pair hides a later one with the same key.
use helm.Common.{Bytes, Bool, true, false, List, [], ◌∷◌, if◌then◌else◌, not, map}
use helm.Common.Text.{eqb}

abbrev pub Labels : Type 0
Labels = List (Bytes × Bytes)

abbrev pub init : Labels
init = []

-- the zero value of a string for a missing key
unfoldable pub get : Labels → Bytes → Bytes
unfolding eqb
get [] key = []
get ((k, v) ∷ lbs) key = if eqb k key then v else get lbs key

unfoldable pub set : Labels → Bytes → Bytes → Labels
set lbs key val = (key, val) ∷ lbs

unfoldable pub keys : Labels → List Bytes
keys lbs = map (λ kv. kv.0) lbs

match_keys : Labels → Labels → List Bytes → Bool
unfolding get
match_keys lbs other [] = true
match_keys lbs other (key ∷ ks) =
    if not (eqb (get lbs key) (get other key)) then false else match_keys lbs other ks

-- labels.match
unfoldable pub matches : Labels → Labels → Bool
unfolding match_keys keys
matches lbs other = match_keys lbs other (keys other)
