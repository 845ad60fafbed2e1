-- ===== src/Storage/Records.antt =====
-- pkg/storage/driver/records.go: the records of one release name, a slice kept sorted by version.
pub mod Lookup
use helm.Common.{
  ℕ, zero, suc, ◌+◌, ◌/◌, Bytes, codes, Bool, true, false, ltb, ◌==◌, if◌then◌else◌, Option, none,
  some, List, [], ◌∷◌, ◌++◌, length,
}
use helm.Common.Text.{eqb}
use helm.Common.Decimal.{Int32, itoa}
use helm.Common.Sort.{sort}
use helm.Release.{Release, status_name}
use helm.Result.{Result, ok, err, release_exists}
use helm.Storage.Labels
use helm.Storage.Labels.{Labels}

-- `record` in the source
pub record Entry : Type 0 where
  pub key : Bytes
  pub lbs : Labels
  pub rls : Release

abbrev pub Records : Type 0
Records = List Entry

-- records.Less
abbrev pub less : Entry → Entry → Bool
less a b = ltb a.rls.version b.rls.version

-- newRecord
unfoldable pub new_record : Bytes → Release → Entry
unfolding Labels.set itoa
new_record key rls =
    let lbs = Labels.set Labels.init (codes "NAME") rls.name in
    let lbs = Labels.set lbs (codes "OWNER") (codes "TILLER") in
    let lbs = Labels.set lbs (codes "STATUS") (status_name rls.info.code) in
    let lbs = Labels.set lbs (codes "VERSION") (itoa rls.version) in
    record { key = key; lbs = lbs; rls = rls }

-- records.Index: the position of the first record with the key
unfoldable pub index : Bytes → Records → Option ℕ
unfolding eqb
index key [] = none
index key (r ∷ rs) =
    if eqb r.key key then some 0 else elim (index key rs) [ none ↦ none | some i ↦ some (suc i) ]

unfoldable pub at : Records → ℕ → Option Entry
at [] i = none
at (r ∷ rs) zero = some r
at (r ∷ rs) (suc i) = at rs i

-- records.Get
unfoldable pub get : Bytes → Records → Option Entry
unfolding index at
get key rs = elim (index key rs) [ none ↦ none | some i ↦ at rs i ]

-- records.Exists
unfoldable pub exists : Bytes → Records → Bool
unfolding index
exists key rs = elim (index key rs) [ none ↦ false | some i ↦ true ]

-- records.Add, of a record that is not nil
unfoldable pub add : Entry → Records → Result Records
unfolding exists sort
add r rs = if exists r.key rs then err (release_exists r.key) else ok (sort less (rs ++ r ∷ []))

remove_index : Records → ℕ → Records
remove_index [] i = []
remove_index (r ∷ rs) zero = rs
remove_index (r ∷ rs) (suc i) = r ∷ remove_index rs i

-- records.removeAt and records.Remove
unfoldable pub remove_at : ℕ → Records → Option Entry × Records
unfolding at remove_index
remove_at i rs = (at rs i, remove_index rs i)

unfoldable pub remove : Bytes → Records → Option Entry × Records
unfolding index remove_at
remove key rs = elim (index key rs) [ none ↦ (none, rs) | some i ↦ remove_at i rs ]

put_at : Records → ℕ → Entry → Records
put_at [] i rec = []
put_at (r ∷ rs) zero rec = rec ∷ rs
put_at (r ∷ rs) (suc i) rec = r ∷ put_at rs i rec

-- records.Replace
unfoldable pub replace : Bytes → Entry → Records → Option Entry × Records
unfolding index at put_at
replace key rec rs = elim (index key rs) [ none ↦ (none, rs) | some i ↦ (at rs i, put_at rs i rec) ]

version_at : Records → ℕ → Int32 → Bool
unfolding at
version_at rs i vers = elim (at rs i) [ none ↦ false | some r ↦ r.rls.version == vers ]

-- `sort.Search(len(rs), …)`: the loop `for i < j { h := (i + j) / 2; … }`. The distance of `i` and
-- `j` falls in each round, so `len(rs) + 1` rounds are enough.
search_version : ℕ → Records → Int32 → ℕ → ℕ → ℕ
unfolding version_at
search_version zero rs vers i j = i
search_version (suc fuel) rs vers i j =
    let left = search_version fuel rs vers i ((i + j) / 2) in
    let right = search_version fuel rs vers ((i + j) / 2 + 1) j in
    if ltb i j then (if version_at rs ((i + j) / 2) vers then left else right) else i

-- records.FindByVersion
unfoldable pub find_by_version : Int32 → Records → ℕ × Bool
unfolding search_version version_at
find_by_version vers rs =
    let i = search_version (suc (length rs)) rs vers 0 (length rs) in
    if ltb i (length rs)
    then (if version_at rs i vers then (i, true) else (i, false))
    else (i, false)
