-- ===== src/Repo/File.antt =====
-- RepoFile of pkg/repo/repo.go: the list of repositories.
use helm.Tiller.Install.{replaced}
use helm.Common.Text.{eqb, eqb_iff, eqb_refl}
use helm.Common.{
  if◌then◌else◌, Bytes, refl, ◌++◌, ◌≡◌, false, arith, ◌∷◌, List, Option, true, none, some, [],
  ◌&&◌, Bool,
}

pub record Entry : Type 0 where
  pub name : Bytes
  pub cache : Bytes
  pub url : Bytes
  pub username : Bytes
  pub password : Bytes
  pub cert_file : Bytes
  pub key_file : Bytes
  pub ca_file : Bytes

-- RepoFile.Add of one entry
unfoldable pub add : Entry → List Entry → List Entry
add re repos = repos ++ re ∷ []

-- one round of RepoFile.Update: whether the name was there, and the entries then
unfoldable pub replace : Entry → List Entry → Bool × List Entry
unfolding eqb
replace target [] = (false, [])
replace target (repo ∷ repos) =
    let (found, rest) = replace target repos in
    if eqb repo.name target.name then (true, target ∷ repos) else (found, repo ∷ rest)

-- RepoFile.Update of one entry
unfoldable pub update_one : Entry → List Entry → List Entry
unfolding replace add
update_one target repos =
    let (found, replaced) = replace target repos in if found then replaced else add target replaced

unfoldable pub update : List Entry → List Entry → List Entry
unfolding update_one
update [] repos = repos
update (target ∷ re) repos = update re (update_one target repos)

unfoldable pub get : Bytes → List Entry → Option Entry
unfolding eqb
get name [] = none
get name (repo ∷ repos) =
    let rest = get name repos in if eqb repo.name name then some repo else rest

abbrev pub is_some : Option Entry → Bool
is_some none = false
is_some (some re) = true

unfoldable pub has : Bytes → List Entry → Bool
unfolding get
has name repos = is_some (get name repos)

-- RepoFile.Remove: whether the name was there, and the entries then
unfoldable pub remove : Bytes → List Entry → Bool × List Entry
unfolding eqb
remove name [] = (false, [])
remove name (repo ∷ repos) =
    let (found, rest) = remove name repos in
    if eqb repo.name name then (true, rest) else (found, repo ∷ rest)

-- Remove says whether the name was there.
pub remove-found : (name : Bytes) (repos : List Entry) → (remove name repos).0 ≡ has name repos
unfolding remove has get
remove-found name [] = refl
remove-found name (repo ∷ repos) = ground (arith, remove-found name repos)

-- Removing a name removes every entry of it, and no other.
pub get-remove :
    (name other : Bytes) (repos : List Entry)
    → get other (remove name repos).1 ≡ (if eqb name other then none else get other repos)
unfolding remove get
get-remove name other [] = ground arith
get-remove name other (repo ∷ repos) = ground (
  arith,
  get-remove name other repos,
  eqb_iff repo.name name,
  eqb_iff repo.name other,
  eqb_iff name other,
)

get-replace :
    (target : Entry) (other : Bytes) (repos : List Entry)
    → get other (replace target repos).1
      ≡ (if has target.name repos && eqb target.name other then some target else get other repos)
unfolding replace get has
get-replace target other [] = refl
get-replace target other (repo ∷ repos) = ground (
  arith,
  get-replace target other repos,
  eqb_iff repo.name target.name,
  eqb_iff repo.name other,
  eqb_iff target.name other,
)

replace-found :
    (target : Entry) (repos : List Entry) → (replace target repos).0 ≡ has target.name repos
unfolding replace has get
replace-found target [] = refl
replace-found target (repo ∷ repos) = ground (arith, replace-found target repos)

get-add :
    (re : Entry) (name : Bytes) (repos : List Entry)
    → get name (add re repos) ≡ (if has name repos then get name repos else get name (re ∷ []))
unfolding add has get
get-add re name [] = refl
get-add re name (repo ∷ repos) = ground (arith, get-add re name repos)

-- Updating with an entry makes it the one of its name, whether the name was there or not, and
-- leaves every other name as it was.
pub get-update_one :
    (target : Entry) (other : Bytes) (repos : List Entry)
    → get other (update_one target repos)
      ≡ (if eqb target.name other then some target else get other repos)
unfolding update_one get has
get-update_one target other repos = ground (
  arith,
  replace-found target repos,
  get-replace target other repos,
  get-replace target target.name repos,
  get-add target other (replace target repos).1,
  eqb_iff target.name other,
  eqb_refl target.name,
)
