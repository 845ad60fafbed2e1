-- ===== src/Kube/Infos.antt =====
-- pkg/kube/result.go: lists of resources. An info is a resource.Info: the name, the namespace and
-- the kind of its mapping, and its object, of a type that the API machinery provides.
pub mod Laws
use helm.Common.{
  Bytes, Bool, true, false, ◌&&◌, not, if◌then◌else◌, Option, none, some, List, [], ◌∷◌,
}
use helm.Common.Text.{eqb}

pub record Info (O : Type 0) : Type 0 where
  pub name : Bytes
  pub namespace : Bytes
  -- Mapping.GroupVersionKind.Kind
  pub kind : Bytes
  pub object : O

module _ {O : Type 0} where
  unfoldable pub is_matching_info : Info O → Info O → Bool
  unfolding eqb
  is_matching_info a b = eqb a.name b.name && (eqb a.namespace b.namespace && eqb a.kind b.kind)

  -- Result.Filter
  unfoldable pub filter : (Info O → Bool) → List (Info O) → List (Info O)
  filter fn [] = []
  filter fn (i ∷ r) = let rest = filter fn r in if fn i then i ∷ rest else rest

  -- Result.Get, of the list in front
  unfoldable pub get : List (Info O) → Info O → Option (Info O)
  unfolding is_matching_info
  get [] info = none
  get (i ∷ r) info = let rest = get r info in if is_matching_info i info then some i else rest

  -- Result.Contains
  unfoldable pub contains : List (Info O) → Info O → Bool
  unfolding is_matching_info
  contains [] info = false
  contains (i ∷ r) info =
      let rest = contains r info in if is_matching_info i info then true else rest

  -- Result.Difference
  unfoldable pub difference : List (Info O) → List (Info O) → List (Info O)
  unfolding filter contains
  difference r rs = filter (λ info. not (contains rs info)) r

  -- Result.Intersect
  unfoldable pub intersect : List (Info O) → List (Info O) → List (Info O)
  unfolding filter contains
  intersect r rs = filter (λ info. contains rs info) r
