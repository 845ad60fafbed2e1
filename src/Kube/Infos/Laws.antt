-- ===== src/Kube/Infos/Laws.antt =====
-- Lists of resources in pkg/kube/result.go, where each has the name, the namespace and the kind of
-- another.
use helm.Common.{if◌then◌else◌, ◌≡◌, ap, ◌∷◌, List, [], not, refl}
use helm.Kube.Infos.{filter, Info, is_matching_info, contains, difference}

module _ {O : Type 0} where
  abbrev pub Same : Info O → Info O → Type 0
  Same i j = (i.name ≡ j.name) × (i.namespace ≡ j.namespace) × (i.kind ≡ j.kind)

  abbrev pub AllSame : List (Info O) → List (Info O) → Type 0
  AllSame [] [] = Unit
  AllSame (i ∷ is) (j ∷ js) = Same i j × AllSame is js
  AllSame _ _ = ⊥

  is_matching_info-Same : (i j x : Info O) → Same i j → is_matching_info i x ≡ is_matching_info j x
  unfolding is_matching_info
  is_matching_info-Same i j x (e, f, g) = rw (e, f, g) refl

  contains-AllSame :
      (is js : List (Info O)) (x : Info O) → AllSame is js → contains is x ≡ contains js x
  unfolding contains
  contains-AllSame [] [] x h = refl
  contains-AllSame [] (j ∷ js) x h = elim h [ ]
  contains-AllSame (i ∷ is) [] x h = elim h [ ]
  contains-AllSame (i ∷ is) (j ∷ js) x (h, hs) =
      rw (is_matching_info-Same i j x h, contains-AllSame is js x hs) refl

  pub difference-AllSame :
      (r is js : List (Info O)) → AllSame is js → difference r is ≡ difference r js
  unfolding difference filter
  difference-AllSame [] is js h = refl
  difference-AllSame (x ∷ r) is js h =
      rw (contains-AllSame is js x h)
        (ap (λ rest. if not (contains js x) then x ∷ rest else rest) (difference-AllSame r is js h))
