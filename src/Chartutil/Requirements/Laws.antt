-- ===== src/Chartutil/Requirements/Laws.antt =====
-- Which dependencies are enabled after the tags and the conditions of
-- pkg/chartutil/requirements.go, in the order in which doProcessRequirementsEnabled runs them.
use helm.Common.{Bytes, codes, Bool, true, false, Option, none, some, List, [], ◌∷◌, ◌≡◌, ◌≢◌, ◌⊎◌}
use helm.Chartutil.Value.{Value, Fields, bool, lookup}
use helm.Chartutil.Paths.{table_at}
use helm.Chartutil.Requirements.{Dependency, condition_paths}
use helm.Chartutil.Requirements.Decisions.{Decides, IsUndecided}

-- some of the tags has the Boolean as its value
abbrev pub Tagged : Fields → List Bytes → Bool → Type 0
Tagged vt [] b = ⊥
Tagged vt (k ∷ tags) b = (lookup k vt ≡ some (bool b)) ⊎ Tagged vt tags b

-- What the tags say: nothing without a table `tags` or without tags; else the dependency is enabled
-- where some tag is true, disabled where none is true and some is false, and else enabled.
abbrev pub ByTags : Option Fields → Dependency → Bool → Type 0
ByTags none r b = b ≡ r.enabled
ByTags (some vt) r b =
    ((r.tags ≡ []) × (b ≡ r.enabled))
    ⊎ ((r.tags ≢ [])
        × (((b ≡ true) × (Tagged vt r.tags true ⊎ (¬ Tagged vt r.tags false)))
            ⊎ ((b ≡ false) × Tagged vt r.tags false × (¬ Tagged vt r.tags true))))

-- what a dependency becomes
abbrev pub IsEnabledAs : Fields → Bytes → Dependency → Bool → Type 0
IsEnabledAs cvals cpath r b =
    Decides cvals cpath (condition_paths r.condition) b
    ⊎ (IsUndecided cvals cpath (condition_paths r.condition)
        × ByTags (table_at cvals (codes "tags")) r b)

-- the same dependencies in the same order, each enabled as it should be
abbrev pub AllEnabledAs : Fields → Bytes → List Dependency → List Dependency → Type 0
AllEnabledAs cvals cpath [] [] = Unit
AllEnabledAs cvals cpath (r ∷ reqs) (q ∷ qs) =
    (q.name ≡ r.name)
    × (q.condition ≡ r.condition)
    × (q.tags ≡ r.tags)
    × IsEnabledAs cvals cpath r q.enabled
    × AllEnabledAs cvals cpath reqs qs
AllEnabledAs cvals cpath _ _ = ⊥

module _ (cvals : Fields) (cpath : Bytes) where
  abbrev Processed : Dependency → Dependency → Type 0
  Processed r q =
      (q.name ≡ r.name)
      × (q.condition ≡ r.condition)
      × (q.tags ≡ r.tags)
      × IsEnabledAs cvals cpath r q.enabled
